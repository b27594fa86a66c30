-- ===== src/Log.antt =====
-- log.c, stdio.c and the printing of numbers in fb.c. What is written to the serial port is the
-- list of its bytes. A format string ends with its list, and the arguments are in order.
pub mod Decimal
pub mod Hexadecimal
pub mod Format
mod Examples
use aenix.Base.{
  ℕ, zero, suc, ◌+◌, ◌-◌, ◌*◌, ◌/◌, ◌%◌, Bool, true, false, List, [], ◌∷◌, ◌++◌, leb, ltb, ◌^◌,
  Option, some, none, ◌==◌, if◌then◌else◌, mul32,
}
use aenix.Fb.{Fb, fb_put_b, fb_put_s}

-- `while (n*10 <= i)`: nine rounds and the last test are enough below 10^9.
unfoldable pub power_loop : (fuel i n : ℕ) → ℕ
power_loop zero i n = n
power_loop (suc fuel) i n =
    let rest = power_loop fuel i (mul32 n 10) in if leb (mul32 n 10) i then rest else n

unfoldable pub first_power : ℕ → ℕ
first_power i = if leb 1_000_000_000 i then 1_000_000_000 else power_loop 9 i 1

-- `while (n > 0)`: `n` has at most ten digits.
unfoldable pub digits_loop : (fuel i n : ℕ) → List ℕ
digits_loop zero i n = []
digits_loop (suc fuel) i n =
    let rest = digits_loop fuel (i % n) (n / 10) in
    if n == 0 then [] else (b'0' + i / n) % 256 ∷ rest

unfoldable pub log_ui : ℕ → List ℕ
log_ui i = digits_loop 11 i (first_power i)

-- `fb_put_ui` has the same loops.
unfoldable pub fb_put_ui : Fb → ℕ → Fb
fb_put_ui s i = fb_put_s s (digits_loop 11 i (first_power i))

-- "0123456789ABCDEF"[digit]
abbrev pub hex_char : ℕ → ℕ
hex_char digit = if ltb digit 10 then b'0' + digit else b'A' + (digit - 10)

-- `while ((1 << (n+4)) <= i)`: below 2^28, seven rounds are enough.
unfoldable pub nibble_loop : (fuel i n : ℕ) → ℕ
nibble_loop zero i n = n
nibble_loop (suc fuel) i n =
    let rest = nibble_loop fuel i (n + 4) in if leb (2 ^ (n + 4)) i then rest else n

unfoldable pub first_nibble : ℕ → ℕ
first_nibble i = if leb 0x1000_0000 i then 28 else nibble_loop 7 i 0

unfoldable pub pad_loop : (fuel min_digits n : ℕ) → List ℕ
pad_loop zero min_digits n = []
pad_loop (suc fuel) min_digits n =
    let rest = pad_loop fuel (min_digits - 4) n in if ltb n min_digits then b'0' ∷ rest else []

unfoldable pub hex_loop : (fuel i n : ℕ) → List ℕ
hex_loop zero i n = []
hex_loop (suc fuel) i n =
    let rest = hex_loop fuel i (n - 4) in hex_char (i / 2 ^ n % 16) ∷ (if n == 0 then [] else rest)

-- `min_digits` is 8, which leaves (8 - 1) << 2 for the padding.
unfoldable pub log_hex : ℕ → List ℕ
log_hex i = let n = first_nibble i in b'0' ∷ b'x' ∷ (pad_loop 8 28 n ++ hex_loop 8 i n)

-- The loop of `fb_put_ui_hex`, with `left` digits to come.
unfoldable pub fb_hex_loop : (left : ℕ) → Fb → (n : ℕ) → Fb
fb_hex_loop zero s n = s
fb_hex_loop (suc left) s n = fb_hex_loop left (fb_put_b s (hex_char (n / 2 ^ (left * 4) % 16))) n

unfoldable pub fb_put_ui_hex : Fb → ℕ → Fb
fb_put_ui_hex s n = fb_hex_loop 8 (fb_put_s s (b'0' ∷ b'x' ∷ [])) n

pub data Arg : Type 0 where
  num : ℕ → Arg
  text : List ℕ → Arg

abbrev pub percent : ℕ
percent = b'%'

-- `va_arg`: `none` where the next argument is not there or of another kind.
unfoldable pub next_number {ℓ} : {A : Type ℓ} → List Arg → (ℕ → A) → Option (A × List Arg)
next_number (num n ∷ args) f = some (f n, args)
next_number args f = none

unfoldable pub next_text {ℓ} : {A : Type ℓ} → List Arg → (List ℕ → A) → Option (A × List Arg)
next_text (text t ∷ args) f = some (f t, args)
next_text args f = none

-- The switch of `log_vprintf`: what is written for one conversion.
unfoldable pub log_convert : (c : ℕ) → List Arg → Option (List ℕ × List Arg)
unfolding next_number next_text
log_convert c args =
    if c == b'c'
    then next_number args (λ n. n % 256 ∷ [])
    else if c == b'u'
    then next_number args log_ui
    else if c == b'X'
    then next_number args log_hex
    else if c == b's'
    then next_text args (λ t. t)
    else if c == percent
    then some (percent ∷ [], args)
    else some ([], args)

abbrev pub prepend : List ℕ → Option (List ℕ) → Option (List ℕ)
prepend out none = none
prepend out (some rest) = some (out ++ rest)

-- `none` where an argument is wrong, or where the string ends behind a '%': there the loop reads
-- on behind the end.
unfoldable pub log_vprintf : (fmt : List ℕ) → List Arg → Option (List ℕ)
log_vprintf [] args = some []
log_vprintf (p ∷ []) args = if p == percent then none else some (p ∷ [])
log_vprintf (p ∷ c ∷ fmt) args =
    let plain = prepend (p ∷ []) (log_vprintf (c ∷ fmt) args) in
    let converted : Option (List ℕ) = elim (log_convert c args) [
      | none ↦ none
      | some (out, args') ↦ prepend out (log_vprintf fmt args')
    ] in
    if p == percent then converted else plain

-- The switch and the loop of `printf`.
unfoldable pub fb_convert : Fb → (c : ℕ) → List Arg → Option (Fb × List Arg)
unfolding next_number next_text
fb_convert s c args =
    if c == b'c'
    then next_number args (λ n. fb_put_b s (n % 256))
    else if c == b'u'
    then next_number args (fb_put_ui s)
    else if c == b'X'
    then next_number args (fb_put_ui_hex s)
    else if c == b's'
    then next_text args (fb_put_s s)
    else if c == percent
    then some (fb_put_b s percent, args)
    else some (s, args)

unfoldable pub printf : Fb → (fmt : List ℕ) → List Arg → Option Fb
printf s [] args = some s
printf s (p ∷ []) args = if p == percent then none else some (fb_put_b s p)
printf s (p ∷ c ∷ fmt) args =
    let plain = printf (fb_put_b s p) (c ∷ fmt) args in
    let converted : Option Fb = elim (fb_convert s c args) [
      | none ↦ none
      | some (s', args') ↦ printf s' fmt args'
    ] in
    if p == percent then converted else plain

-- `log_printf("INFO: %s: ", fname)` and then the message; `level` is one of the three below.
unfoldable pub log_message : (level : List ℕ) → (fname fmt : List ℕ) → List Arg → Option (List ℕ)
log_message level fname fmt args =
    elim (log_vprintf (level ++ b':' ∷ b' ' ∷ percent ∷ b's' ∷ b':' ∷ b' ' ∷ [])
      (text fname ∷ [])) [ none ↦ none | some out ↦ prepend out (log_vprintf fmt args) ]

unfoldable pub log_debug : (fname fmt : List ℕ) → List Arg → Option (List ℕ)
log_debug = log_message (b'D' ∷ b'E' ∷ b'B' ∷ b'U' ∷ b'G' ∷ [])

unfoldable pub log_info : (fname fmt : List ℕ) → List Arg → Option (List ℕ)
log_info = log_message (b'I' ∷ b'N' ∷ b'F' ∷ b'O' ∷ [])

unfoldable pub log_error : (fname fmt : List ℕ) → List Arg → Option (List ℕ)
log_error = log_message (b'E' ∷ b'R' ∷ b'R' ∷ b'O' ∷ b'R' ∷ [])
