-- ===== src/Log/Hexadecimal.antt =====
-- log.c and fb.c: two ways to print hexadecimal digits.
use native.Mathlib.Nat.{div-eq_of_lt, pow-le-pow_right}
use aenix.Base.{
  ℕ, zero, suc, ◌+◌, ◌-◌, ◌*◌, ◌/◌, ◌%◌, ◌^◌, ◌≤◌, ◌<◌, ◌≡◌, refl, ap, ap₂, ◌∙◌, sym, true, false,
  List, [], ◌∷◌, ◌++◌, arith, ltb, ◌==◌, inl, inr, le_cases, le→leb, lt→leb,
}
use aenix.Fb.{Fb, fb_put_b, fb_put_s}
use aenix.Log.{
  hex_char, nibble_loop, first_nibble, pad_loop, hex_loop, log_hex, fb_hex_loop, fb_put_ui_hex,
}

-- The last `left` digits of a number.
unfoldable pub digits : (left : ℕ) → ℕ → List ℕ
digits zero i = []
digits (suc left) i = hex_char (i / 2 ^ (left * 4) % 16) ∷ digits left i

hex_loop-digits : (k fuel i : ℕ) → k < fuel → hex_loop fuel i (k * 4) ≡ digits (suc k) i
unfolding hex_loop digits
hex_loop-digits k zero i lt = absurd (omega arith)
hex_loop-digits zero (suc fuel) i lt = refl
hex_loop-digits (suc k) (suc fuel) i lt =
    let more : (suc k * 4 == 0) ≡ false = ground arith in
    let back : suc k * 4 - 4 ≡ k * 4 = omega arith in
    rw (more, back)
      (ap (λ t. hex_char (i / 2 ^ (suc k * 4) % 16) ∷ t) (hex_loop-digits k fuel i (omega arith)))

-- The zeros in front are the digits that the number does not have.
padded-digits :
    (d fuel k i : ℕ)
    → d < fuel
    → k < 8
    → i < 2 ^ (suc k * 4)
    → pad_loop fuel ((k + d) * 4) (k * 4) ++ hex_loop 8 i (k * 4) ≡ digits (suc (k + d)) i
unfolding pad_loop digits
padded-digits d zero k i lt k_lt small = absurd (omega arith)
padded-digits zero (suc fuel) k i lt k_lt small =
    let e : k + 0 ≡ k = omega arith in
    let stop : ltb (k * 4) (k * 4) ≡ false = ground arith in
    rw (e, stop) (hex_loop-digits k 8 i k_lt)
padded-digits (suc d) (suc fuel) k i lt k_lt small =
    let e : k + suc d ≡ suc (k + d) = omega arith in
    let more : ltb (k * 4) (suc (k + d) * 4) ≡ true = ground arith in
    let back : suc (k + d) * 4 - 4 ≡ (k + d) * 4 = omega arith in
    let bound : 2 ^ (suc k * 4) ≤ 2 ^ (suc (k + d) * 4) =
      pow-le-pow_right {n = 2} (omega arith) {i = suc k * 4} {j = suc (k + d) * 4} (omega arith) in
    let none_there : i / 2 ^ (suc (k + d) * 4) ≡ 0 = div-eq_of_lt (omega arith) in
    rw (e, more, back)
      (ap₂ (λ c cs. c ∷ cs) (ap (λ n. hex_char (n % 16)) (sym none_there))
        (padded-digits d fuel k i (omega arith) k_lt small))

-- The place of the first nibble.
nibble_loop_bound :
    (fuel k i : ℕ)
    → k + fuel ≡ 7
    → i < 0x1000_0000
    → (k' : ℕ) × (nibble_loop fuel i (k * 4) ≡ k' * 4) × (k' < 8) × (i < 2 ^ (suc k' * 4))
unfolding nibble_loop
nibble_loop_bound zero k i e lt =
    let last : k ≡ 7 = omega arith in rw last (7, refl, omega arith, omega arith)
nibble_loop_bound (suc fuel) k i e lt =
    let next : k * 4 + 4 ≡ suc k * 4 = omega arith in
    elim (le_cases (2 ^ (suc k * 4)) i) [
      | inl le ↦
          rw (next, le→leb (2 ^ (suc k * 4)) i le)
            (nibble_loop_bound fuel (suc k) i (omega arith) lt)
      | inr small ↦ rw (next, lt→leb (2 ^ (suc k * 4)) i small) (k, refl, omega arith, small)
    ]

first_nibble_bound :
    (i : ℕ) → i < 2 ^ 32 → (k : ℕ) × (first_nibble i ≡ k * 4) × (k < 8) × (i < 2 ^ (suc k * 4))
unfolding first_nibble
first_nibble_bound i lt = elim (le_cases 0x1000_0000 i) [
  | inl le ↦ rw (le→leb 0x1000_0000 i le) (7, refl, omega arith, lt)
  | inr small ↦ rw (lt→leb 0x1000_0000 i small) (nibble_loop_bound 7 0 i refl small)
]

-- `log_hex` prints eight digits of a 32-bit number behind "0x", whatever its size.
pub log_hex-digits : (i : ℕ) → i < 2 ^ 32 → log_hex i ≡ b'0' ∷ b'x' ∷ digits 8 i
unfolding log_hex
log_hex-digits i lt =
    let (k, first, k_lt, small) = first_nibble_bound i lt in
    let up : (k + (7 - k)) * 4 ≡ 28 = omega arith in
    let all : suc (k + (7 - k)) ≡ 8 = omega arith in
    ap (λ n. b'0' ∷ b'x' ∷ (pad_loop 8 28 n ++ hex_loop 8 i n)) first
    ∙ ap (λ cs. b'0' ∷ b'x' ∷ cs)
        (ap (λ n. pad_loop 8 n (k * 4) ++ hex_loop 8 i (k * 4)) (sym up)
          ∙ padded-digits (7 - k) 8 k i (omega arith) k_lt small
          ∙ ap (λ n. digits n i) all)

fb_hex_loop-digits : (left : ℕ) (s : Fb) (n : ℕ) → fb_hex_loop left s n ≡ fb_put_s s (digits left n)
unfolding fb_hex_loop fb_put_s digits
fb_hex_loop-digits zero s n = refl
fb_hex_loop-digits (suc left) s n =
    fb_hex_loop-digits left (fb_put_b s (hex_char (n / 2 ^ (left * 4) % 16))) n

-- The console shows of a number what the log has.
pub fb_put_ui_hex-log_hex :
    (s : Fb) (n : ℕ) → n < 2 ^ 32 → fb_put_ui_hex s n ≡ fb_put_s s (log_hex n)
unfolding fb_put_ui_hex fb_put_s
fb_put_ui_hex-log_hex s n lt =
    fb_hex_loop-digits 8 (fb_put_s s (b'0' ∷ b'x' ∷ [])) n
    ∙ ap (fb_put_s s) (sym (log_hex-digits n lt))
