-- ===== src/Log/Format.antt =====
-- log.c and stdio.c: format strings, for the log and for the console.

use aenix.Base.{
  ℕ, ◌<◌, ◌^◌, ◌%◌, ◌≡◌, refl, ap, ◌∙◌, sym, subst, Bool, true, false, List, [], ◌∷◌, ◌++◌, Option,
  some, none, arith, ◌==◌, if◌then◌else◌, Bool-cases, Option-cases, inl, inr,
}
use aenix.Fb.{Fb, fb_put_b, fb_put_s}
use aenix.Log.{
  Arg, num, text, percent, log_ui, log_hex, fb_put_ui, log_convert, fb_convert, prepend,
  log_vprintf, printf, next_number, next_text,
}
use aenix.Log.Hexadecimal.{fb_put_ui_hex-log_hex}

-- The numbers among the arguments have 32 bits.
abbrev pub AreWords : List Arg → Type 0
AreWords [] = Unit {0}
AreWords (num n ∷ args) = (n < 2 ^ 32) × AreWords args
AreWords (text t ∷ args) = AreWords args

-- What the console shows of what is printed.
abbrev shown {ℓ} : {A : Type ℓ} → Fb → Option (List ℕ × A) → Option (Fb × A)
shown s none = none
shown s (some (out, a)) = some (fb_put_s s out, a)

abbrev pub shows : Fb → Option (List ℕ) → Option Fb
shows s none = none
shows s (some out) = some (fb_put_s s out)

fb_put_s-append : (xs ys : List ℕ) (s : Fb) → fb_put_s s (xs ++ ys) ≡ fb_put_s (fb_put_s s xs) ys
unfolding fb_put_s
fb_put_s-append [] ys s = refl
fb_put_s-append (x ∷ xs) ys s = fb_put_s-append xs ys (fb_put_b s x)

fb_convert-log_convert :
    (s : Fb) (c : ℕ) (args : List Arg)
    → AreWords args
    → fb_convert s c args ≡ shown s (log_convert c args)
unfolding fb_convert log_convert fb_put_s fb_put_ui log_ui
fb_convert-log_convert s c [] words = ground arith
fb_convert-log_convert s c (num n ∷ args) words = ground (arith, fb_put_ui_hex-log_hex s n)
fb_convert-log_convert s c (text t ∷ args) words = ground arith

abbrev Keeps : Option (List ℕ × List Arg) → Type 0
Keeps none = Unit {0}
Keeps (some (out, args)) = AreWords args

if-Keeps :
    (b : Bool) (o o' : Option (List ℕ × List Arg))
    → Keeps o
    → Keeps o'
    → Keeps (if b then o else o')
if-Keeps true o o' k k' = k
if-Keeps false o o' k k' = k'

next_number-Keeps : (args : List Arg) (f : ℕ → List ℕ) → AreWords args → Keeps (next_number args f)
unfolding next_number
next_number-Keeps [] f words = tt
next_number-Keeps (num n ∷ args) f words = words.1
next_number-Keeps (text t ∷ args) f words = tt

next_text-Keeps : (args : List Arg) (f : List ℕ → List ℕ) → AreWords args → Keeps (next_text args f)
unfolding next_text
next_text-Keeps [] f words = tt
next_text-Keeps (num n ∷ args) f words = tt
next_text-Keeps (text t ∷ args) f words = words

log_convert-Keeps : (c : ℕ) (args : List Arg) → AreWords args → Keeps (log_convert c args)
unfolding log_convert
log_convert-Keeps c args words =
    if-Keeps (c == b'c') _ _ (next_number-Keeps args (λ n. n % 256 ∷ []) words) (
      if-Keeps (c == b'u') _ _ (next_number-Keeps args log_ui words) (
        if-Keeps (c == b'X') _ _ (next_number-Keeps args log_hex words) (
          if-Keeps (c == b's') _ _ (next_text-Keeps args (λ t. t) words)
            (if-Keeps (c == percent) _ _ words words))))

log_convert-AreWords :
    (c : ℕ) (args : List Arg) (r : List ℕ × List Arg)
    → AreWords args
    → log_convert c args ≡ some r
    → AreWords r.1
log_convert-AreWords c args r words e = subst Keeps e (log_convert-Keeps c args words)

shows-prepend :
    (s : Fb) (out : List ℕ) (o : Option (List ℕ))
    → shows (fb_put_s s out) o ≡ shows s (prepend out o)
shows-prepend s out none = refl
shows-prepend s out (some rest) = ap some (sym (fb_put_s-append out rest s))

-- Where the numbers among the arguments have 32 bits, `printf` shows on the console what
-- `log_vprintf` writes to the serial port, for every format string, and goes wrong exactly where the
-- log does.
pub printf-log_vprintf :
    (fmt : List ℕ) (s : Fb) (args : List Arg)
    → AreWords args
    → printf s fmt args ≡ shows s (log_vprintf fmt args)
unfolding printf log_vprintf fb_put_s
printf-log_vprintf [] s args words = refl
printf-log_vprintf (p ∷ []) s args words = elim (Bool-cases (p == percent)) [
  | inl e ↦ rw e refl
  | inr e ↦ rw e refl
]
printf-log_vprintf (p ∷ c ∷ fmt) s args words = elim (Bool-cases (p == percent)) [
  | inl e ↦ elim (Option-cases (log_convert c args)) [
    | inl wrong ↦
        let same : fb_convert s c args ≡ none =
          fb_convert-log_convert s c args words ∙ ap (shown s) wrong in
        rw (e, wrong, same) refl
    | inr ((out, args'), right) ↦
        let same : fb_convert s c args ≡ some (fb_put_s s out, args') =
          fb_convert-log_convert s c args words ∙ ap (shown s) right in
        rw (e, right, same)
          (printf-log_vprintf fmt (fb_put_s s out) args'
              (log_convert-AreWords c args (out, args') words right)
            ∙ shows-prepend s out (log_vprintf fmt args'))
  ]
  | inr e ↦ rw e (
      printf-log_vprintf (c ∷ fmt) (fb_put_b s p) args words
      ∙ shows-prepend s (p ∷ []) (log_vprintf (c ∷ fmt) args))
]
