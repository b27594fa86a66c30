-- ===== src/CString/Span.antt =====
-- string.c: searching in a string.
use aenix.Base.{
  ℕ, ◌+◌, ◌^◌, ◌<◌, ◌≡◌, refl, ◌∙◌, Bool, true, false, ◌||◌, [], ◌∷◌, ◌++◌, length, some, ◌==◌,
  if◌then◌else◌, arith, add32, Bool-cases, inl, inr,
}
use aenix.CString.{Str, is_some, strchr, strcspn_loop, strcspn}

abbrev pub has_char : ℕ → Str → Bool
has_char c [] = false
has_char c (d ∷ s) = (d == c) || has_char c s

-- `strchr` gives the rest of the string from the first occurrence of the character.
pub strchr-first :
    (p : Str) (c : ℕ) (q : Str) → has_char c p ≡ false → strchr (p ++ c ∷ q) c ≡ some (c ∷ q)
unfolding strchr
strchr-first [] c q out = ground arith
strchr-first (d ∷ p) c q out = ground (arith, strchr-first p c q)

pub strchr-is_some : (s : Str) (c : ℕ) → is_some (strchr s c) ≡ has_char c s
unfolding strchr
strchr-is_some [] c = refl
strchr-is_some (d ∷ s) c = elim (Bool-cases (d == c)) [
  | inl e ↦ rw e refl
  | inr e ↦ rw e (strchr-is_some s c)
]

-- Whether no character of `p` is one of `reject`.
abbrev pub none_of : Str → Str → Bool
none_of reject [] = true
none_of reject (c ∷ p) = let rest = none_of reject p in if has_char c reject then false else rest

-- Whether the string is at its end or begins with one of `reject`.
abbrev pub stops : Str → Str → Bool
stops reject [] = true
stops reject (c ∷ q) = has_char c reject

strcspn_loop-prefix :
    (p q reject : Str) (l : ℕ)
    → l + length p < 2 ^ 32
    → none_of reject p ≡ true
    → stops reject q ≡ true
    → strcspn_loop (p ++ q) reject l ≡ l + length p
unfolding strcspn_loop
strcspn_loop-prefix [] [] reject l lt out stop = ground arith
strcspn_loop-prefix [] (c ∷ q) reject l lt out stop =
    rw (strchr-is_some reject c, stop) (ground arith)
strcspn_loop-prefix (c ∷ p) q reject l lt out stop =
    let step : add32 l 1 ≡ l + 1 = omega arith in
    let go : has_char c reject ≡ false = ground arith in
    rw (strchr-is_some reject c, go, step)
      (strcspn_loop-prefix p q reject (l + 1) (omega arith) (ground arith) stop ∙ omega arith)

-- `strcspn` gives the length of the longest beginning of the string (of fewer than 2^32 bytes)
-- without a character of `reject`.
pub strcspn-prefix :
    (p q reject : Str)
    → length p < 2 ^ 32
    → none_of reject p ≡ true
    → stops reject q ≡ true
    → strcspn (p ++ q) reject ≡ length p
unfolding strcspn
strcspn-prefix p q reject lt out stop =
    strcspn_loop-prefix p q reject 0 (omega arith) out stop ∙ omega arith
