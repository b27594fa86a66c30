-- ===== src/CString/Compare.antt =====
-- string.c: what the comparisons of strings tell.
use aenix.Base.{
  ℕ, zero, suc, ◌+◌, ◌^◌, ◌<◌, ◌≡◌, ◌↔◌, refl, ap₂, subst, ◌∙◌, [], ◌∷◌, length, ◌==◌, arith, add32,
  Bool-cases, inl, inr,
}
use aenix.CString.{Str, peek, equal, strlen_loop, strlen, strcmp_loop, strcmp, strncmp}

strlen_loop-length :
    (s : Str) (len : ℕ) → len + length s < 2 ^ 32 → strlen_loop s len ≡ len + length s
unfolding strlen_loop
strlen_loop-length [] len lt = ground arith
strlen_loop-length (c ∷ s) len lt =
    let one : add32 len 1 ≡ len + 1 = omega arith in
    rw one (strlen_loop-length s (len + 1) (omega arith) ∙ omega arith)

-- `strlen` gives the number of bytes, where `size_t` can hold it.
pub strlen-length : (s : Str) → length s < 2 ^ 32 → strlen s ≡ length s
unfolding strlen
strlen-length s lt = strlen_loop-length s 0 (omega arith) ∙ omega arith

strcmp_loop-equal : (s t : Str) → length s ≡ length t → strcmp_loop s t ≡ equal → s ≡ t
unfolding strcmp_loop
strcmp_loop-equal [] [] len e = refl
strcmp_loop-equal [] (d ∷ t) len e = ground arith
strcmp_loop-equal (c ∷ s) [] len e = ground arith
strcmp_loop-equal (c ∷ s) (d ∷ t) len e = elim (Bool-cases (c == d)) [
  | inl same ↦
      let head : c ≡ d = ground arith in
      let tail : strcmp_loop s t ≡ equal = ground (arith, e) in
      ap₂ (λ x xs. x ∷ xs) head (strcmp_loop-equal s t (ground arith) tail)
  | inr other ↦ ground (arith, e)
]

strcmp_loop_refl : (s : Str) → strcmp_loop s s ≡ equal
unfolding strcmp_loop
strcmp_loop_refl [] = refl
strcmp_loop_refl (c ∷ s) = ground (arith, strcmp_loop_refl s)

pub strcmp_refl : (s : Str) → strcmp s s ≡ equal
unfolding strcmp
strcmp_refl s = ground (arith, strcmp_loop_refl s)

-- `strcmp` returns 0 exactly for equal strings (of fewer than 2^32 bytes).
pub strcmp_iff :
    (s t : Str) → length s < 2 ^ 32 → length t < 2 ^ 32 → ((strcmp s t ≡ equal) ↔ (s ≡ t))
unfolding strcmp
strcmp_iff s t lt lt' =
    let len : strlen s ≡ length s = strlen-length s lt in
    let len' : strlen t ≡ length t = strlen-length t lt' in
    (
      λ e. strcmp_loop-equal s t (ground (arith, e)) (ground (arith, e)),
      λ e. subst (λ u. strcmp s u ≡ equal) e (strcmp_refl s),
    )

strncmp-same : (s t : Str) (n : ℕ) → peek s ≡ peek t → strncmp s t n ≡ equal
unfolding strncmp
strncmp-same s t zero e = refl
strncmp-same s t (suc n) e = ground (arith, strncmp-same s t n e)

strncmp-differ : (s t : Str) (n : ℕ) → strncmp s t (suc n) ≡ equal → peek s ≡ peek t
unfolding strncmp
strncmp-differ s t n e = ground (arith, e)

-- `strncmp` compares no more than the first bytes: for n > 0, it returns 0 exactly where these
-- agree, whatever follows them.
pub strncmp_iff : (s t : Str) (n : ℕ) → 0 < n → ((strncmp s t n ≡ equal) ↔ (peek s ≡ peek t))
strncmp_iff s t zero lt = ground arith
strncmp_iff s t (suc n) lt = (strncmp-differ s t n, strncmp-same s t (suc n))
