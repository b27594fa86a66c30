-- ===== src/CString/Memory.antt =====
-- string.c: what `memset` and `memcpy` leave in the memory.
use aenix.Base.{
  ℕ, zero, suc, ◌+◌, ◌%◌, ◌≤◌, ◌<◌, ◌≡◌, ◌⊎◌, refl, ap, ◌∙◌, false, ◌==◌, arith, Bool-cases, inl,
  inr,
}
use aenix.CString.{Mem, store_byte, memset_loop, memset, memcpy}

memset_loop-outside :
    (n : ℕ) (m : Mem) (p cb a : ℕ) → (a < p) ⊎ (p + n ≤ a) → memset_loop n m p cb a ≡ m a
unfolding memset_loop
memset_loop-outside zero m p cb a out = refl
memset_loop-outside (suc n) m p cb a out =
    let other : (a == p) ≡ false = grind arith in
    memset_loop-outside n (store_byte m p cb) (p + 1) cb a (grind arith) ∙ rw other refl

memset_loop-inside :
    (n : ℕ) (m : Mem) (p cb a : ℕ) → p ≤ a → a < p + n → memset_loop n m p cb a ≡ cb
unfolding memset_loop
memset_loop-inside zero m p cb a le lt = ground arith
memset_loop-inside (suc n) m p cb a le lt = elim (Bool-cases (a == p)) [
  | inl e ↦ memset_loop-outside n (store_byte m p cb) (p + 1) cb a (inl (ground arith)) ∙ rw e refl
  | inr e ↦ memset_loop-inside n (store_byte m p cb) (p + 1) cb a (ground arith) (omega arith)
]

-- `memset` fills its `n` bytes with the low byte of `c`, and no other byte changes.
pub memset_lem :
    (m : Mem) (s c n a : ℕ)
    → ((s ≤ a → a < s + n → memset m s c n a ≡ c % 256)
        × ((a < s) ⊎ (s + n ≤ a) → memset m s c n a ≡ m a))
unfolding memset
memset_lem m s c n a = (memset_loop-inside n m s (c % 256) a, memset_loop-outside n m s (c % 256) a)

memcpy-outside :
    (n : ℕ) (m : Mem) (dest src a : ℕ) → (a < dest) ⊎ (dest + n ≤ a) → memcpy m dest src n a ≡ m a
unfolding memcpy
memcpy-outside zero m dest src a out = refl
memcpy-outside (suc n) m dest src a out =
    let other : (a == dest) ≡ false = grind arith in
    memcpy-outside n (store_byte m dest (m src)) (dest + 1) (src + 1) a (grind arith)
    ∙ rw other refl

memcpy-copies :
    (n : ℕ) (m : Mem) (dest src i : ℕ)
    → i < n
    → (dest ≤ src) ⊎ (src + n ≤ dest)
    → memcpy m dest src n (dest + i) ≡ m (src + i)
unfolding memcpy
memcpy-copies zero m dest src i lt apart = ground arith
memcpy-copies (suc n) m dest src zero lt apart =
    let here : dest + 0 ≡ dest = omega arith in
    let there : src + 0 ≡ src = omega arith in
    rw (here, there)
      (memcpy-outside n (store_byte m dest (m src)) (dest + 1) (src + 1) dest (inl (ground arith))
        ∙ ground arith)
memcpy-copies (suc n) m dest src (suc i) lt apart =
    let here : dest + suc i ≡ dest + 1 + i = omega arith in
    let there : src + 1 + i ≡ src + suc i = omega arith in
    let other : (src + 1 + i == dest) ≡ false = grind arith in
    rw here (
      memcpy-copies n (store_byte m dest (m src)) (dest + 1) (src + 1) i (omega arith) (grind arith)
      ∙ rw other (ap m there))

-- `memcpy` copies its `n` bytes and changes no other, where the destination does not begin
-- inside the source.
pub memcpy_lem :
    (n : ℕ) (m : Mem) (dest src : ℕ)
    → (dest ≤ src) ⊎ (src + n ≤ dest)
    → ((i : ℕ) → i < n → memcpy m dest src n (dest + i) ≡ m (src + i))
      × ((a : ℕ) → (a < dest) ⊎ (dest + n ≤ a) → memcpy m dest src n a ≡ m a)
memcpy_lem n m dest src apart =
    (λ i lt. memcpy-copies n m dest src i lt apart, λ a out. memcpy-outside n m dest src a out)
