-- ===== src/Pfa/Bits.antt =====
-- page_frame_allocator.c: the words of a new bitmap.
use mathlib.Core.List.{append_assoc}
use aenix.Base.{
  ◌∙◌, ℕ, zero, suc, ◌+◌, ◌-◌, ◌*◌, ◌/◌, ◌%◌, ◌<◌, ◌≡◌, refl, ap, List, [], ◌∷◌, ◌++◌, arith,
  length, replicate, length-append, length-replicate,
}
use aenix.Pfa.Init.{last_loop, bitmap_bytes, words_of}

pub length-words_of : (bytes : List ℕ) → length (words_of bytes) ≡ length bytes / 4
unfolding words_of
length-words_of [] = refl
length-words_of (a ∷ []) = refl
length-words_of (a ∷ b ∷ []) = refl
length-words_of (a ∷ b ∷ c ∷ []) = refl
length-words_of (a ∷ b ∷ c ∷ d ∷ bytes) = omega (arith, length-words_of bytes)

pub length-bitmap_bytes :
    (bitmap_size len : ℕ) → 0 < bitmap_size → length (bitmap_bytes bitmap_size len) ≡ bitmap_size
unfolding bitmap_bytes
length-bitmap_bytes bitmap_size len lt = omega (
  arith,
  length-append (replicate (bitmap_size - 1) 0xFF) (last_loop (len % 8) 0 0 ∷ []),
  length-replicate {A = ℕ} (bitmap_size - 1) 0xFF,
)

words_of-full :
    (n : ℕ) (behind : List ℕ)
    → words_of (replicate (4 * n) 0xFF ++ 0xFF ∷ 0xFF ∷ 0xFF ∷ 0 ∷ [])
      ≡ replicate n 0xFFFF_FFFF ++ 0xFF_FFFF ∷ []
unfolding words_of
words_of-full zero behind = refl
words_of-full (suc n) behind =
    let more : 4 * suc n ≡ suc (suc (suc (suc (4 * n)))) = omega arith in
    rw more (ap (◌∷◌ 0xFFFF_FFFF) (words_of-full n behind))

replicate-more :
    (n : ℕ) (a : ℕ) (rest : List ℕ)
    → replicate (n + 3) a ++ rest ≡ replicate n a ++ a ∷ a ∷ a ∷ rest
replicate-more zero a rest = refl
replicate-more (suc n) a rest =
    let more : suc n + 3 ≡ suc (n + 3) = omega arith in
    rw more (ap (◌∷◌ a) (replicate-more n a rest))

words_of-free :
    (n m : ℕ) (rest : List ℕ)
    → words_of (replicate (4 * n + m) 0xFF ++ rest)
      ≡ replicate n 0xFFFF_FFFF ++ words_of (replicate m 0xFF ++ rest)
unfolding words_of
words_of-free zero m rest = let none_more : 4 * 0 + m ≡ m = omega arith in rw none_more refl
words_of-free (suc n) m rest =
    let more : 4 * suc n + m ≡ suc (suc (suc (suc (4 * n + m)))) = omega arith in
    rw more (ap (◌∷◌ 0xFFFF_FFFF) (words_of-free n m rest))

-- All frames are free in the words before the one that has the last byte of the bitmap.
pub bitmap_bytes-free :
    (size len : ℕ) (behind : List ℕ)
    → (rest : List ℕ) × (words_of (bitmap_bytes size len ++ behind)
        ≡ replicate ((size - 1) / 4) 0xFFFF_FFFF ++ rest)
unfolding bitmap_bytes
bitmap_bytes-free size len behind =
    let n = (size - 1) / 4 in
    let m = (size - 1) % 4 in
    let split : size - 1 ≡ 4 * n + m = omega arith in
    let last = last_loop (len % 8) 0 0 ∷ [] in
    let bytes : List ℕ = last ++ behind in
    (
      words_of (replicate m 0xFF ++ bytes),
      ap words_of (append_assoc (replicate (size - 1) 0xFF) last behind)
          ∙ ap (λ k. words_of (replicate k 0xFF ++ bytes)) split
          ∙ words_of-free n m bytes,
    )

-- A new bitmap for a multiple of 32 frames does not have all frames free: the last byte is
-- cleared, and the eight frames of the last word's first bits are taken.
pub bitmap_bytes-drops :
    (n : ℕ)
    → words_of (bitmap_bytes (4 * (n + 1)) (32 * (n + 1)))
      ≡ replicate n 0xFFFF_FFFF ++ 0xFF_FFFF ∷ []
unfolding bitmap_bytes last_loop
bitmap_bytes-drops n =
    let size : 4 * (n + 1) - 1 ≡ 4 * n + 3 = omega arith in
    let none_left : 32 * (n + 1) % 8 ≡ 0 = omega arith in
    rw (size, none_left, replicate-more (4 * n) 0xFF (0 ∷ [])) (words_of-full n [])
