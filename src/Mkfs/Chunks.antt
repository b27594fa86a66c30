-- ===== src/Mkfs/Chunks.antt =====
-- mkfs.c and aefs.c: the bytes that are put into blocks are those that the kernel reads.
use aenix.Base.{
  u32, true, false, ℕ, zero, suc, ◌+◌, ◌-◌, ◌*◌, ◌≤◌, ◌<◌, ◌≡◌, ◌⊎◌, refl, ap, ap₂, ◌∙◌, List, [],
  ◌∷◌, ◌++◌, arith, length, take, drop, ◌==◌, inl, inr, le_cases, sub32, length-take,
  take-append_le,
}
use mathlib.Core.List.{append-nil}
use aenix.Math.{minu}
use aenix.Aefs.{read_blocks, aefs_block_size}
use aenix.Aefs.Fill.{range}
use aenix.Mkfs.{put_chunks}

pub length-drop : (n : ℕ) (xs : List ℕ) → length (drop n xs) ≡ length xs - n
length-drop zero xs = omega arith
length-drop (suc n) [] = omega arith
length-drop (suc n) (x ∷ xs) = omega (arith, length-drop n xs)

pub take-take : (m n : ℕ) (xs : List ℕ) → m ≤ n → take m (take n xs) ≡ take m xs
take-take zero n xs le = refl
take-take (suc m) zero xs le = absurd (omega arith)
take-take (suc m) (suc n) [] le = refl
take-take (suc m) (suc n) (x ∷ xs) le = ap (λ t. x ∷ t) (take-take m n xs (omega arith))

pub take-add : (m n : ℕ) (xs : List ℕ) → take m xs ++ take n (drop m xs) ≡ take (m + n) xs
take-add zero n xs = ap (λ k. take k xs) (omega arith)
take-add (suc m) zero [] = let e : suc m + 0 ≡ suc m = omega arith in rw e refl
take-add (suc m) (suc n) [] = let e : suc m + suc n ≡ suc (m + suc n) = omega arith in rw e refl
take-add (suc m) n (x ∷ xs) =
    let e : suc m + n ≡ suc (m + n) = omega arith in rw e (ap (λ t. x ∷ t) (take-add m n xs))

take-zero : (xs : List ℕ) (n : ℕ) → n ≡ 0 → take n xs ≡ []
take-zero xs n e = rw e refl

-- The rounds of `fread` change the blocks from `id` on that the bytes need, and no others.
pub put_chunks-others :
    (fuel n : ℕ) (blocks : ℕ → List ℕ) (id : ℕ) (bytes : List ℕ) (b : ℕ)
    → length bytes ≤ n * aefs_block_size
    → (b < id) ⊎ (id + n ≤ b)
    → put_chunks fuel blocks id bytes b ≡ blocks b
unfolding put_chunks
put_chunks-others zero n blocks id bytes b le out = refl
put_chunks-others (suc fuel) n blocks id [] b le out = refl
put_chunks-others (suc fuel) zero blocks id (x ∷ bytes) b le out = absurd (omega arith)
put_chunks-others (suc fuel) (suc n) blocks id (x ∷ bytes) b le out =
    let other : (b == id) ≡ false = ground (arith, out) in
    put_chunks-others fuel n _ (id + 1) (drop aefs_block_size (x ∷ bytes)) b
      (omega (arith, length-drop aefs_block_size (x ∷ bytes))) (ground (arith, out))
    ∙ rw other refl

-- One block of `read_blocks`, read in part or as a whole.
read_blocks-nothing : (get_block : ℕ → List ℕ) (ids : List ℕ) → read_blocks get_block ids 0 ≡ []
unfolding read_blocks minu
read_blocks-nothing get_block [] = refl
read_blocks-nothing get_block (b ∷ bs) = read_blocks-nothing get_block bs

read_blocks-whole :
    (get_block : ℕ → List ℕ) (b : ℕ) (bs : List ℕ) (size : ℕ)
    → aefs_block_size ≤ size
    → size < u32
    → read_blocks get_block (b ∷ bs) size
      ≡ take aefs_block_size (get_block b) ++ read_blocks get_block bs (size - aefs_block_size)
unfolding read_blocks
read_blocks-whole get_block b bs size le lt =
    let m : minu size aefs_block_size ≡ aefs_block_size = unfold minu in ground arith in
    let less : sub32 size aefs_block_size ≡ size - aefs_block_size = omega arith in
    rw m (rw less refl)

read_blocks-part :
    (get_block : ℕ → List ℕ) (b : ℕ) (bs : List ℕ) (size : ℕ)
    → size < aefs_block_size
    → read_blocks get_block (b ∷ bs) size ≡ take size (get_block b)
unfolding read_blocks
read_blocks-part get_block b bs size lt =
    let m : minu size aefs_block_size ≡ size = unfold minu in ground arith in
    let none_left : sub32 size size ≡ 0 = omega arith in
    rw (m, none_left, read_blocks-nothing get_block bs) (append-nil (take size (get_block b)))

-- The first block that the rounds fill begins with the bytes.
first_block :
    (fuel : ℕ) (blocks : ℕ → List ℕ) (id x : ℕ) (bytes : List ℕ) (k : ℕ)
    → k ≤ aefs_block_size
    → k ≤ length (x ∷ bytes)
    → take k (put_chunks (suc fuel) blocks id (x ∷ bytes) id) ≡ take k (x ∷ bytes)
unfolding put_chunks
first_block fuel blocks id x bytes k le le' =
    let all = x ∷ bytes in
    let chunk = take aefs_block_size all in
    let rest = drop aefs_block_size all in
    let here : (id == id) ≡ true = ground arith in
    ap (take k)
      (put_chunks-others fuel (length rest) _ (id + 1) rest id (omega arith) (inl (omega arith)))
    ∙ rw here (
        take-append_le k chunk (drop (length chunk) (blocks id))
          (omega (arith, length-take aefs_block_size all))
        ∙ take-take k aefs_block_size all le)

-- Reading the blocks gives the bytes back, also in a memory that is the same at these blocks only.
pub read_blocks-put_chunks :
    (fuel n : ℕ) (blocks : ℕ → List ℕ) (id : ℕ) (bytes : List ℕ) (size : ℕ) (g : ℕ → List ℕ)
    → size ≤ length bytes
    → length bytes ≤ fuel
    → size ≤ n * aefs_block_size
    → size < u32
    → ((b : ℕ) → id ≤ b → b < id + n → g b ≡ put_chunks fuel blocks id bytes b)
    → read_blocks g (range id n) size ≡ take size bytes
unfolding put_chunks
read_blocks-put_chunks fuel zero blocks id bytes size g le fits room small same =
    let none_left : size ≡ 0 = omega arith in rw none_left (read_blocks-nothing g [])
read_blocks-put_chunks fuel (suc n) blocks id [] size g le fits room small same =
    let none_left : size ≡ 0 = omega arith in
    rw none_left (read_blocks-nothing g (range id (suc n)))
read_blocks-put_chunks zero (suc n) blocks id (x ∷ bytes) size g le fits room small same =
    absurd (omega arith)
read_blocks-put_chunks (suc fuel) (suc n) blocks id (x ∷ bytes) size g le fits room small same =
    let all = x ∷ bytes in
    let first = same id (omega arith) (omega arith) in
    elim (le_cases aefs_block_size size) [
      | inl whole ↦
          read_blocks-whole g id (range (id + 1) n) size whole small
          ∙ ap₂ (λ a b. a ++ b)
              (ap (take aefs_block_size) first
                ∙ first_block fuel blocks id x bytes aefs_block_size (omega arith) (omega arith))
              (read_blocks-put_chunks fuel n _ (id + 1) (drop aefs_block_size all)
                (size - aefs_block_size) g (omega (arith, length-drop aefs_block_size all))
                (omega (arith, length-drop aefs_block_size all)) (omega arith) (omega arith)
                (λ b from to. same b (omega arith) (omega arith)))
          ∙ take-add aefs_block_size (size - aefs_block_size) all
          ∙ ap (λ k. take k all) (omega arith)
      | inr part ↦
          read_blocks-part g id (range (id + 1) n) size part
          ∙ ap (take size) first
          ∙ first_block fuel blocks id x bytes size (omega arith) le
    ]
