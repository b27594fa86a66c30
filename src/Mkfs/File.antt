-- ===== src/Mkfs/File.antt =====
-- mkfs.c and aefs.c: a file that mkfs has visited is one that the kernel reads.
use aenix.Base.{
  ℕ, zero, suc, ◌+◌, ◌%◌, ◌^◌, ◌≤◌, ◌<◌, ◌≡◌, refl, ap, ◌∙◌, sym, true, List, [], ◌∷◌, some, arith,
  length, take, if◌then◌else◌, inl, inr, le_cases,
}
use aenix.Math.{div_ceil, minu}
use aenix.Math.Laws.{div_ceil_lem}
use aenix.Aefs.{
  AefsInode, Image, aefs_inode_size, aefs_inode_is_reg, aefs_block_size, aefs_read, read_blocks,
  block_ids, is_tail,
}
use aenix.Aefs.Fill.{range}
use aenix.Mkfs.{reg, Fs, visit_file, put_chunks, fill_inode}
use aenix.Mkfs.Chunks.{read_blocks-put_chunks, put_chunks-others}
use aenix.Mkfs.Chain.{Head}
use aenix.Mkfs.Inode.{IsFilled, fill_inode-IsFilled}
use aenix.Mkfs.Tree.{Stores, weight, IsFit, HasVisited}

block_ids-take :
    (k n : ℕ) (inodes : ℕ → AefsInode) (current : AefsInode) (i : ℕ)
    → k ≤ n
    → block_ids k inodes current i ≡ take k (block_ids n inodes current i)
unfolding block_ids
block_ids-take zero n inodes current i le = refl
block_ids-take (suc k) zero inodes current i le = absurd (omega arith)
block_ids-take (suc k) (suc n) inodes current i le =
    let current' = if is_tail i then inodes current.inode_tail else current in
    ap (λ t. current'.blocks (i % 5) ∷ t) (block_ids-take k n inodes current' (i + 1) (omega arith))

take-range : (k n start : ℕ) → k ≤ n → take k (range start n) ≡ range start k
take-range zero n start le = refl
take-range (suc k) zero start le = absurd (omega arith)
take-range (suc k) (suc n) start le = ap (λ t. start ∷ t) (take-range k n (start + 1) (omega arith))

take_all : (n : ℕ) (xs : List ℕ) → length xs ≤ n → take n xs ≡ take (length xs) xs
take_all zero [] le = refl
take_all (suc n) [] le = refl
take_all zero (x ∷ xs) le = absurd (omega arith)
take_all (suc n) (x ∷ xs) le = ap (λ t. x ∷ t) (take_all n xs (omega arith))

-- Reading goes through the first blocks only, as many as the count needs.
module _ (g : ℕ → List ℕ) (inodes : ℕ → AefsInode) (inode : AefsInode) (blocks : ℕ → List ℕ)
    (start : ℕ) (bytes : List ℕ) (some_bytes : 0 < length bytes) (small : length bytes < 2 ^ 24)
    (ids : block_ids (div_ceil (length bytes) aefs_block_size) inodes inode 0
      ≡ range start (div_ceil (length bytes) aefs_block_size))
    (same : (b : ℕ)
      → start ≤ b
      → b < start + div_ceil (length bytes) aefs_block_size
      → g b ≡ put_chunks (length bytes) blocks start bytes b) where
  read_blocks-range :
      (m : ℕ)
      → 0 < m
      → m ≤ length bytes
      → read_blocks g (block_ids (div_ceil m aefs_block_size) inodes inode 0) m ≡ take m bytes
  read_blocks-range m pos le =
      let n = div_ceil (length bytes) aefs_block_size in
      let k = div_ceil m aefs_block_size in
      let bound_k = div_ceil_lem m aefs_block_size pos (omega arith) (omega arith) in
      let bound_n =
        div_ceil_lem (length bytes) aefs_block_size some_bytes (omega arith) (omega arith) in
      let fewer : k ≤ n = omega (arith, bound_k, bound_n) in
      ap (λ is. read_blocks g is m)
        (block_ids-take k n inodes inode 0 fewer ∙ ap (take k) ids ∙ take-range k n start fewer)
      ∙ read_blocks-put_chunks (length bytes) k blocks start bytes m g le (omega arith) bound_k.0
          (omega arith) (λ b from to. same b from (omega arith))

  aefs_read-range :
      inode.type_ ≡ 0
      → aefs_inode_size inode ≡ length bytes
      → (count : ℕ) → 0 < count
      → aefs_read g inodes inode count ≡ some (take count bytes)
  unfolding aefs_read
  aefs_read-range reg_ size count pos =
      let is_reg : aefs_inode_is_reg inode ≡ true = ground (arith, reg_) in
      elim (le_cases (length bytes) count) [
        | inl all ↦
            let m : minu count (length bytes) ≡ length bytes = unfold minu in ground arith in
            rw (is_reg, size, m)
              (ap some (
                read_blocks-range (length bytes) some_bytes (omega arith)
                ∙ sym (take_all count bytes all)))
        | inr part ↦
            let m : minu count (length bytes) ≡ count = unfold minu in ground arith in
            rw (is_reg, size, m) (ap some (read_blocks-range count pos (omega arith)))
      ]

-- Visiting a file leaves it in the image.
pub visit_file-HasVisited :
    (bytes : List ℕ) (fs : Fs)
    → IsFit (reg bytes)
    → fs.image.next_inode_id + weight (reg bytes) < 2 ^ 16
    → fs.next_block_id + weight (reg bytes) ≤ 2 ^ 16
    → ((visit_file bytes fs).0 ≡ fs.image.next_inode_id)
      × HasVisited fs
          (weight (reg bytes))
          (visit_file bytes fs).1
          (λ g. Stores g fs.image.next_inode_id (reg bytes))
unfolding visit_file weight IsFit Stores
visit_file-HasVisited bytes fs fit inodes_room blocks_room =
    let n = div_ceil (length bytes) aefs_block_size in
    let id = fs.image.next_inode_id in
    let start = fs.next_block_id in
    let img : Image = record fs.image { next_inode_id = id + 1 } in
    let f = fill_inode img id 0 (length bytes) n start in
    let fits : n % 0x1_0000 ≡ n = omega (arith, blocks_room) in
    let next : (id + 1) % 0x1_0000 ≡ id + 1 = omega (arith, inodes_room) in
    let behind : (start + n) % 0x1_0000 ≡ start + n = omega (arith, blocks_room) in
    let bound =
      div_ceil_lem (length bytes) aefs_block_size fit.0 (omega arith) (omega (arith, fit)) in
    let filled : IsFilled img id 0 (length bytes) n start f =
      fill_inode-IsFilled img id 0 (length bytes) n start (omega arith) (omega (arith, inodes_room))
        (omega (arith, blocks_room)) fit.1 in
    rw (fits, next, behind)
      (
        refl,
        record {
          inodes_up = omega (arith, filled.up);
          inodes_within = omega (arith, filled.within);
          blocks_up = omega arith;
          blocks_within = omega arith;
          same_inodes = λ a lt. filled.others a (omega arith) (omega (arith, lt));
          same_blocks =
              λ b lt. put_chunks-others (length bytes) n fs.blocks start bytes b bound.0 (inl lt);
          stores = λ g agrees.
              let here : g.image.inodes id ≡ f.inodes id =
                agrees.inodes id (omega arith) (omega (arith, filled.up)) in
              let size : aefs_inode_size (g.image.inodes id) ≡ length bytes =
                ap aefs_inode_size here ∙ ap (λ (h : Head). h.size) filled.head_of in
              let kind : (g.image.inodes id).type_ ≡ 0 =
                ap (λ (i : AefsInode). i.type_) here ∙ ap (λ (h : Head). h.type_) filled.head_of in
              (
                size,
                λ count pos lt.
                    aefs_read-range g.blocks g.image.inodes (g.image.inodes id) fs.blocks start
                      bytes fit.0 fit.1
                      (filled.readable g.image.inodes (λ a from to. agrees.inodes a from to))
                      (λ b from to. agrees.blocks b from to) kind size count pos,
              );
        },
      )
