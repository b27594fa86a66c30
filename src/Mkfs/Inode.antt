-- ===== src/Mkfs/Inode.antt =====
-- mkfs.c and aefs.c: what filling an inode leaves.
use aenix.Base.{ℕ, ◌+◌, ◌%◌, ◌^◌, ◌≤◌, ◌<◌, ◌≡◌, ◌≢◌, ap, ◌∙◌, arith}
use aenix.Aefs.{AefsInode, Image, update, fill_inode_blocks, fill_inode_size, block_ids}
use aenix.Aefs.Fill.{
  fill_loop-Keeps, update_here, update_other, range, block_ids-fill_inode_blocks,
  aefs_inode_size-fill_inode_size,
}
use aenix.Mkfs.{fill_inode}
use aenix.Mkfs.Chain.{Head, head, fill_loop-next, head-fill_loop, block_ids-agree}

abbrev headed : ℕ → ℕ → Head
headed type_ size = record { type_ = type_; size = size }

-- The inode `id` has its type, size and blocks, other inodes are as before, and the kernel gets
-- the blocks also later, as long as the inodes from `id` on stay the same.
pub record IsFilled (img : Image) (id type_ size n start : ℕ) (f : Image) : Type 0 where
  pub up : img.next_inode_id ≤ f.next_inode_id
  pub within : f.next_inode_id ≤ img.next_inode_id + n
  pub head_of : head (f.inodes id) ≡ record { type_ = type_; size = size }
  pub others : (a : ℕ) → a < img.next_inode_id → a ≢ id → f.inodes a ≡ img.inodes a
  pub readable :
      (g : ℕ → AefsInode)
      → ((a : ℕ) → id ≤ a → a < f.next_inode_id → g a ≡ f.inodes a)
      → block_ids n g (g id) 0 ≡ range start n

pub fill_inode-IsFilled :
    (img : Image) (id type_ size n start : ℕ)
    → id < img.next_inode_id
    → img.next_inode_id + n < 2 ^ 16
    → start + n ≤ 2 ^ 16
    → size < 2 ^ 24
    → IsFilled img id type_ size n start (fill_inode img id type_ size n start)
unfolding fill_inode fill_inode_blocks fill_inode_size
fill_inode-IsFilled img id type_ size n start lt room ids small =
    let inode = fill_inode_size (record (img.inodes id) { type_ = type_ }) size in
    let img' : Image = record img { inodes = update img.inodes id inode } in
    let fits : n % 0x1_0000 ≡ n = omega arith in
    let bound = fill_loop-next n img' id 0 start room in
    let keeps = fill_loop-Keeps n img' id 0 start lt room in
    rw fits (record {
      up = bound.0;
      within = bound.1;
      head_of =
          head-fill_loop n img' id 0 start id room lt
          ∙ ap head (update_here img.inodes id inode)
          ∙ ap (λ k. headed type_ k)
              (aefs_inode_size-fill_inode_size (record (img.inodes id) { type_ = type_ }) size
                small);
      others = λ a lt' ne.
          keeps.others a lt' (omega (arith, ne))
          ∙ update_other img.inodes id inode a (omega (arith, ne));
      readable = λ g same.
          block_ids-agree n img' id 0 start g lt room same
          ∙ block_ids-fill_inode_blocks img' id n start lt room ids;
    })
