-- ===== src/Mkfs/Main.antt =====
-- mkfs.c: the whole image, with its superblock. A new output file is made of zeros.
use aenix.Base.{
  List, sub32, add32, mul32, ◌∙◌, ℕ, ◌+◌, ◌-◌, ◌*◌, ◌/◌, ◌%◌, ◌^◌, ◌≤◌, ◌<◌, ◌≡◌, refl, ap, false,
  Option, some, none, arith, replicate, ◌==◌, ltb,
}
use aenix.Math.{div_ceil}
use aenix.Aefs.{AefsInode, empty_inode, aefs_block_size}
use aenix.Aefs.Init.{
  AefsSuperblock, Aefs, aefs_magic_number, sizeof_inode, root_inode_id, get_inode, get_block,
  aefs_init, map_aefs_to_virtual_memory,
}
use aenix.Mkfs.{HostEntries, dir, Fs, visit}
use aenix.Mkfs.Tree.{Stores, weight, IsFit}
use aenix.Mkfs.Walk.{visit_tree}

-- The counts in `main`; `uint16_t` keeps 16 bits of each.
unfoldable pub num_blocks : (megabytes : ℕ) → ℕ
num_blocks megabytes = megabytes * 2 ^ 20 / aefs_block_size % 0x1_0000

unfoldable pub inode_blocks : (blocks : ℕ) → ℕ
inode_blocks blocks = div_ceil (blocks * sizeof_inode) aefs_block_size % 0x1_0000

unfoldable pub num_inodes : (blocks : ℕ) → ℕ
num_inodes blocks = (blocks + 0x2_0000 - inode_blocks blocks - 1) % 0x1_0000

unfoldable pub start_block_offset : (blocks : ℕ) → ℕ
start_block_offset blocks = (1 + inode_blocks blocks) % 0x1_0000

unfoldable pub write_superblock : (num_inodes start_block_offset : ℕ) → AefsSuperblock
write_superblock num_inodes start_block_offset = record {
  magic_number = aefs_magic_number;
  num_inodes = num_inodes;
  start_block = start_block_offset;
}

abbrev pub new_image : Fs
new_image = record {
  image = record { inodes = λ a. empty_inode; next_inode_id = 1 };
  blocks = λ b. replicate aefs_block_size 0;
  next_block_id = 0;
}

-- The output file. Its blocks are numbered from its beginning: those from `start_block_offset` on are
-- the ones that `start_block` points to.
pub record ImageFile : Type 0 where
  pub superblock : AefsSuperblock
  pub inodes : ℕ → AefsInode
  pub blocks : ℕ → List ℕ

-- `none` is an exit with an error.
with_superblock : AefsSuperblock → (offset : ℕ) → Option (ℕ × Fs) → Option ImageFile
with_superblock sb offset none = none
with_superblock sb offset (some (id, fs)) =
    some
      (record { superblock = sb; inodes = fs.image.inodes; blocks = λ b. fs.blocks (b - offset) })

-- `root` has the entries of the root directory.
unfoldable pub main : (megabytes : ℕ) → (root : HostEntries) → Option ImageFile
unfolding with_superblock
main megabytes root =
    let blocks = num_blocks megabytes in
    let offset = start_block_offset blocks in
    with_superblock (write_superblock (num_inodes blocks) offset) offset
      (visit (num_inodes blocks) (dir root) new_image)

-- The block and the inode at the addresses that the kernel reads, where the file is mapped at
-- `fs_start`.
unfoldable pub block_at : ImageFile → (fs_start i : ℕ) → List ℕ
block_at img fs_start i =
    img.blocks (sub32 (get_block img.superblock fs_start i) fs_start / aefs_block_size)

unfoldable pub inode_at : ImageFile → (fs_start inode_id : ℕ) → AefsInode
inode_at img fs_start inode_id =
    img.inodes (sub32 (get_inode fs_start inode_id) (add32 fs_start aefs_block_size) / sizeof_inode)

-- The file system as the kernel sees it, which takes no inodes or blocks.
unfoldable pub seen : ImageFile → (fs_start : ℕ) → Fs
seen img fs_start = record {
  image = record { inodes = inode_at img fs_start; next_inode_id = 0 };
  blocks = block_at img fs_start;
  next_block_id = 0;
}

get_block_lem :
    (sb : AefsSuperblock) (fs_start i : ℕ)
    → fs_start < 2 ^ 32
    → sb.start_block < 2 ^ 16
    → i < 2 ^ 16
    → sub32 (get_block sb fs_start i) fs_start / 1024 ≡ sb.start_block + i
unfolding get_block
get_block_lem sb fs_start i small few lt =
    let index : add32 sb.start_block i ≡ sb.start_block + i = omega arith in
    let bytes : mul32 (sb.start_block + i) 1024 ≡ (sb.start_block + i) * 1024 = omega arith in
    rw (index, bytes) (omega arith)

get_inode_lem :
    (fs_start id : ℕ)
    → fs_start < 2 ^ 32
    → id < 2 ^ 16
    → sub32 (get_inode fs_start id) (add32 fs_start 1024) / 16 ≡ id
unfolding get_inode
get_inode_lem fs_start id small lt =
    let bytes : mul32 id 16 ≡ id * 16 = omega arith in rw bytes (omega arith)

all_blocks :
    (megabytes : ℕ)
    → 0 < megabytes
    → megabytes < 64
    → (num_inodes (num_blocks megabytes) + start_block_offset (num_blocks megabytes)
        ≡ megabytes * 1024)
      × (num_inodes (num_blocks megabytes) < 2 ^ 16)
unfolding num_blocks inode_blocks num_inodes start_block_offset div_ceil
all_blocks megabytes pos few = omega arith

pub main-Stores :
    (megabytes : ℕ) (root : HostEntries) (vaddr mapped paddr size : ℕ) (s : Aefs)
    → 0 < megabytes
    → megabytes < 64
    → IsFit (dir root)
    → weight (dir root) + start_block_offset (num_blocks megabytes) < megabytes * 1024
    → 0 < vaddr
    → vaddr < 2 ^ 32
    → size ≤ mapped
    → (img : ImageFile) × (main megabytes root ≡ some img)
      × ((aefs_init vaddr mapped img.superblock paddr size s).0 ≡ 0)
      × ((aefs_init vaddr mapped img.superblock paddr size s).1.root_inode
          ≡ get_inode vaddr root_inode_id)
      × Stores (seen img vaddr) root_inode_id (dir root)
unfolding main aefs_init map_aefs_to_virtual_memory write_superblock seen block_at inode_at
main-Stores megabytes root vaddr mapped paddr size s pos few fit room there low whole =
    let blocks = num_blocks megabytes in
    let counts = all_blocks megabytes pos few in
    let visited =
      visit_tree (num_inodes blocks) counts.1 (dir root) new_image fit (omega (arith, room, counts))
        (omega (arith, room, counts)) in
    let fs = visited.0 in
    let offset = start_block_offset blocks in
    let sb = write_superblock (num_inodes blocks) offset in
    let vaddr_given : (vaddr == 0) ≡ false = ground (arith, there) in
    let mapped_all : ltb mapped size ≡ false = ground (arith, whole) in
    let mapped_vaddr : map_aefs_to_virtual_memory vaddr mapped size ≡ vaddr =
      rw (vaddr_given, mapped_all) refl in
    (
      _,
      ap (with_superblock sb offset) visited.1,
      rw (mapped_vaddr, vaddr_given) refl,
      rw (mapped_vaddr, vaddr_given) refl,
      visited.2.stores _ (record {
        inodes = λ a from to.
            ap fs.image.inodes
              (get_inode_lem vaddr a low (omega (arith, to, visited.2.inodes_within, room)));
        blocks = λ b from to. ap fs.blocks (
            ap (λ n. n - offset)
              (get_block_lem sb vaddr b low (omega (arith, room, few))
                (omega (arith, to, visited.2.blocks_within, room, few)))
            ∙ omega arith);
      }),
    )
