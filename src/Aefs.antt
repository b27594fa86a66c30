-- ===== src/Aefs.antt =====
-- aefs.c and mkfs.c: the inodes of the file system, how mkfs fills them, and how the kernel reads a
-- file. `inodes` gives the inode at each number. A block is its bytes.
pub mod Fill
pub mod Lookup
pub mod Init
mod Examples
use aenix.Base.{
  ℕ, zero, suc, ◌+◌, ◌-◌, ◌*◌, ◌/◌, ◌%◌, Bool, true, false, not, ◌&&◌, List, [], ◌∷◌, ◌++◌, Option,
  none, some, ◌==◌, if◌then◌else◌, add32, sub32, take,
}
use aenix.Math.{div_ceil, minu}
use aenix.CString.{Str, strncmp}
use aenix.Vfs.{is_equal}

abbrev pub aefs_block_size : ℕ
aefs_block_size = 1024

abbrev pub aefs_inode_num_blocks : ℕ
aefs_inode_num_blocks = 5

pub record AefsInode : Type 0 where
  pub type_ : ℕ
  pub size_high : ℕ
  pub size_low : ℕ
  pub blocks : ℕ → ℕ
  pub inode_tail : ℕ

abbrev pub aefs_inode_size : AefsInode → ℕ
aefs_inode_size inode = inode.size_high * 0x1_0000 + inode.size_low

abbrev pub aefs_inode_is_reg : AefsInode → Bool
aefs_inode_is_reg inode = inode.type_ == 0

abbrev pub empty_inode : AefsInode
empty_inode = record { type_ = 0; size_high = 0; size_low = 0; blocks = λ i. 0; inode_tail = 0 }

-- mkfs's `start_inode` and `next_inode_id`.
pub record Image : Type 0 where
  pub inodes : ℕ → AefsInode
  pub next_inode_id : ℕ

abbrev pub update {ℓ} : {A : Type ℓ} → (ℕ → A) → ℕ → A → ℕ → A
update f i v j = if j == i then v else f j

-- Whether round `i` goes on with another inode.
abbrev pub is_tail : ℕ → Bool
is_tail i = (i % aefs_inode_num_blocks == 0) && not (i == 0)

abbrev pub with_tail : Image → ℕ → Image
with_tail img list = record {
  inodes =
      update (update img.inodes list (record (img.inodes list) { inode_tail = img.next_inode_id }))
        img.next_inode_id empty_inode;
  next_inode_id = (img.next_inode_id + 1) % 0x1_0000;
}

abbrev pub put_block : Image → (list j id : ℕ) → Image
put_block img list j id = record img {
  inodes =
      update img.inodes list
        (record (img.inodes list) { blocks = update (img.inodes list).blocks j id });
}

-- `left` blocks are still to be entered; `list` is the inode that they go to.
unfoldable pub fill_loop : (left : ℕ) → Image → (list i start_block_id : ℕ) → Image
fill_loop zero img list i start = img
fill_loop (suc left) img list i start =
    let list' = if is_tail i then img.next_inode_id else list in
    let img' = if is_tail i then with_tail img list else img in
    fill_loop left (put_block img' list' (i % aefs_inode_num_blocks) ((start + i) % 0x1_0000)) list'
      (i + 1) start

unfoldable pub fill_inode_blocks : Image → (inode blocks_required start_block_id : ℕ) → Image
fill_inode_blocks img inode blocks_required start = fill_loop blocks_required img inode 0 start

unfoldable pub fill_inode_size : AefsInode → ℕ → AefsInode
fill_inode_size inode size = record inode {
  size_low = size % 0x1_0000;
  size_high = size / 0x1_0000 % 0x100;
}

-- The numbers of the blocks that the loops of `aefs_read` and `aefs_lookup` get, one after the other.
unfoldable pub block_ids : (left : ℕ) → (ℕ → AefsInode) → (current : AefsInode) → (i : ℕ) → List ℕ
block_ids zero inodes current i = []
block_ids (suc left) inodes current i =
    let current' = if is_tail i then inodes current.inode_tail else current in
    current'.blocks (i % aefs_inode_num_blocks) ∷ block_ids left inodes current' (i + 1)

-- The bytes of the blocks, up to the size.
unfoldable pub read_blocks : (ℕ → List ℕ) → List ℕ → (size : ℕ) → List ℕ
read_blocks get_block [] size = []
read_blocks get_block (b ∷ bs) size =
    let to_read = minu size aefs_block_size in
    take to_read (get_block b) ++ read_blocks get_block bs (sub32 size to_read)

-- What `aefs_read` copies to the buffer, or `none` for -1.
unfoldable pub aefs_read :
    (ℕ → List ℕ) → (ℕ → AefsInode) → AefsInode → (count : ℕ) → Option (List ℕ)
aefs_read get_block inodes inode count =
    let size = minu count (aefs_inode_size inode) in
    if not (aefs_inode_is_reg inode)
    then none
    else some
        (read_blocks get_block (block_ids (div_ceil size aefs_block_size) inodes inode 0) size)

pub record AefsDirentry : Type 0 where
  pub name : Str
  pub inode_id : ℕ

abbrev pub aefs_inode_is_dir : AefsInode → Bool
aefs_inode_is_dir inode = inode.type_ == 1

abbrev pub aefs_filename_max_len : ℕ
aefs_filename_max_len = 254

-- The inode of the first entry whose name `strncmp` takes for the same.
unfoldable pub find_entry : List AefsDirentry → (name : Str) → Option ℕ
find_entry [] name = none
find_entry (e ∷ es) name =
    let rest = find_entry es name in
    if is_equal (strncmp e.name name aefs_filename_max_len) then some e.inode_id else rest

abbrev pub or_else : Option ℕ → Option ℕ → Option ℕ
or_else none o = o
or_else (some x) o = some x

-- `entries` are the entries in a block.
unfoldable pub find_in_blocks : (entries : ℕ → List AefsDirentry) → List ℕ → (name : Str) → Option ℕ
find_in_blocks entries [] name = none
find_in_blocks entries (b ∷ bs) name =
    or_else (find_entry (entries b) name) (find_in_blocks entries bs name)

unfoldable pub aefs_lookup :
    (ℕ → List AefsDirentry) → (ℕ → AefsInode) → AefsInode → (name : Str) → Option ℕ
aefs_lookup entries inodes inode name =
    if not (aefs_inode_is_dir inode)
    then none
    else find_in_blocks entries
        (block_ids (div_ceil (aefs_inode_size inode) aefs_block_size) inodes inode 0) name
