-- ===== src/Mkfs.antt =====
-- mkfs.c: the walk over the files of the host, which become inodes and blocks of the image. The
-- host's directories are a tree, with the entries in the order of `readdir` and without "." and
-- ".."; what fails on the host is left out. Block `i` is the one that `start_block + i` points to.
pub mod Chunks
pub mod Slots
pub mod Directory
pub mod Chain
pub mod Inode
pub mod Tree
pub mod File
pub mod Entries
pub mod Walk
pub mod Main
pub mod Paths
mod Examples
use aenix.Base.{
  ℕ, zero, suc, ◌+◌, ◌*◌, ◌/◌, ◌%◌, List, [], ◌∷◌, ◌++◌, Option, none, some, ◌==◌, if◌then◌else◌,
  length, take, drop, get_or, replicate,
}
use aenix.Math.{div_ceil}
use aenix.CString.{Str}
use aenix.Aefs.{
  AefsInode, AefsDirentry, Image, update, fill_inode_blocks, fill_inode_size, aefs_block_size,
  aefs_filename_max_len,
}

abbrev pub sizeof_direntry : ℕ
sizeof_direntry = 256

mutual
  pub data HostFile : Type 0 where
    reg : (bytes : List ℕ) → HostFile
    dir : HostEntries → HostFile

  pub data HostEntries : Type 0 where
    end : HostEntries
    entry : (name : Str) → HostFile → HostEntries → HostEntries

-- The static variables of mkfs.c.
pub record Fs : Type 0 where
  pub image : Image
  pub blocks : ℕ → List ℕ
  pub next_block_id : ℕ

-- An inode number for a new file.
abbrev pub take_inode : Fs → Fs
take_inode fs = record fs {
  image = record fs.image { next_inode_id = (fs.image.next_inode_id + 1) % 0x1_0000 };
}

abbrev pub take_blocks : Fs → ℕ → Fs
take_blocks fs n = record fs { next_block_id = (fs.next_block_id + n) % 0x1_0000 }

-- The type and the size of an inode, and its blocks.
unfoldable pub fill_inode : Image → (id type_ size blocks_required start : ℕ) → Image
fill_inode img id type_ size blocks_required start =
    let inode = fill_inode_size (record (img.inodes id) { type_ = type_ }) size in
    fill_inode_blocks (record img { inodes = update img.inodes id inode }) id
      (blocks_required % 0x1_0000) start

-- The loop over `fread`, which reads a block or what is left; `fuel` is not below the bytes.
unfoldable pub put_chunks : (fuel : ℕ) → (ℕ → List ℕ) → (id : ℕ) → List ℕ → ℕ → List ℕ
put_chunks zero blocks id bytes = blocks
put_chunks (suc fuel) blocks id [] = blocks
put_chunks (suc fuel) blocks id (b ∷ bytes) =
    let chunk = take aefs_block_size (b ∷ bytes) in
    put_chunks fuel (update blocks id (chunk ++ drop (length chunk) (blocks id))) (id + 1)
      (drop aefs_block_size (b ∷ bytes))

-- The id of the inode, and the state.
unfoldable pub visit_file : List ℕ → Fs → ℕ × Fs
visit_file bytes fs =
    let id = fs.image.next_inode_id in
    let start = fs.next_block_id in
    let n = div_ceil (length bytes) aefs_block_size % 0x1_0000 in
    let fs' = take_blocks (take_inode fs) n in
    (
      id,
      record fs' {
        image = fill_inode fs'.image id 0 (length bytes) n start;
        blocks = put_chunks (length bytes) fs.blocks start bytes;
      },
    )

-- `memset` of the blocks of a directory.
unfoldable pub clear_blocks : (left : ℕ) → (ℕ → List ℕ) → (id : ℕ) → ℕ → List ℕ
clear_blocks zero blocks id = blocks
clear_blocks (suc left) blocks id =
    clear_blocks left (update blocks id (replicate aefs_block_size 0)) (id + 1)

-- The bytes of an entry: `strncpy` fills the name up with zeros.
unfoldable pub entry_bytes : (name : Str) → (inode_id : ℕ) → List ℕ
entry_bytes name inode_id =
    take aefs_filename_max_len (name ++ replicate aefs_filename_max_len 0)
    ++ (inode_id % 0x100) ∷ (inode_id / 0x100) ∷ []

-- A write to entry `i` of the entries in a block.
unfoldable pub put_slot : (i : ℕ) → List ℕ → List ℕ → List ℕ
put_slot zero bytes block = bytes ++ drop sizeof_direntry block
put_slot (suc i) bytes block =
    take sizeof_direntry block ++ put_slot i bytes (drop sizeof_direntry block)

-- `entries[i]`, where the entries begin in block `start`.
unfoldable pub put_entry : (ℕ → List ℕ) → (start i : ℕ) → (name : Str) → (inode_id : ℕ) → ℕ → List ℕ
put_entry blocks start i name inode_id =
    update blocks (start + i / 4)
      (put_slot (i % 4) (entry_bytes name inode_id) (blocks (start + i / 4)))

abbrev pub num_files : HostEntries → ℕ
num_files end = 0
num_files (entry name t es) = suc (num_files es)

-- The number of blocks for the entries has 32 bits.
unfoldable pub dir_blocks : (num_files : ℕ) → ℕ
dir_blocks n = div_ceil (n * sizeof_direntry) aefs_block_size

-- What `visit_dir` does before it reads the entries, and after.
unfoldable pub begin_dir : (num_files : ℕ) → Fs → Fs
begin_dir n fs =
    let fs' = take_blocks (take_inode fs) (dir_blocks n) in
    record fs' { blocks = clear_blocks (dir_blocks n) fs.blocks fs.next_block_id }

unfoldable pub end_dir : (id start num_files : ℕ) → Fs → ℕ × Fs
end_dir id start n fs =
    (id, record fs { image = fill_inode fs.image id 1 (sizeof_direntry * n) (dir_blocks n) start })

abbrev pub and_then {ℓ κ} : {A : Type ℓ} {B : Type κ} → Option A → (A → Option B) → Option B
and_then none f = none
and_then (some a) f = f a

-- `none` is an exit for want of inodes.
module _ (num_inodes : ℕ) where
  unfoldable mutual
    pub visit : HostFile → Fs → Option (ℕ × Fs)
    visit (reg bytes) fs = some (visit_file bytes fs)
    visit (dir es) fs =
        let id = fs.image.next_inode_id in
        let start = fs.next_block_id in
        let n = num_files es in
        let rest =
          and_then (visit_entries es (begin_dir n fs) start 0)
            λ fs'. some (end_dir id start n fs') in
        if id == num_inodes then none else rest

    pub visit_entries : HostEntries → Fs → (start i : ℕ) → Option Fs
    visit_entries end fs start i = some fs
    visit_entries (entry name t es) fs start i = and_then (visit t fs) λ r.
        visit_entries es (record r.1 { blocks = put_entry r.1.blocks start i name r.0 }) start
          (i + 1)

-- What the kernel makes of the bytes in a block: four entries.
unfoldable pub until_nul : List ℕ → Str
until_nul [] = []
until_nul (b ∷ bs) = if b == 0 then [] else b ∷ until_nul bs

unfoldable pub direntry : List ℕ → AefsDirentry
direntry bytes = record {
  name = until_nul (take aefs_filename_max_len bytes);
  inode_id = get_or bytes 254 0 + 0x100 * get_or bytes 255 0;
}

unfoldable pub direntries : (left : ℕ) → List ℕ → List AefsDirentry
direntries zero bytes = []
direntries (suc left) bytes =
    direntry (take sizeof_direntry bytes) ∷ direntries left (drop sizeof_direntry bytes)

abbrev pub block_entries : List ℕ → List AefsDirentry
block_entries = direntries 4
