-- ===== src/Aefs/Init.antt =====
-- aefs.c: the set up of the file system, and the operations that do not read blocks. Addresses are
-- those of the mapped image; the superblock is what stands at its beginning.
use aenix.Base.{ℕ, ltb, ◌==◌, if◌then◌else◌, add32, mul32}
use aenix.Aefs.{AefsInode, aefs_inode_size, aefs_block_size}

abbrev pub aefs_magic_number : ℕ
aefs_magic_number = 0xAE12_AE34

abbrev pub sizeof_inode : ℕ
sizeof_inode = 16

abbrev pub root_inode_id : ℕ
root_inode_id = 1

pub record AefsSuperblock : Type 0 where
  pub magic_number : ℕ
  pub num_inodes : ℕ
  pub start_block : ℕ

-- The static variables of aefs.c.
pub record Aefs : Type 0 where
  pub fs_paddr : ℕ
  pub fs_size : ℕ
  pub fs_start : ℕ
  pub root_inode : ℕ

unfoldable pub get_inode : (fs_start inode_id : ℕ) → ℕ
get_inode fs_start inode_id = add32 (add32 fs_start aefs_block_size) (mul32 inode_id sizeof_inode)

unfoldable pub get_block : AefsSuperblock → (fs_start i : ℕ) → ℕ
get_block sb fs_start i = add32 fs_start (mul32 (add32 sb.start_block i) aefs_block_size)

-- `vaddr` and `mapped` are what paging returns; 0 is a failure.
unfoldable pub map_aefs_to_virtual_memory : (vaddr mapped size : ℕ) → ℕ
map_aefs_to_virtual_memory vaddr mapped size =
    if vaddr == 0 then 0 else if ltb mapped size then 0 else vaddr

-- The result, and the static variables.
unfoldable pub aefs_init : (vaddr mapped : ℕ) → AefsSuperblock → (paddr size : ℕ) → Aefs → ℕ × Aefs
aefs_init vaddr mapped sb paddr size s =
    let fs_vaddr = map_aefs_to_virtual_memory vaddr mapped size in
    let s' = record s { fs_paddr = paddr; fs_size = size } in
    let s'' = record s' { fs_start = fs_vaddr } in
    if fs_vaddr == 0
    then (1, s')
    else if sb.magic_number == aefs_magic_number
    then (0, record s'' { root_inode = get_inode fs_vaddr root_inode_id })
    else (1, s'')

-- `v_data` of the root.
unfoldable pub aefs_root : Aefs → ℕ
aefs_root s = s.root_inode

-- `file_size`
unfoldable pub aefs_getattr : AefsInode → ℕ
aefs_getattr inode = aefs_inode_size inode

-- -1 and 0
unfoldable pub aefs_write : ℕ
aefs_write = 0xFFFF_FFFF

unfoldable pub aefs_open : ℕ
aefs_open = 0
