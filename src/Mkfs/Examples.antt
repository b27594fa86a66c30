-- ===== src/Mkfs/Examples.antt =====
-- The theorems on mkfs.c at a small tree of files.
use aenix.Base.{map, ◌+◌, ◌*◌, ◌<◌, ◌≡◌, refl, [], ◌∷◌, List, Option, some, none, inl, arith}
use aenix.Math.{div_ceil}
use aenix.CString.{Str}
use aenix.Vfs.{Vnode, found, lookup_loop}
use aenix.Vfs.Walk.{join}
use aenix.Aefs.{AefsDirentry, aefs_read, aefs_inode_size, empty_inode}
use aenix.Aefs.Init.{AefsSuperblock, Aefs, root_inode_id}
use aenix.Mkfs.{block_entries, HostFile, reg, dir, HostEntries, end, entry, Fs, dir_blocks, visit}
use aenix.Mkfs.Tree.{Stores, IsFit, weight}
use aenix.Mkfs.Main.{
  ImageFile, block_at, seen, main, main-Stores, new_image, start_block_offset, inode_blocks,
  num_blocks,
}
use aenix.Mkfs.Paths.{AreDistinct, vn_lookup, lookup_loop-Stores}

-- "bin", "init" and "sh"
abbrev bin : Str
bin = 98 ∷ 105 ∷ 110 ∷ []

abbrev init : Str
init = 105 ∷ 110 ∷ 105 ∷ 116 ∷ []

abbrev sh : Str
sh = 115 ∷ 104 ∷ []

abbrev program : HostFile
program = reg (1 ∷ 2 ∷ 3 ∷ [])

abbrev root : HostEntries
root = entry bin (dir (entry init program (entry sh (reg (4 ∷ [])) end))) end

root-IsFit : IsFit (dir root)
unfolding IsFit
root-IsFit = omega arith

root_room : weight (dir root) + start_block_offset (num_blocks 1) < 1 * 1024
unfolding weight dir_blocks div_ceil start_block_offset inode_blocks num_blocks
root_room = omega arith

abbrev unmounted : Aefs
unmounted = record { fs_paddr = 0; fs_size = 0; fs_start = 0; root_inode = 0 }

abbrev image : Fs
image =
    seen
      ((main-Stores 1 root 0xC200_0000 1048576 0x40_0000 1048576 unmounted (omega arith)
        (omega arith) root-IsFit root_room (omega arith) (omega arith) (omega arith)).0)
      0xC200_0000

image-Stores : Stores image root_inode_id (dir root)
image-Stores =
    (main-Stores 1 root 0xC200_0000 1048576 0x40_0000 1048576 unmounted (omega arith) (omega arith)
      root-IsFit root_room (omega arith) (omega arith) (omega arith)).4

root-AreDistinct : AreDistinct (dir root)
unfolding AreDistinct
root-AreDistinct = omega arith

abbrev root_vnode : Vnode
root_vnode = record { v_op = 1; v_data = root_inode_id }

lookup_loop-Stores_example :
    (v' : Vnode) × (lookup_loop
        (vn_lookup image)
        (λ vfs. none)
        9
        (join (bin ∷ init ∷ []))
        root_vnode
      ≡ found v')
    × Stores image v'.v_data program
lookup_loop-Stores_example =
    lookup_loop-Stores image (λ vfs. none) 9 root_vnode (bin ∷ init ∷ []) (dir root) program
      image-Stores root-AreDistinct
      (
        dir (entry init program (entry sh (reg (4 ∷ [])) end)),
        inl (refl, refl),
        (program, inl (refl, refl), refl),
      )
      (refl, (refl, omega arith)) (omega arith) (omega arith)

-- The kernel's view of the root directory, and the bytes of "init".
names_of : Option ImageFile → List Str
names_of none = []
names_of (some img) = map (λ (e : AefsDirentry). e.name) (block_entries (block_at img 4096 0))

root_names : names_of (main 1 root) ≡ bin ∷ [] ∷ [] ∷ [] ∷ []
unfolding names_of block_at aenix.Aefs.Init.get_block main visit aenix.Mkfs.Main.num_inodes
    num_blocks inode_blocks div_ceil aenix.Mkfs.begin_dir aenix.Mkfs.direntries aenix.Mkfs.direntry
    aenix.Mkfs.until_nul aenix.Mkfs.end_dir aenix.Mkfs.put_entry aenix.Mkfs.put_slot
    aenix.Mkfs.entry_bytes dir_blocks aenix.Mkfs.visit_file aenix.Mkfs.put_chunks
    aenix.Mkfs.clear_blocks aenix.Aefs.fill_inode_blocks aenix.Aefs.fill_inode_size
    aenix.Aefs.fill_loop start_block_offset aenix.Mkfs.Main.write_superblock aenix.Mkfs.fill_inode
root_names = refl
