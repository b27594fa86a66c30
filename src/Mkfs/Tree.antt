-- ===== src/Mkfs/Tree.antt =====
-- mkfs.c and aefs.c: that an image holds a tree of files, as the kernel reads it.
use aenix.Base.{
  ℕ, suc, ◌+◌, ◌*◌, ◌^◌, ◌≤◌, ◌<◌, ◌≡◌, true, List, [], ◌∷◌, ◌++◌, some, length, take, u32,
}
use aenix.Math.{div_ceil}
use aenix.Aefs.{
  AefsDirentry, aefs_inode_size, aefs_inode_is_dir, aefs_block_size, aefs_read, block_ids,
}
use aenix.Mkfs.{
  HostFile, reg, dir, HostEntries, end, entry, Fs, num_files, dir_blocks, sizeof_direntry,
}
use aenix.Mkfs.Slots.{IsName}
use aenix.Mkfs.Directory.{entries_in}

-- The blocks that the kernel gets for an inode.
abbrev pub ids_of : Fs → ℕ → List ℕ
ids_of fs id =
    let inode = fs.image.inodes id in
    block_ids (div_ceil (aefs_inode_size inode) aefs_block_size) fs.image.inodes inode 0

-- Inode `id` is a file of which the kernel reads the bytes, up to any count, or a directory of
-- which it reads the names, in order and each with the inode of what stands there on the host,
-- before entries that are left over.
unfoldable mutual
  pub Stores : Fs → (id : ℕ) → HostFile → Type 0
  Stores fs id (reg bytes) =
      (aefs_inode_size (fs.image.inodes id) ≡ length bytes)
      × ((count : ℕ)
          → 0 < count
          → count < u32
          → aefs_read fs.blocks fs.image.inodes (fs.image.inodes id) count
            ≡ some (take count bytes))
  Stores fs id (dir es) =
      (listing : List AefsDirentry) × (rest : List AefsDirentry) × (aefs_inode_is_dir
          (fs.image.inodes id)
        ≡ true)
      × (aefs_inode_size (fs.image.inodes id) ≡ sizeof_direntry * length listing)
      × (entries_in fs.blocks (ids_of fs id) ≡ listing ++ rest)
      × StoresAll fs listing es

  pub StoresAll : Fs → List AefsDirentry → HostEntries → Type 0
  StoresAll fs [] end = Unit {0}
  StoresAll fs (e ∷ listing) (entry name t es) =
      (e.name ≡ name) × Stores fs e.inode_id t × StoresAll fs listing es
  StoresAll fs [] (entry name t es) = ⊥
  StoresAll fs (e ∷ listing) end = ⊥

-- What the host may have: files from one byte on and below 16 MB, and directories with an entry at
-- least, whose names fit.
unfoldable mutual
  pub IsFit : HostFile → Type 0
  IsFit (reg bytes) = (0 < length bytes) × (length bytes < 2 ^ 24)
  IsFit (dir es) = (0 < num_files es) × (num_files es * sizeof_direntry < 2 ^ 24) × AreFit es

  pub AreFit : HostEntries → Type 0
  AreFit end = Unit {0}
  AreFit (entry name t es) = IsName name × IsFit t × AreFit es

-- A bound on the inodes, and on the blocks, that the files need.
unfoldable mutual
  pub weight : HostFile → ℕ
  weight (reg bytes) = suc (div_ceil (length bytes) aefs_block_size)
  weight (dir es) = suc (dir_blocks (num_files es) + weight_all es)

  pub weight_all : HostEntries → ℕ
  weight_all end = 0
  weight_all (entry name t es) = weight t + weight_all es

-- The inodes and blocks that are new in `f` since `fs` are the same in `g`.
pub record AgreesFrom (fs f g : Fs) : Type 0 where
  pub inodes :
      (a : ℕ)
      → fs.image.next_inode_id ≤ a
      → a < f.image.next_inode_id
      → g.image.inodes a ≡ f.image.inodes a
  pub blocks : (b : ℕ) → fs.next_block_id ≤ b → b < f.next_block_id → g.blocks b ≡ f.blocks b

-- What a visit leaves: new inodes and blocks only, within the weight `w`, and a file that is
-- stored for as long as these stay the same.
pub record HasVisited (fs : Fs) (w : ℕ) (f : Fs) (P : Fs → Type 0) : Type 0 where
  pub inodes_up : fs.image.next_inode_id ≤ f.image.next_inode_id
  pub inodes_within : f.image.next_inode_id ≤ fs.image.next_inode_id + w
  pub blocks_up : fs.next_block_id ≤ f.next_block_id
  pub blocks_within : f.next_block_id ≤ fs.next_block_id + w
  pub same_inodes : (a : ℕ) → a < fs.image.next_inode_id → f.image.inodes a ≡ fs.image.inodes a
  pub same_blocks : (b : ℕ) → b < fs.next_block_id → f.blocks b ≡ fs.blocks b
  pub stores : (g : Fs) → AgreesFrom fs f g → P g
