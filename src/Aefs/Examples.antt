-- ===== src/Aefs/Examples.antt =====
-- Inodes and directories that the theorems on aefs.c and mkfs.c are applied to.
use aenix.Base.{ℕ, [], ◌∷◌, List}
use aenix.Aefs.{AefsInode, AefsDirentry, empty_inode, Image, fill_inode_size}

abbrev image : Image
image = record { inodes = λ i. empty_inode; next_inode_id = 3 }

-- A directory with "init" and "idle", by their first two letters.
abbrev directory : AefsInode
directory = fill_inode_size (record empty_inode { type_ = 1 }) 512

abbrev entries : ℕ → List AefsDirentry
entries b =
    record { name = 105 ∷ 110 ∷ []; inode_id = 7 }
    ∷ record { name = 105 ∷ 100 ∷ []; inode_id = 8 }
    ∷ []
