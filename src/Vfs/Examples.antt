-- ===== src/Vfs/Examples.antt =====
-- Paths and mounted file systems that the theorems on vfs.c are applied to.
use aenix.Base.{◌+◌, ◌≡◌, refl, List, [], ◌∷◌, ◌++◌, Option, none, some, arith}
use aenix.CString.{Str, strlen, strlen_loop, strcmp}
use aenix.Vfs.{
  Vnode, Mounted, found, slash, vfs_mount, mount_loop, common_prefix, longest_loop,
  find_longest_mount_path, lookup_loop,
}
use aenix.Vfs.Walk.{lookup_loop-walk}

-- "/", "/dev/" and "/dog"
abbrev root : Str
root = 47 ∷ []

abbrev dev : Str
dev = 47 ∷ 100 ∷ 101 ∷ 118 ∷ 47 ∷ []

abbrev dog : Str
dog = 47 ∷ 100 ∷ 111 ∷ 103 ∷ []

abbrev mounted : List Mounted
mounted = record { mount_path = root; vfs = 1 } ∷ record { mount_path = dev; vfs = 2 } ∷ []

-- A path is led to a file system that it does not lie in.
leads_to_dev :
    (find_longest_mount_path dog mounted).root ≡ some (record { mount_path = dev; vfs = 2 })
unfolding find_longest_mount_path longest_loop common_prefix
leads_to_dev = refl

-- The path of the last file system can be mounted once more.
mounts_twice : vfs_mount dev 3 mounted ≡ some (mounted ++ record { mount_path = dev; vfs = 3 } ∷ [])
unfolding vfs_mount mount_loop strcmp strlen strlen_loop
mounts_twice = refl

-- A file's number is its directory's and the first byte of its name.
abbrev by_first : Vnode → Str → Option Vnode
by_first v [] = none
by_first v (c ∷ n) = some (record { v_op = v.v_op; v_data = v.v_data + c })

lookup_loop-walk_example :
    lookup_loop by_first
      (λ vfs. none)
      7
      (100 ∷ 111 ∷ slash ∷ 98 ∷ [])
      (record { v_op = 1; v_data = 0 })
    ≡ found (record { v_op = 1; v_data = 198 })
lookup_loop-walk_example =
    lookup_loop-walk by_first (λ vfs. none) 7 ((100 ∷ 111 ∷ []) ∷ (98 ∷ []) ∷ [])
      (record { v_op = 1; v_data = 0 }) (refl, (refl, omega arith)) (omega arith) (omega arith)
