-- ===== src/Devfs.antt =====
-- devfs.c: the file system of the devices. `devices` is the list that the first device leads to,
-- and `none` an error (-1). What `kmalloc` returns is an argument.
pub mod Devices
mod Examples
use aenix.Base.{
  ℕ, Bool, true, false, not, ◌&&◌, List, [], ◌∷◌, ◌++◌, Option, none, some, ◌==◌, if◌then◌else◌,
}
use aenix.CString.{Str, strlen, strcmp}
use aenix.Vfs.{Vnode, is_equal}

pub record DevfsInode : Type 0 where
  pub name : Str
  pub node : Vnode

unfoldable pub lookup_loop : List DevfsInode → Str → Option Vnode
lookup_loop [] name = none
lookup_loop (i ∷ is) name =
    let rest = lookup_loop is name in if is_equal (strcmp i.name name) then some i.node else rest

unfoldable pub devfs_lookup : List DevfsInode → Option Str → Option Vnode
devfs_lookup devices none = none
devfs_lookup devices (some name) = lookup_loop devices name

-- Whether a device has the name already.
unfoldable pub has_name : List DevfsInode → Str → Bool
has_name [] path = false
has_name (i ∷ is) path =
    let rest = has_name is path in if is_equal (strcmp i.name path) then true else rest

-- `devices->next = inode`
abbrev pub link : List DevfsInode → DevfsInode → List DevfsInode
link [] inode = inode ∷ []
link (i ∷ is) inode = i ∷ inode ∷ []

unfoldable pub add : (copy inode : Bool) → List DevfsInode → Str → Vnode → Option (List DevfsInode)
add copy inode devices path node =
    if strlen path == 0
    then none
    else if has_name devices path
    then none
    else if not copy
    then none
    else if not inode
    then none
    else some (link devices (record { name = path; node = node }))

-- `copy` and `inode` tell whether the two calls of `kmalloc` succeed.
unfoldable pub devfs_add_device :
    (copy inode : Bool) → List DevfsInode → Option Str → Vnode → Option (List DevfsInode)
devfs_add_device copy inode devices none node = none
devfs_add_device copy inode devices (some path) node = add copy inode devices path node

-- A vnode's read, write and open always fail, and the size is 0.
abbrev pub devfs_open : Vnode → Option ℕ
devfs_open n = none

abbrev pub devfs_read : Vnode → (count : ℕ) → Option ℕ
devfs_read n count = none

abbrev pub devfs_write : Vnode → Str → (l : ℕ) → Option ℕ
devfs_write n s l = none

abbrev pub devfs_getattr : Vnode → Option ℕ
devfs_getattr n = some 0
