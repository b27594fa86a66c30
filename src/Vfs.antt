-- ===== src/Vfs.antt =====
-- vfs.c: the mounted file systems, and the lookup of a path along them. A vnode is its table of
-- operations and its data; what the operations of the file systems do is a parameter. `kmalloc`
-- returns memory here.
pub mod Calls
pub mod Mount
pub mod Walk
mod Examples
use aenix.Base.{
  ℕ, zero, suc, ◌+◌, Bool, true, false, not, ◌&&◌, List, [], ◌∷◌, ◌++◌, Option, none, some, ltb,
  leb, ◌==◌, if◌then◌else◌, add32, take, drop,
}
use aenix.CString.{Str, peek, next, Cmp, less, equal, greater, strlen, strcmp, strcspn}

pub record Vnode : Type 0 where
  pub v_op : ℕ
  pub v_data : ℕ

-- The elements of `vfs_list`; `vfs` stands for the structure that is mounted.
pub record Mounted : Type 0 where
  pub mount_path : Str
  pub vfs : ℕ

abbrev pub is_equal : Cmp → Bool
is_equal less = false
is_equal equal = true
is_equal greater = false

-- The loop over `vfs_list`, which leaves its last element out, and the new end.
unfoldable pub mount_loop : Str → (vfs : ℕ) → Mounted → List Mounted → Option (List Mounted)
mount_loop path vfs m [] = some (m ∷ record { mount_path = path; vfs = vfs } ∷ [])
mount_loop path vfs m (m' ∷ ms) =
    let rest = mount_loop path vfs m' ms in
    if is_equal (strcmp m.mount_path path)
    then none
    else elim rest [ none ↦ none | some l ↦ some (m ∷ l) ]

-- `none` for -1.
unfoldable pub vfs_mount : Str → (vfs : ℕ) → List Mounted → Option (List Mounted)
vfs_mount path vfs [] = some (record { mount_path = path; vfs = vfs } ∷ [])
vfs_mount path vfs (m ∷ ms) = mount_loop path vfs m ms

-- The number of bytes that the two agree in, from the beginning on.
unfoldable pub common_prefix : Str → Str → ℕ
common_prefix [] mp = 0
common_prefix (c ∷ p) [] = 0
common_prefix (c ∷ p) (d ∷ mp) = let rest = common_prefix p mp in if c == d then rest + 1 else 0

-- `root` is not set before an element has a common prefix.
pub record Longest : Type 0 where
  pub max_len : ℕ
  pub root : Option Mounted

unfoldable pub longest_loop : Str → List Mounted → Longest → Longest
longest_loop path [] best = best
longest_loop path (m ∷ ms) best =
    let idx = common_prefix path m.mount_path in
    longest_loop path ms
      (if ltb best.max_len idx then record { max_len = idx; root = some m } else best)

unfoldable pub find_longest_mount_path : Str → List Mounted → Longest
find_longest_mount_path path ms = longest_loop path ms (record { max_len = 0; root = none })

abbrev pub slash : ℕ
slash = 47

-- `fault` is a call through the `root` that was not set.
pub data Lookup : Type 0 where
  found : Vnode → Lookup
  failed : Lookup
  fault : Lookup
  out_of_fuel : Lookup

abbrev pub and_then : Option Vnode → (Vnode → Lookup) → Lookup
and_then none k = failed
and_then (some v) k = k v

-- `vn_lookup` and `vfs_root` of the file systems, `none` where they return an error.
module _ (vn_lookup : Vnode → Str → Option Vnode) (vfs_root : ℕ → Option Vnode) where
  -- The name up to the slash, and the rest behind it.
  unfoldable pub lookup_loop : ℕ → Str → Vnode → Lookup
  lookup_loop zero p vnode = out_of_fuel
  lookup_loop (suc fuel) p vnode =
      let slash_index = strcspn p (slash ∷ []) in
      let inc = if slash_index == strlen p then slash_index else slash_index + 1 in
      if strlen p == 0
      then found vnode
      else and_then (vn_lookup vnode (take slash_index p)) λ v. lookup_loop fuel (drop inc p) v

  -- `max_len` and `root`
  unfoldable pub lookup_at : (fuel : ℕ) → Str → ℕ → Option Mounted → Lookup
  lookup_at fuel path n none = fault
  lookup_at fuel path n (some m) = and_then (vfs_root m.vfs) λ v. lookup_loop fuel (drop n path) v

  unfoldable pub vfs_lookup : (fuel : ℕ) → Str → List Mounted → Lookup
  vfs_lookup fuel path ms =
      if ltb (strlen path) 1
      then failed
      else if not (peek path == slash)
      then failed
      else let best = find_longest_mount_path path ms in lookup_at fuel path best.max_len best.root
