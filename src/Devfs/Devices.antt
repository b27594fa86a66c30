-- ===== src/Devfs/Devices.antt =====
-- devfs.c: what can be looked up after a device was added.
use aenix.Base.{
  ◌^◌, ◌<◌, ◌≡◌, ◌≢◌, refl, subst, true, false, List, [], ◌∷◌, none, some, ◌==◌, length, Bool-cases,
  inl, inr, arith,
}
use aenix.CString.{Str, Cmp, less, equal, greater, strlen, strcmp}
use aenix.CString.Compare.{strcmp_iff, strcmp_refl}
use aenix.Vfs.{Vnode, is_equal}
use aenix.Devfs.{DevfsInode, lookup_loop, has_name, link, add, devfs_add_device, devfs_lookup}

is_equal_iff : (c : Cmp) → is_equal c ≡ true → c ≡ equal
is_equal_iff less e = ground arith
is_equal_iff equal e = refl
is_equal_iff greater e = ground arith

-- Other names are told apart.
strcmp-other :
    (s t : Str) → length s < 2 ^ 32 → length t < 2 ^ 32 → s ≢ t → is_equal (strcmp s t) ≡ false
strcmp-other s t lt lt' ne = elim (Bool-cases (is_equal (strcmp s t))) [
  | inl e ↦ absurd (ne ((strcmp_iff s t lt lt').0 (is_equal_iff (strcmp s t) e)))
  | inr e ↦ e
]

abbrev device : Str → Vnode → DevfsInode
device path node = record { name = path; node = node }

-- Where it succeeds, the name was new, and the device is linked behind the first.
add-some :
    (devices devices' : List DevfsInode) (path : Str) (node : Vnode)
    → devfs_add_device true true devices (some path) node ≡ some devices'
    → (link devices (device path node) ≡ devices') × (has_name devices path ≡ false)
unfolding devfs_add_device add
add-some devices devices' path node e = elim (Bool-cases (strlen path == 0)) [
  | inl empty ↦ cc (rw empty at e)
  | inr some_name ↦ elim (Bool-cases (has_name devices path)) [
    | inl taken ↦ cc (rw (some_name, taken) at e)
    | inr free ↦ (ground (arith, rw (some_name, free) at e), free)
  ]
]

lookup-link :
    (devices : List DevfsInode) (path name : Str) (node : Vnode)
    → length devices < 2
    → has_name devices path ≡ false
    → length path < 2 ^ 32
    → length name < 2 ^ 32
    → (lookup_loop (link devices (device path node)) path ≡ some node)
      × (path ≢ name
          → lookup_loop (link devices (device path node)) name ≡ lookup_loop devices name)
unfolding lookup_loop has_name
lookup-link [] path name node lt free plen nlen =
    (rw (strcmp_refl path) refl, λ ne. rw (strcmp-other path name plen nlen ne) refl)
lookup-link (i ∷ []) path name node lt free plen nlen =
    let before : is_equal (strcmp i.name path) ≡ false = ground (arith, free) in
    (rw (before, strcmp_refl path) refl, λ ne. rw (strcmp-other path name plen nlen ne) refl)
lookup-link (i ∷ j ∷ is) path name node lt free plen nlen = absurd (omega arith)

-- With at most one device so far, a device that is added is found under its name, and what other
-- names lead to stays as it was.
pub devfs_lookup-devfs_add_device :
    (devices devices' : List DevfsInode) (path name : Str) (node : Vnode)
    → length devices < 2
    → devfs_add_device true true devices (some path) node ≡ some devices'
    → length path < 2 ^ 32
    → length name < 2 ^ 32
    → (devfs_lookup devices' (some path) ≡ some node)
      × (path ≢ name → devfs_lookup devices' (some name) ≡ devfs_lookup devices (some name))
unfolding devfs_lookup
devfs_lookup-devfs_add_device devices devices' path name node lt e plen nlen =
    let (linked, free) = add-some devices devices' path node e in
    subst
      (λ ds.
        (lookup_loop ds path ≡ some node)
        × (path ≢ name → lookup_loop ds name ≡ lookup_loop devices name))
      linked (lookup-link devices path name node lt free plen nlen)

-- A third device replaces the second, which cannot be looked up any more.
pub devfs_add_device-drops :
    (i j : DevfsInode) (path : Str) (node : Vnode) (devices' : List DevfsInode)
    → devfs_add_device true true (i ∷ j ∷ []) (some path) node ≡ some devices'
    → is_equal (strcmp i.name j.name) ≡ false
    → is_equal (strcmp path j.name) ≡ false
    → devfs_lookup devices' (some j.name) ≡ none
unfolding devfs_lookup lookup_loop
devfs_add_device-drops i j path node devices' e apart other =
    let (linked, free) = add-some (i ∷ j ∷ []) devices' path node e in
    subst (λ ds. lookup_loop ds j.name ≡ none) linked (rw (apart, other) refl)
