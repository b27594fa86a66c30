-- ===== src/Mkfs/Paths.antt =====
-- mkfs.c, aefs.c and vfs.c: the paths of the host lead to the same files in the kernel.
use aenix.Base.{
  ℕ, ◌<◌, ◌≡◌, ◌≢◌, ◌⊎◌, refl, ap, ◌∙◌, sym, subst, true, false, List, [], ◌∷◌, ◌++◌, Option, some,
  none, arith, inl, inr, Bool-cases, ◌^◌, length,
}
use aenix.CString.{Str, peek, Cmp, less, equal, greater, strncmp}
use aenix.CString.Compare.{strncmp_iff}
use aenix.Vfs.{is_equal, Vnode, found, lookup_loop}
use aenix.Vfs.Walk.{walk, join, AreNames, lookup_loop-walk}
use aenix.Aefs.{AefsDirentry, aefs_lookup, find_entry, find_in_blocks, or_else}
use aenix.Mkfs.{HostFile, reg, dir, HostEntries, end, entry, Fs, block_entries}
use aenix.Mkfs.Directory.{entries_in}
use aenix.Mkfs.Tree.{Stores, StoresAll, ids_of}

-- An entry of the host, and a path from a file to another.
abbrev pub HasEntry : HostEntries → Str → HostFile → Type 0
HasEntry end name t = ⊥
HasEntry (entry n u es) name t = ((n ≡ name) × (u ≡ t)) ⊎ HasEntry es name t

abbrev pub LeadsTo : HostFile → List Str → HostFile → Type 0
LeadsTo t [] t' = t ≡ t'
LeadsTo (reg bytes) (n ∷ ns) t' = ⊥
LeadsTo (dir es) (n ∷ ns) t' = (u : HostFile) × HasEntry es n u × LeadsTo u ns t'

-- No entry has a name that begins as another in its directory.
abbrev pub NoneBegins : HostEntries → (byte : ℕ) → Type 0
NoneBegins end byte = Unit {0}
NoneBegins (entry n u es) byte = (peek n ≢ byte) × NoneBegins es byte

unfoldable mutual
  pub AreDistinct : HostFile → Type 0
  AreDistinct (reg bytes) = Unit {0}
  AreDistinct (dir es) = AllDistinct es

  pub AllDistinct : HostEntries → Type 0
  AllDistinct end = Unit {0}
  AllDistinct (entry n u es) = NoneBegins es (peek n) × AreDistinct u × AllDistinct es

begins_same : (s t : Str) → peek s ≡ peek t → is_equal (strncmp s t 254) ≡ true
begins_same s t e = ap is_equal ((strncmp_iff s t 254 (omega arith)).1 e)

is_equal-false : (c : Cmp) → c ≢ equal → is_equal c ≡ false
is_equal-false less ne = refl
is_equal-false equal ne = absurd (ne refl)
is_equal-false greater ne = refl

begins_other : (s t : Str) → peek s ≢ peek t → is_equal (strncmp s t 254) ≡ false
begins_other s t ne =
    is_equal-false (strncmp s t 254) (λ e. ne ((strncmp_iff s t 254 (omega arith)).0 e))

find_entry-append :
    (xs ys : List AefsDirentry) (name : Str)
    → find_entry (xs ++ ys) name ≡ or_else (find_entry xs name) (find_entry ys name)
unfolding find_entry
find_entry-append [] ys name = refl
find_entry-append (x ∷ xs) ys name = elim (Bool-cases (is_equal (strncmp x.name name 254))) [
  | inl e ↦ rw e refl
  | inr e ↦ rw e (find_entry-append xs ys name)
]

find_in_blocks-entries_in :
    (blocks : ℕ → List ℕ) (bs : List ℕ) (name : Str)
    → find_in_blocks (λ b. block_entries (blocks b)) bs name
      ≡ find_entry (entries_in blocks bs) name
unfolding find_in_blocks find_entry
find_in_blocks-entries_in blocks [] name = refl
find_in_blocks-entries_in blocks (b ∷ bs) name =
    ap (or_else (find_entry (block_entries (blocks b)) name))
      (find_in_blocks-entries_in blocks bs name)
    ∙ sym (find_entry-append (block_entries (blocks b)) (entries_in blocks bs) name)

-- The first entry that begins as the name is the entry with the name.
begins :
    (es : HostEntries) (name : Str) (t : HostFile) (byte : ℕ)
    → HasEntry es name t
    → NoneBegins es byte
    → peek name ≢ byte
begins end name t byte h none_begins = absurd h
begins (entry n u es) name t byte h none_begins = elim h [
  | inl here ↦ λ e. none_begins.0 (ap peek here.0 ∙ e)
  | inr later ↦ begins es name t byte later none_begins.1
]

find_entry-StoresAll :
    (fs : Fs) (listing rest : List AefsDirentry) (es : HostEntries) (name : Str) (t : HostFile)
    → StoresAll fs listing es
    → AllDistinct es
    → HasEntry es name t
    → (id : ℕ) × (find_entry (listing ++ rest) name ≡ some id) × Stores fs id t × AreDistinct t
unfolding find_entry StoresAll AllDistinct
find_entry-StoresAll fs listing rest end name t stored distinct h = absurd h
find_entry-StoresAll fs [] rest (entry n u es) name t stored distinct h = absurd stored
find_entry-StoresAll fs (d ∷ listing) rest (entry n u es) name t stored distinct h = elim h [
  | inl here ↦
      let same : is_equal (strncmp d.name name 254) ≡ true =
        begins_same d.name name (ap peek (stored.0 ∙ here.0)) in
      (
        d.inode_id,
        rw same refl,
        subst (Stores fs d.inode_id) here.1 stored.1,
        subst AreDistinct here.1 distinct.1,
      )
  | inr later ↦
      let differ : is_equal (strncmp d.name name 254) ≡ false =
        begins_other d.name name
          (λ e. begins es name t (peek n) later distinct.0 (sym e ∙ ap peek stored.0)) in
      let ih = find_entry-StoresAll fs listing rest es name t stored.2 distinct.2 later in
      (ih.0, rw differ ih.1, ih.2, ih.3)
]

-- `aefs_lookup` on the bytes of an image.
unfoldable pub lookup_in : Fs → (id : ℕ) → Str → Option ℕ
lookup_in fs id name =
    aefs_lookup (λ b. block_entries (fs.blocks b)) fs.image.inodes (fs.image.inodes id) name

lookup_in-Stores :
    (fs : Fs) (id : ℕ) (es : HostEntries) (name : Str) (t : HostFile)
    → Stores fs id (dir es)
    → AllDistinct es
    → HasEntry es name t
    → (id' : ℕ) × (lookup_in fs id name ≡ some id') × Stores fs id' t × AreDistinct t
unfolding lookup_in aefs_lookup Stores
lookup_in-Stores fs id es name t stored distinct h =
    let (listing, rest, kind, size, entries, all) = stored in
    let found_entry = find_entry-StoresAll fs listing rest es name t all distinct h in
    (
      found_entry.0,
      rw kind (
          find_in_blocks-entries_in fs.blocks (ids_of fs id) name
          ∙ ap (λ es. find_entry es name) entries
          ∙ found_entry.1),
      found_entry.2,
      found_entry.3,
    )

-- The operation of the vnodes; `v_data` stands for an inode by its number.
with_inode : Vnode → Option ℕ → Option Vnode
with_inode v none = none
with_inode v (some id) = some (record v { v_data = id })

unfoldable pub vn_lookup : Fs → Vnode → Str → Option Vnode
unfolding with_inode
vn_lookup fs v name = with_inode v (lookup_in fs v.v_data name)

walk-Stores :
    (fs : Fs) (v : Vnode) (ns : List Str) (t t' : HostFile)
    → Stores fs v.v_data t
    → AreDistinct t
    → LeadsTo t ns t'
    → (v' : Vnode) × (walk (vn_lookup fs) ns v ≡ found v') × Stores fs v'.v_data t'
unfolding vn_lookup AreDistinct
walk-Stores fs v [] t t' stored distinct leads = (v, refl, subst (Stores fs v.v_data) leads stored)
walk-Stores fs v (n ∷ ns) (reg bytes) t' stored distinct leads = absurd leads
walk-Stores fs v (n ∷ ns) (dir es) t' stored distinct (u, h, leads) =
    let step = lookup_in-Stores fs v.v_data es n u stored distinct h in
    let later = walk-Stores fs (record v { v_data = step.0 }) ns u t' step.2 step.3 leads in
    (later.0, rw step.1 later.1, later.2)

-- In an image that stores a tree, in which no two names of a directory begin with the same byte, the
-- loop of `vfs_lookup` finds by every path of the host a vnode at which what the host has there is
-- stored. The names of the path have no slash, and the last is not empty; the path has fewer than
-- 2^32 bytes and than the fuel.
pub lookup_loop-Stores :
    (fs : Fs) (vfs_root : ℕ → Option Vnode) (fuel : ℕ) (v : Vnode) (ns : List Str) (t t' : HostFile)
    → Stores fs v.v_data t
    → AreDistinct t
    → LeadsTo t ns t'
    → AreNames ns
    → length (join ns) < 2 ^ 32
    → length (join ns) < fuel
    → (v' : Vnode) × (lookup_loop (vn_lookup fs) vfs_root fuel (join ns) v ≡ found v')
      × Stores fs v'.v_data t'
lookup_loop-Stores fs vfs_root fuel v ns t t' stored distinct leads names short fits =
    let w = walk-Stores fs v ns t t' stored distinct leads in
    (w.0, lookup_loop-walk (vn_lookup fs) vfs_root fuel ns v names short fits ∙ w.1, w.2)
