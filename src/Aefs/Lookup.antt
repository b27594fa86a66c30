-- ===== src/Aefs/Lookup.antt =====
-- aefs.c: what `aefs_lookup` tells names by.
use aenix.Base.{
  ℕ, zero, suc, ◌≡◌, refl, ap, ap₂, not, ◌&&◌, List, [], ◌∷◌, none, some, ◌==◌, if◌then◌else◌,
}
use aenix.CString.{Str, peek, Cmp, less, greater, char_lt, strncmp}
use aenix.Vfs.{is_equal}
use aenix.Aefs.{
  AefsInode, AefsDirentry, aefs_filename_max_len, find_entry, find_in_blocks, or_else, aefs_lookup,
}

strncmp-peek : (s t t' : Str) (n : ℕ) → peek t ≡ peek t' → strncmp s t n ≡ strncmp s t' n
unfolding strncmp
strncmp-peek s t t' zero e = refl
strncmp-peek s t t' (suc n) e =
    ap₂
      (λ (p : ℕ) (rest : Cmp).
        if peek s == p
        then rest
        else if (peek s == 0) && not (p == 0)
        then less
        else if (p == 0) && not (peek s == 0)
        then greater
        else if char_lt (peek s) p
        then less
        else greater)
      e (strncmp-peek s t t' n e)

find_entry-peek :
    (es : List AefsDirentry) (name name' : Str)
    → peek name ≡ peek name'
    → find_entry es name ≡ find_entry es name'
unfolding find_entry
find_entry-peek [] name name' e = refl
find_entry-peek (d ∷ es) name name' e =
    ap₂ (λ c rest. if is_equal c then some d.inode_id else rest)
      (strncmp-peek d.name name name' aefs_filename_max_len e) (find_entry-peek es name name' e)

find_in_blocks-peek :
    (entries : ℕ → List AefsDirentry) (bs : List ℕ) (name name' : Str)
    → peek name ≡ peek name'
    → find_in_blocks entries bs name ≡ find_in_blocks entries bs name'
unfolding find_in_blocks
find_in_blocks-peek entries [] name name' e = refl
find_in_blocks-peek entries (b ∷ bs) name name' e =
    ap₂ or_else (find_entry-peek (entries b) name name' e)
      (find_in_blocks-peek entries bs name name' e)

-- `aefs_lookup` leads all names with the same first byte to the same inode, whatever follows.
pub aefs_lookup-peek :
    (entries : ℕ → List AefsDirentry) (inodes : ℕ → AefsInode) (inode : AefsInode)
    (name name' : Str)
    → peek name ≡ peek name'
    → aefs_lookup entries inodes inode name ≡ aefs_lookup entries inodes inode name'
unfolding aefs_lookup
aefs_lookup-peek entries inodes inode name name' e =
    ap (λ o. if not (inode.type_ == 1) then none else o)
      (find_in_blocks-peek entries _ name name' e)
