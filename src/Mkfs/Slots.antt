-- ===== src/Mkfs/Slots.antt =====
-- mkfs.c and aefs.c: the entries of a directory, as bytes in blocks and as the kernel reads them.
use aenix.Base.{
  ℕ, zero, suc, ◌+◌, ◌*◌, ◌/◌, ◌%◌, ◌^◌, ◌≤◌, ◌<◌, ◌≡◌, ◌≢◌, refl, ap, ap₂, ◌∙◌, sym, false, List,
  [], ◌∷◌, ◌++◌, arith, length, take, drop, replicate, set, get_or, ◌==◌, length-append,
  length-take, length-replicate, get_or-append_length,
}
use aenix.CString.{Str}
use aenix.Aefs.{AefsDirentry, aefs_filename_max_len}
use aenix.Mkfs.{sizeof_direntry, entry_bytes, put_slot, until_nul, direntry, direntries}
use aenix.Mkfs.Chunks.{length-drop}

take-append_length : (n : ℕ) (xs ys : List ℕ) → length xs ≡ n → take n (xs ++ ys) ≡ xs
take-append_length zero [] ys e = refl
take-append_length zero (x ∷ xs) ys e = absurd (omega arith)
take-append_length (suc n) [] ys e = absurd (omega arith)
take-append_length (suc n) (x ∷ xs) ys e =
    ap (λ t. x ∷ t) (take-append_length n xs ys (omega arith))

drop-append_length : (n : ℕ) (xs ys : List ℕ) → length xs ≡ n → drop n (xs ++ ys) ≡ ys
drop-append_length zero [] ys e = refl
drop-append_length zero (x ∷ xs) ys e = absurd (omega arith)
drop-append_length (suc n) [] ys e = absurd (omega arith)
drop-append_length (suc n) (x ∷ xs) ys e = drop-append_length n xs ys (omega arith)

-- A name without a zero byte, that fits in an entry.
abbrev pub IsText : Str → Type 0
IsText [] = Unit {0}
IsText (c ∷ cs) = (c ≢ 0) × IsText cs

abbrev pub IsName : Str → Type 0
IsName name = IsText name × (length name ≤ aefs_filename_max_len)

until_nul-take :
    (n m : ℕ) (name : Str)
    → IsText name
    → length name ≤ n
    → until_nul (take n (name ++ replicate (suc m) 0)) ≡ name
unfolding until_nul
until_nul-take zero m [] t le = refl
until_nul-take (suc n) m [] t le = refl
until_nul-take zero m (c ∷ cs) t le = absurd (omega arith)
until_nul-take (suc n) m (c ∷ cs) t le =
    let other : (c == 0) ≡ false = ground (arith, t) in
    rw other (ap (λ t. c ∷ t) (until_nul-take n m cs t.1 (omega arith)))

pub length-entry_bytes : (name : Str) (id : ℕ) → length (entry_bytes name id) ≡ sizeof_direntry
unfolding entry_bytes
length-entry_bytes name id =
    let padded = name ++ replicate aefs_filename_max_len 0 in
    omega (
      arith,
      length-append (take aefs_filename_max_len padded) (id % 256 ∷ id / 256 ∷ []),
      length-take aefs_filename_max_len padded,
      length-append name (replicate aefs_filename_max_len 0),
      length-replicate {A = ℕ} aefs_filename_max_len 0,
    )

get_or-append_second : (xs : List ℕ) (a b d : ℕ) → get_or (xs ++ a ∷ b ∷ []) (suc (length xs)) d ≡ b
get_or-append_second [] a b d = refl
get_or-append_second (x ∷ xs) a b d = get_or-append_second xs a b d

abbrev pub direntry_of : Str → ℕ → AefsDirentry
direntry_of name inode_id = record { name = name; inode_id = inode_id }

-- The kernel reads the name and the number of the inode that were written.
pub direntry-entry_bytes :
    (name : Str) (id : ℕ)
    → IsName name
    → id < 2 ^ 16
    → direntry (entry_bytes name id) ≡ record { name = name; inode_id = id }
unfolding direntry entry_bytes
direntry-entry_bytes name id (text, fits) small =
    let padded = name ++ replicate aefs_filename_max_len 0 in
    let field = take aefs_filename_max_len padded in
    let low = id % 256 in
    let high = id / 256 in
    let len : length field ≡ 254 = omega (
      arith,
      length-take aefs_filename_max_len padded,
      length-append name (replicate aefs_filename_max_len 0),
      length-replicate {A = ℕ} aefs_filename_max_len 0,
    ) in
    let text' : until_nul (take 254 (field ++ low ∷ high ∷ [])) ≡ name =
      ap until_nul (take-append_length 254 field (low ∷ high ∷ []) len)
      ∙ until_nul-take 254 253 name text fits in
    let first : get_or (field ++ low ∷ high ∷ []) 254 0 ≡ low =
      ap (λ n. get_or (field ++ low ∷ high ∷ []) n 0) (sym len)
      ∙ get_or-append_length field (high ∷ []) low 0 in
    let second : get_or (field ++ low ∷ high ∷ []) 255 0 ≡ high =
      ap (λ n. get_or (field ++ low ∷ high ∷ []) (suc n) 0) (sym len)
      ∙ get_or-append_second field low high 0 in
    ap₂ (λ n i. direntry_of n i) text' (ap₂ (λ a b. a + 256 * b) first second ∙ omega arith)

pub length-put_slot :
    (left i : ℕ) (bytes block : List ℕ)
    → length bytes ≡ sizeof_direntry
    → length block ≡ left * sizeof_direntry
    → i < left
    → length (put_slot i bytes block) ≡ left * sizeof_direntry
unfolding put_slot
length-put_slot left zero bytes block e e' lt =
    omega (arith, length-append bytes (drop 256 block), length-drop 256 block)
length-put_slot zero (suc i) bytes block e e' lt = absurd (omega arith)
length-put_slot (suc left) (suc i) bytes block e e' lt = omega (
  arith,
  length-append (take 256 block) (put_slot i bytes (drop 256 block)),
  length-take 256 block,
  length-put_slot left i bytes (drop 256 block) e (omega (arith, length-drop 256 block))
      (omega arith),
)

-- A write to an entry of a block is one to the list of its entries.
pub direntries-put_slot :
    (left i : ℕ) (bytes block : List ℕ)
    → length bytes ≡ sizeof_direntry
    → length block ≡ left * sizeof_direntry
    → i < left
    → direntries left (put_slot i bytes block) ≡ set (direntries left block) i (direntry bytes)
unfolding put_slot direntries
direntries-put_slot zero i bytes block e e' lt = absurd (omega arith)
direntries-put_slot (suc left) zero bytes block e e' lt =
    ap₂ (λ x xs. direntry x ∷ direntries left xs) (take-append_length 256 bytes (drop 256 block) e)
      (drop-append_length 256 bytes (drop 256 block) e)
direntries-put_slot (suc left) (suc i) bytes block e e' lt =
    let front : length (take 256 block) ≡ 256 = omega (arith, length-take 256 block) in
    let back = put_slot i bytes (drop 256 block) in
    ap₂ (λ x xs. direntry x ∷ direntries left xs)
      (take-append_length 256 (take 256 block) back front)
      (drop-append_length 256 (take 256 block) back front)
    ∙ ap (λ t. direntry (take 256 block) ∷ t)
        (direntries-put_slot left i bytes (drop 256 block) e (omega (arith, length-drop 256 block))
          (omega arith))
