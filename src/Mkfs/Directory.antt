-- ===== src/Mkfs/Directory.antt =====
-- mkfs.c and aefs.c: the entries in the blocks of a directory.
use aenix.Base.{
  ℕ, zero, suc, ◌+◌, ◌-◌, ◌*◌, ◌/◌, ◌%◌, ◌≤◌, ◌<◌, ◌≡◌, ◌≢◌, ◌⊎◌, refl, ap, ap₂, ◌∙◌, sym, true,
  false, List, [], ◌∷◌, ◌++◌, arith, length, drop, set, ◌==◌, inl, inr, le_cases, nat_cases,
  length-append, length-replicate,
}
use aenix.CString.{Str}
use aenix.Aefs.{AefsDirentry, update, aefs_block_size}
use aenix.Aefs.Fill.{range}
use aenix.Mkfs.{entry_bytes, put_slot, put_entry, direntry, direntries, block_entries, clear_blocks}
use aenix.Mkfs.Slots.{length-entry_bytes, length-put_slot, direntries-put_slot}

-- What the kernel reads of the blocks of a directory, one after the other.
abbrev pub entries_in : (ℕ → List ℕ) → List ℕ → List AefsDirentry
entries_in g [] = []
entries_in g (b ∷ bs) = block_entries (g b) ++ entries_in g bs

abbrev pub AreWhole : (ℕ → List ℕ) → (start n : ℕ) → Type 0
AreWhole g start n = (b : ℕ) → start ≤ b → b < start + n → length (g b) ≡ aefs_block_size

length-direntries : (left : ℕ) (bytes : List ℕ) → length (direntries left bytes) ≡ left
unfolding direntries
length-direntries zero bytes = refl
length-direntries (suc left) bytes = ap suc (length-direntries left (drop 256 bytes))

pub length-entries_in :
    (n start : ℕ) (g : ℕ → List ℕ) → length (entries_in g (range start n)) ≡ n * 4
length-entries_in zero start g = omega arith
length-entries_in (suc n) start g = omega (
  arith,
  length-append (block_entries (g start)) (entries_in g (range (start + 1) n)),
  length-direntries 4 (g start),
  length-entries_in n (start + 1) g,
)

pub entries_in-agree :
    (n start : ℕ) (f g : ℕ → List ℕ)
    → ((b : ℕ) → start ≤ b → b < start + n → g b ≡ f b)
    → entries_in g (range start n) ≡ entries_in f (range start n)
entries_in-agree zero start f g same = refl
entries_in-agree (suc n) start f g same =
    ap₂ (λ b es. block_entries b ++ es) (same start (omega arith) (omega arith))
      (entries_in-agree n (start + 1) f g (λ b from to. same b (omega arith) (omega arith)))

set-append_lt :
    (xs ys : List AefsDirentry) (i : ℕ) (v : AefsDirentry)
    → i < length xs
    → set (xs ++ ys) i v ≡ set xs i v ++ ys
set-append_lt [] ys i v lt = absurd (omega arith)
set-append_lt (x ∷ xs) ys zero v lt = refl
set-append_lt (x ∷ xs) ys (suc i) v lt = ap (λ t. x ∷ t) (set-append_lt xs ys i v (omega arith))

set-append_add :
    (xs ys : List AefsDirentry) (i : ℕ) (v : AefsDirentry)
    → set (xs ++ ys) (length xs + i) v ≡ xs ++ set ys i v
set-append_add [] ys i v = ap (λ k. set ys k v) (omega arith)
set-append_add (x ∷ xs) ys i v =
    let e : suc (length xs) + i ≡ suc (length xs + i) = omega arith in
    rw e (ap (λ t. x ∷ t) (set-append_add xs ys i v))

pub clear_blocks-others :
    (n : ℕ) (g : ℕ → List ℕ) (start b : ℕ)
    → (b < start) ⊎ (start + n ≤ b)
    → clear_blocks n g start b ≡ g b
unfolding clear_blocks
clear_blocks-others zero g start b out = refl
clear_blocks-others (suc n) g start b out =
    let other : (b == start) ≡ false = ground (arith, out) in
    clear_blocks-others n _ (start + 1) b (ground (arith, out)) ∙ rw other refl

pub clear_blocks-AreWhole :
    (n : ℕ) (g : ℕ → List ℕ) (start : ℕ) → AreWhole (clear_blocks n g start) start n
unfolding clear_blocks
clear_blocks-AreWhole zero g start b from to = absurd (omega arith)
clear_blocks-AreWhole (suc n) g start b from to = elim (le_cases b start) [
  | inl le ↦
      let here : (b == start) ≡ true = ground (arith, from, le) in
      ap length (clear_blocks-others n _ (start + 1) b (inl (omega arith)))
      ∙ rw here (length-replicate {A = ℕ} aefs_block_size 0)
  | inr above ↦ clear_blocks-AreWhole n _ (start + 1) b (omega arith) (omega arith)
]

module _ (name : Str) (id : ℕ) where
  pub put_entry-others :
      (g : ℕ → List ℕ) (start i b : ℕ) → b ≢ start + i / 4 → put_entry g start i name id b ≡ g b
  unfolding put_entry
  put_entry-others g start i b ne =
      let other : (b == start + i / 4) ≡ false = ground (arith, ne) in rw other refl

  put_entry-here :
      (g : ℕ → List ℕ) (start i : ℕ)
      → put_entry g start i name id (start + i / 4)
        ≡ put_slot (i % 4) (entry_bytes name id) (g (start + i / 4))
  unfolding put_entry
  put_entry-here g start i =
      let here : (start + i / 4 == start + i / 4) ≡ true = ground arith in rw here refl

  pub put_entry-AreWhole :
      (n : ℕ) (g : ℕ → List ℕ) (start i : ℕ)
      → AreWhole g start n
      → AreWhole (put_entry g start i name id) start n
  put_entry-AreWhole n g start i whole b from to = elim (nat_cases b (start + i / 4)) [
    | inl e ↦
        let size : length (g (start + i / 4)) ≡ 1024 =
          ap (λ c. length (g c)) (sym e) ∙ whole b from to in
        ap (λ c. length (put_entry g start i name id c)) e
        ∙ ap length (put_entry-here g start i)
        ∙ length-put_slot 4 (i % 4) (entry_bytes name id) (g (start + i / 4))
            (length-entry_bytes name id) size (omega arith)
    | inr ne ↦ ap length (put_entry-others g start i b ne) ∙ whole b from to
  ]

  put_entry-shift :
      (g : ℕ → List ℕ) (start i : ℕ)
      → 4 ≤ i
      → put_entry g start i name id ≡ put_entry g (start + 1) (i - 4) name id
  unfolding put_entry
  put_entry-shift g start i le =
      let block : start + i / 4 ≡ start + 1 + (i - 4) / 4 = omega (arith, le) in
      let slot : i % 4 ≡ (i - 4) % 4 = omega (arith, le) in
      ap₂ (λ b k. update g b (put_slot k (entry_bytes name id) (g b))) block slot

  -- A write to an entry is one to the list of all entries.
  pub entries_in-put_entry :
      (n : ℕ) (g : ℕ → List ℕ) (start i : ℕ)
      → AreWhole g start n
      → i < n * 4
      → entries_in (put_entry g start i name id) (range start n)
        ≡ set (entries_in g (range start n)) i (direntry (entry_bytes name id))
  entries_in-put_entry zero g start i whole lt = absurd (omega arith)
  entries_in-put_entry (suc n) g start i whole lt = elim (le_cases 4 i) [
    | inl later ↦
        let shift : put_entry g start i name id ≡ put_entry g (start + 1) (i - 4) name id =
          put_entry-shift g start i later in
        let rest = entries_in g (range (start + 1) n) in
        let four : 4 + (i - 4) ≡ i = omega arith in
        let len = length-direntries 4 (g start) in
        ap₂ (λ b es. block_entries b ++ es)
          (put_entry-others g start i start (λ e. omega (arith, e, later)))
          (ap (λ (h : ℕ → List ℕ). entries_in h (range (start + 1) n)) shift
            ∙ entries_in-put_entry n g (start + 1) (i - 4)
                (λ b from to. whole b (omega arith) (omega arith)) (omega arith))
        ∙ sym
            (set-append_add (block_entries (g start)) rest (i - 4) (direntry (entry_bytes name id)))
        ∙ ap (λ k. set (block_entries (g start) ++ rest) k (direntry (entry_bytes name id)))
            (ap (λ k. k + (i - 4)) len ∙ four)
    | inr first ↦
        let here : start + i / 4 ≡ start = omega (arith, first) in
        let slot : i % 4 ≡ i = omega (arith, first) in
        let rest = entries_in g (range (start + 1) n) in
        let len = length-direntries 4 (g start) in
        ap₂ (λ b es. block_entries b ++ es)
          (ap (put_entry g start i name id) (sym here)
            ∙ put_entry-here g start i
            ∙ ap₂ (λ k b. put_slot k (entry_bytes name id) (g b)) slot here)
          (entries_in-agree n (start + 1) g (put_entry g start i name id)
            (λ b from to. put_entry-others g start i b (λ e. omega (arith, e, here, from))))
        ∙ ap (λ es. es ++ rest)
            (direntries-put_slot 4 i (entry_bytes name id) (g start) (length-entry_bytes name id)
              (whole start (omega arith) (omega arith)) first)
        ∙ sym (
            set-append_lt (block_entries (g start)) rest i (direntry (entry_bytes name id))
              (omega (arith, len, first)))
  ]
