-- ===== src/Mkfs/Entries.antt =====
-- mkfs.c and aefs.c: the loop over the entries of a directory.
use mathlib.Core.List.{append_assoc}
use aenix.Base.{
  ℕ, suc, ◌+◌, ◌*◌, ◌/◌, ◌^◌, ◌≤◌, ◌<◌, ◌≡◌, ◌≢◌, ◌⊎◌, refl, ap, ap₂, ◌∙◌, sym, List, [], ◌∷◌, ◌++◌,
  arith, length, set, inr, length-append,
}
use aenix.CString.{Str}
use aenix.Aefs.{AefsDirentry}
use aenix.Aefs.Fill.{range}
use aenix.Mkfs.{HostFile, HostEntries, end, entry, Fs, num_files, put_entry}
use aenix.Mkfs.Slots.{IsName, direntry-entry_bytes, direntry_of}
use aenix.Mkfs.Directory.{
  entries_in, AreWhole, length-entries_in, entries_in-agree, put_entry-others, put_entry-AreWhole,
  entries_in-put_entry,
}
use aenix.Mkfs.Tree.{Stores, StoresAll, weight, weight_all, AgreesFrom, HasVisited}

-- What the loop leaves from entry `i` on, for a directory in `n` blocks from `start` on: the
-- `listing` stands behind the entries that were there, and what it leads to is stored.
pub record HasVisitedAll (start n i : ℕ) (fs : Fs) (es : HostEntries) (f : Fs) : Type 0 where
  pub listing : List AefsDirentry
  pub many : length listing ≡ num_files es
  pub inodes_up : fs.image.next_inode_id ≤ f.image.next_inode_id
  pub inodes_within : f.image.next_inode_id ≤ fs.image.next_inode_id + weight_all es
  pub blocks_up : fs.next_block_id ≤ f.next_block_id
  pub blocks_within : f.next_block_id ≤ fs.next_block_id + weight_all es
  pub same_inodes : (a : ℕ) → a < fs.image.next_inode_id → f.image.inodes a ≡ fs.image.inodes a
  pub same_blocks :
      (b : ℕ) → b < fs.next_block_id → (b < start) ⊎ (start + n ≤ b) → f.blocks b ≡ fs.blocks b
  pub placed :
      (before after : List AefsDirentry)
      → entries_in fs.blocks (range start n) ≡ before ++ after
      → length before ≡ i
      → (rest : List AefsDirentry) × (entries_in f.blocks (range start n)
          ≡ before ++ (listing ++ rest))
  pub stores : (g : Fs) → AgreesFrom fs f g → StoresAll g listing es

pub end-HasVisitedAll : (start n i : ℕ) (fs : Fs) → HasVisitedAll start n i fs end fs
unfolding StoresAll weight_all
end-HasVisitedAll start n i fs = record {
  listing = [];
  many = refl;
  inodes_up = omega arith;
  inodes_within = omega arith;
  blocks_up = omega arith;
  blocks_within = omega arith;
  same_inodes = λ a lt. refl;
  same_blocks = λ b lt out. refl;
  placed = λ before after e len. (after, e);
  stores = λ g agrees. tt;
}

set-append_length :
    (xs : List AefsDirentry) (y : AefsDirentry) (ys : List AefsDirentry) (v : AefsDirentry)
    → set (xs ++ y ∷ ys) (length xs) v ≡ xs ++ v ∷ ys
set-append_length [] y ys v = refl
set-append_length (x ∷ xs) y ys v = ap (λ t. x ∷ t) (set-append_length xs y ys v)

module _ (start n i : ℕ) (fs : Fs) (whole : AreWhole fs.blocks start n)
    (below : start + n ≤ fs.next_block_id) (room : i < n * 4) (name : Str) (is_name : IsName name)
    (t : HostFile) (id : ℕ) (small : id < 2 ^ 16) (fs1 : Fs)
    (visited : HasVisited fs (weight t) fs1 (λ g. Stores g id t)) where
  abbrev pub with_entry : Fs
  with_entry = record fs1 { blocks = put_entry fs1.blocks start i name id }

  abbrev e : AefsDirentry
  e = direntry_of name id

  entries_in-visited : entries_in fs1.blocks (range start n) ≡ entries_in fs.blocks (range start n)
  entries_in-visited =
      entries_in-agree n start fs.blocks fs1.blocks
        (λ b from to. visited.same_blocks b (omega arith))

  whole-visited : AreWhole fs1.blocks start n
  whole-visited b from to = ap length (visited.same_blocks b (omega arith)) ∙ whole b from to

  pub with_entry-AreWhole : AreWhole with_entry.blocks start n
  with_entry-AreWhole = put_entry-AreWhole name id n fs1.blocks start i whole-visited

  -- The entry comes behind those before it, in place of one that was left over.
  placed_entry :
      (before after : List AefsDirentry)
      → entries_in fs.blocks (range start n) ≡ before ++ after
      → length before ≡ i
      → (rest : List AefsDirentry) × (entries_in with_entry.blocks (range start n)
          ≡ before ++ e ∷ rest)
  placed_entry before [] same len =
      let lengths : n * 4 ≡ i =
        sym (length-entries_in n start fs.blocks)
        ∙ ap length same
        ∙ length-append before []
        ∙ omega (arith, len) in
      absurd (omega (arith, lengths, room))
  placed_entry before (x ∷ after) same len = (
    after,
    entries_in-put_entry name id n fs1.blocks start i whole-visited room
        ∙ ap₂ (λ es v. set es i v) (entries_in-visited ∙ same)
            (direntry-entry_bytes name id is_name small)
        ∙ ap (λ k. set (before ++ x ∷ after) k e) (sym len)
        ∙ set-append_length before x after e,
  )

  outside : (b : ℕ) → (b < start) ⊎ (start + n ≤ b) → b ≢ start + i / 4
  outside b out same = ground (arith, out, same, room)

  -- What the rest of the loop leaves is what the loop leaves.
  pub entry-HasVisitedAll :
      (es : HostEntries) (f : Fs)
      → HasVisitedAll start n (i + 1) with_entry es f
      → HasVisitedAll start n i fs (entry name t es) f
  unfolding StoresAll weight_all
  entry-HasVisitedAll es f all = record {
    listing = e ∷ all.listing;
    many = ap suc all.many;
    inodes_up = omega (arith, visited.inodes_up, all.inodes_up);
    inodes_within = omega (arith, visited.inodes_within, all.inodes_within);
    blocks_up = omega (arith, visited.blocks_up, all.blocks_up);
    blocks_within = omega (arith, visited.blocks_within, all.blocks_within);
    same_inodes =
        λ a lt. all.same_inodes a (omega (arith, lt, visited.inodes_up)) ∙ visited.same_inodes a lt;
    same_blocks = λ b lt out.
        all.same_blocks b (omega (arith, lt, visited.blocks_up)) out
        ∙ put_entry-others name id fs1.blocks start i b (outside b out)
        ∙ visited.same_blocks b lt;
    placed = λ before after same len.
        let here = placed_entry before after same len in
        let later =
          all.placed (before ++ e ∷ []) here.0 (here.1 ∙ sym (append_assoc before (e ∷ []) here.0))
            (length-append before (e ∷ []) ∙ omega (arith, len)) in
        (later.0, later.1 ∙ append_assoc before (e ∷ []) (all.listing ++ later.0));
    stores = λ g agrees. (
      refl,
      visited.stores g (record {
        inodes = λ a from to.
            agrees.inodes a from (omega (arith, to, all.inodes_up)) ∙ all.same_inodes a to;
        blocks = λ b from to.
            agrees.blocks b from (omega (arith, to, all.blocks_up))
            ∙ all.same_blocks b to (inr (omega (arith, from, below)))
            ∙ put_entry-others name id fs1.blocks start i b
                (outside b (inr (omega (arith, from, below))));
      }),
      all.stores g (record {
        inodes = λ a from to. agrees.inodes a (omega (arith, from, visited.inodes_up)) to;
        blocks = λ b from to. agrees.blocks b (omega (arith, from, visited.blocks_up)) to;
      }),
    );
  }
