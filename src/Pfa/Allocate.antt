-- ===== src/Pfa/Allocate.antt =====
-- What `pfa_allocate` hands out, and that `pfa_free_cont` takes it back.

use aenix.Base.{
  ℕ, zero, suc, ◌+◌, ◌*◌, ◌≤◌, ◌<◌, ◌≡◌, ◌≢◌, refl, ap, subst, ◌∙◌, List, [], ◌∷◌, inl, inr, ◌⊎◌,
  arith, ltb, leb, ◌&&◌, if◌then◌else◌, u32, length, get_or, take, length-take,
}
use aenix.Math.{div_ceil}
use aenix.Math.Laws.{div_ceil_lem}
use aenix.Pfa.{
  MemoryMap, Pfa, Outcome, allocates, goes_on, find_run, words, pfa_allocate, paddr_for_idx,
  toggle_bits, with_bits,
}
use aenix.Pfa.Bitmap.{frame, length-toggle_bits, frame-toggle_bits}
use aenix.Pfa.Regions.{
  Regions, total, locate, Within, total-lt, locate-ge, paddr_for_idx-locate, fits-Within,
  locate-add,
}
use aenix.Pfa.Loops.{Leaves}
use aenix.Pfa.Scan.{Free, IsRun, IsFound, visit_cells-Leaves}

abbrev pub one_mb : ℕ
one_mb = 0x10_0000

-- The allocator after `pfa_init`: the entries lie above 1 MB, and the bitmap covers their frames.
pub record IsValid (p : Pfa) : Type 0 where
  pub regions : Regions one_mb p.mmap
  pub frames : p.page_frames.len * 0x1000 ≡ total p.mmap
  pub some_frame : 0 < p.page_frames.len
  pub covers : p.page_frames.len ≤ 32 * length p.page_frames.start

get_or-take :
    (n : ℕ) (xs : List ℕ) (k : ℕ) → k < length (take n xs) → get_or xs k 0 ≡ get_or (take n xs) k 0
get_or-take zero xs k h = absurd (omega arith)
get_or-take (suc n) [] k h = refl
get_or-take (suc n) (x ∷ xs) zero h = refl
get_or-take (suc n) (x ∷ xs) (suc k) h = get_or-take n xs k (omega arith)

Regions-weaken : (lo : ℕ) (es : List MemoryMap) → Regions lo es → Regions 0 es
Regions-weaken lo [] r = tt
Regions-weaken lo (e ∷ es) (a, b, c, d, rest) = (omega arith, b, c, d, rest)

module _ {p : Pfa} (v : IsValid p) where
  pub regions0 : Regions 0 p.mmap
  regions0 = Regions-weaken one_mb p.mmap v.regions

  room : one_mb + total p.mmap < u32
  room = total-lt one_mb p.mmap (omega arith) v.regions

  small : p.page_frames.len < u32
  small = omega (arith, room, v.frames)

  length-words : 32 * length (words p) ≤ p.page_frames.len + 31
  length-words = omega (
    arith,
    length-take (div_ceil p.page_frames.len 32) p.page_frames.start,
    div_ceil_lem p.page_frames.len 32 v.some_frame (omega arith) small,
  )

  length-words_le : length (words p) ≤ length p.page_frames.start
  length-words_le = omega (arith, length-take (div_ceil p.page_frames.len 32) p.page_frames.start)

  pub length-words_ge : p.page_frames.len ≤ 32 * length (words p)
  length-words_ge = omega (
    arith,
    length-take (div_ceil p.page_frames.len 32) p.page_frames.start,
    div_ceil_lem p.page_frames.len 32 v.some_frame (omega arith) small,
    v.covers,
  )

  -- The words that the search visits are those of the bitmap.
  pub words_lem :
      (k : ℕ) → k < length (words p) → get_or p.page_frames.start (0 + k) 0 ≡ get_or (words p) k 0
  words_lem k h =
      ap (λ t. get_or p.page_frames.start t 0) (omega arith)
      ∙ get_or-take (div_ceil p.page_frames.len 32) p.page_frames.start k h

  find_run-Leaves :
      (num : ℕ)
      → Leaves
          (IsRun p.page_frames.start)
          (IsFound p.page_frames.start p.mmap num (length (words p) * 32))
          ((0 + length (words p)) * 32)
          (find_run p num)
  unfolding find_run
  find_run-Leaves num =
      visit_cells-Leaves p.page_frames.start p.mmap num (length (words p) * 32) (words p) words_lem
        (omega arith)

  -- The run that the search ends with is free, and lies in one entry of the map.
  pub find_run_sound :
      (num idx : ℕ)
      → 0 < num
      → find_run p num ≡ allocates idx
      → Free p.page_frames.start idx num
        × Within p.mmap (idx * 0x1000) (num * 0x1000)
        × (idx + num ≤ 32 * length p.page_frames.start)
  find_run_sound num idx h e =
      let (free, fits, bound) =
        subst
          (Leaves (IsRun p.page_frames.start)
            (IsFound p.page_frames.start p.mmap num (length (words p) * 32))
            ((0 + length (words p)) * 32))
          e (find_run-Leaves num) in
      (
        free,
        fits-Within p.mmap idx num regions0 (omega (arith, length-words, v.frames, room)) fits,
        omega (arith, bound, length-words_le),
      )

-- A successful allocation of `num` frames from `idx` on: they were free and lie in one entry,
-- the result is the address of the first, they are taken now, and nothing else has changed.
pub record Grants (p : Pfa) (num : ℕ) (r : ℕ × Pfa) : Type 0 where
  pub idx : ℕ
  pub address : r.0 ≡ locate p.mmap (idx * 0x1000)
  pub above_one_mb : one_mb ≤ r.0
  pub in_one_entry : Within p.mmap (idx * 0x1000) (num * 0x1000)
  pub were_free : Free p.page_frames.start idx num
  pub in_bitmap : idx + num ≤ 32 * length r.1.page_frames.start
  pub same_map : (r.1.mmap ≡ p.mmap) × (r.1.page_frames.len ≡ p.page_frames.len)
  pub taken :
      (j : ℕ)
      → frame r.1.page_frames.start j
        ≡ (if leb idx j && ltb j (idx + num) then 0 else frame p.page_frames.start j)
  pub valid : IsValid r.1

pub toggled-IsValid :
    {q : Pfa} (i n : ℕ) → IsValid q → IsValid (with_bits q (toggle_bits q.page_frames.start i n))
unfolding with_bits
toggled-IsValid {q} i n v = record {
  regions = v.regions;
  frames = v.frames;
  some_frame = v.some_frame;
  covers = omega (arith, v.covers, length-toggle_bits q.page_frames.start i n);
}

allocates-Grants :
    {p : Pfa} (num idx : ℕ)
    → IsValid p
    → 0 < num
    → find_run p num ≡ allocates idx
    → Grants p num (paddr_for_idx p.mmap idx, with_bits p (toggle_bits p.page_frames.start idx num))
unfolding with_bits
allocates-Grants {p} num idx v h e =
    let (free, within, bound) = find_run_sound v num idx h e in
    let inside = locate-add p.mmap (idx * 0x1000) (num * 0x1000) 0 within (omega arith) in
    let lies : idx * 0x1000 < total p.mmap = omega (arith, inside.1) in
    let address = paddr_for_idx-locate p.mmap idx (regions0 v) lies in
    record {
      idx = idx;
      address = address;
      above_one_mb = omega (arith, address, locate-ge one_mb p.mmap (idx * 0x1000) v.regions lies);
      in_one_entry = within;
      were_free = free;
      in_bitmap = omega (arith, bound, length-toggle_bits p.page_frames.start idx num);
      same_map = (refl, refl);
      taken =
          λ j. rw (frame-toggle_bits p.page_frames.start idx num j bound) (ground (arith, free j));
      valid = toggled-IsValid idx num v;
    }

-- `pfa_allocate` either returns 0 and changes nothing, or hands out a run of free frames.
pub pfa_allocate-Grants :
    {p : Pfa} (num : ℕ)
    → IsValid p
    → 0 < num
    → (pfa_allocate p num ≡ (0, p)) ⊎ Grants p num (pfa_allocate p num)
unfolding pfa_allocate
pfa_allocate-Grants {p} num v h = go (find_run p num) refl
  where
    go :
        (o : Outcome)
        → find_run p num ≡ o
        → (pfa_allocate p num ≡ (0, p)) ⊎ Grants p num (pfa_allocate p num)
    go (allocates idx) e = inr (rw (e, pfa_allocate) (allocates-Grants num idx v h e))
    go (goes_on r) e = inl (rw (e, pfa_allocate))

-- Where the search ends with a run, the address is not 0.
pub pfa_allocate-ne-zero :
    {p : Pfa} (num idx : ℕ)
    → IsValid p
    → 0 < num
    → find_run p num ≡ allocates idx
    → (pfa_allocate p num).0 ≢ 0
unfolding pfa_allocate
pfa_allocate-ne-zero num idx v h e =
    rw (e, pfa_allocate)
      (λ z. absurd (omega (arith, (allocates-Grants num idx v h e).above_one_mb, z)))
