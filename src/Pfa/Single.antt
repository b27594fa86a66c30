-- ===== src/Pfa/Single.antt =====
-- `pfa_allocate(1)`, the call of the page tables: it fails only where no frame is left.
use aenix.Base.{
  ℕ, ◌+◌, ◌-◌, ◌*◌, ◌/◌, ◌%◌, ◌^◌, ◌≤◌, ◌<◌, ◌≡◌, refl, ap, subst, ◌∙◌, true, false, List, [], ◌∷◌,
  inl, inr, arith, ◌==◌, Bool-cases, u32, add32, sub32, mul32, length, get_or, le_cases, le→leb,
}
use aenix.Base.Bits.{bit, bit-lt, bit-zero}
use aenix.Pfa.{
  MemoryMap, Pfa, Run, no_run, Outcome, allocates, goes_on, visit_bit, find_run, words,
  pfa_allocate, fits_in_one_mmap_entry, fits_loop,
}
use aenix.Pfa.Bitmap.{frame}
use aenix.Pfa.Loops
use aenix.Pfa.Loops.{Leaves, Step, Skip}
use aenix.Pfa.Regions.{Regions, total, total-lt, skips, stops}
use aenix.Pfa.Allocate.{IsValid, regions0, words_lem, length-words_ge, pfa_allocate-ne-zero}

fits_loop-one :
    (lo : ℕ) (es : List MemoryMap) (c o : ℕ)
    → Regions lo es
    → c ≤ o
    → o < c + total es
    → c + total es < u32
    → c % 0x1000 ≡ 0
    → o % 0x1000 ≡ 0
    → fits_loop es c o 1 ≡ true
unfolding fits_loop
fits_loop-one lo [] c o r h k s m n = absurd (omega arith)
fits_loop-one lo (e ∷ es) c o (a, b, al, d, rest) h k s m n = elim (le_cases (c + e.len) o) [
  | inl behind ↦
      let next : add32 c e.len ≡ c + e.len = omega arith in
      rw (skips e c o (omega arith) behind, next)
        (fits_loop-one (e.addr + e.len) es (c + e.len) o rest behind (omega arith) (omega arith)
          (omega arith) n)
  | inr here ↦
      rw (stops e c o (omega arith) here)
        (le→leb (add32 (sub32 o c) (mul32 1 0x1000)) e.len (omega arith))
]

-- Every frame of the map fits in one entry by itself.
fits-one :
    (es : List MemoryMap) (k : ℕ)
    → Regions 0 es
    → k * 0x1000 < total es
    → fits_in_one_mmap_entry es k 1 ≡ true
unfolding fits_in_one_mmap_entry
fits-one es k r h =
    let small : 0 + total es < u32 = total-lt 0 es (omega arith) r in
    let offset : k * 0x1000 % u32 ≡ k * 0x1000 = omega arith in
    rw offset (
      fits_loop-one 0 es 0 (k * 0x1000) r (omega arith) (omega arith) small (omega arith)
        (omega arith))

module _ (bits : List ℕ) (mmap : List MemoryMap) where
  -- Before frame `at` there was no free frame that fits.
  record Passed (at : ℕ) (r : Run) : Type 0 where
    none_found : r.frames_found ≡ 0
    passed : (k : ℕ) → k < at → frame bits k ≡ 1 → fits_in_one_mmap_entry mmap k 1 ≡ false

  -- One frame more that does not serve.
  one_more :
      (at : ℕ) (r : Run)
      → Passed at r
      → (frame bits at ≡ 1 → fits_in_one_mmap_entry mmap at 1 ≡ false)
      → (k : ℕ) → k < at + 1
      → frame bits k ≡ 1
      → fits_in_one_mmap_entry mmap k 1 ≡ false
  one_more at r is no_use k lt free = elim (Bool-cases (k == at)) [
    | inl e ↦ let same : k ≡ at = ground arith in rw same (no_use (rw same at free))
    | inr e ↦ is.passed k (ground arith) free
  ]

  visit_bit-Passed : (limit : ℕ) → Step bits mmap 1 limit Passed (λ idx. Unit {0})
  unfolding visit_bit
  visit_bit-Passed limit cell at j r is h same = elim (Bool-cases (cell / 2 ^ (31 - j) % 2 == 1)) [
    | inr e ↦ rw e (record { none_found = refl; passed = one_more at r is λ free. ground arith })
    | inl e ↦
        let first : (r.frames_found == 0) ≡ true = ground (arith, is.none_found) in
        let one : r.frames_found + 1 ≡ 1 = omega (arith, is.none_found) in
        elim (Bool-cases (fits_in_one_mmap_entry mmap at 1)) [
          | inl f ↦ rw (e, first, one, f) tt
          | inr f ↦
              rw (e, first, one, f)
                (record { none_found = refl; passed = one_more at r is λ free. f })
        ]
  ]

  skip-Passed : Skip bits mmap 1 0 Passed
  skip-Passed i r is z = record {
    none_found = refl;
    passed = λ k lt free. elim (le_cases (i * 32) k) [
      | inr before ↦ is.passed k before free
      | inl within ↦
          let word : get_or bits (k / 32) 0 ≡ 0 = ap (λ t. get_or bits t 0) (omega arith) ∙ z in
          absurd (omega (arith, bit-zero (31 - k % 32), ap (λ w. bit w (31 - k % 32)) word))
    ];
  }

  start-Passed : Passed 0 (no_run 0)
  start-Passed = record { none_found = refl; passed = λ k lt free. absurd (omega arith) }

-- `pfa_allocate` of one frame returns 0 only if no frame of the map is free.
pub pfa_allocate_one-zero :
    {p : Pfa}
    → IsValid p
    → (pfa_allocate p 1).0 ≡ 0
    → (k : ℕ) → k < p.page_frames.len
    → frame p.page_frames.start k ≡ 0
unfolding find_run
pfa_allocate_one-zero {p} v failed k h = go (find_run p 1) refl search
  where
    bits : List ℕ
    bits = p.page_frames.start

    limit : ℕ
    limit = (0 + length (words p)) * 32

    search : Leaves (Passed bits p.mmap) (λ idx. Unit {0}) limit (find_run p 1)
    search =
        Loops.visit_cells-Leaves bits p.mmap 1 limit (Passed bits p.mmap) (λ idx. Unit {0})
          (visit_bit-Passed bits p.mmap limit) (skip-Passed bits p.mmap) (words p) 0 (no_run 0)
          (words_lem v) (start-Passed bits p.mmap) (omega arith)

    go :
        (o : Outcome)
        → find_run p 1 ≡ o
        → Leaves (Passed bits p.mmap) (λ idx. Unit {0}) limit (find_run p 1)
        → frame bits k ≡ 0
    go (allocates idx) e is = absurd (pfa_allocate-ne-zero 1 idx v (omega arith) e failed)
    go (goes_on r) e is =
        let is' = subst (Leaves (Passed bits p.mmap) (λ idx. Unit {0}) limit) e is in
        let fits = fits-one p.mmap k (regions0 v) (omega (arith, v.frames)) in
        elim (Bool-cases (frame bits k == 1)) [
          | inl free ↦ cc (is'.passed k (omega (arith, length-words_ge v)) (ground arith), fits)
          | inr taken ↦ ground (arith, bit-lt (get_or bits (k / 32) 0) (31 - k % 32))
        ]
