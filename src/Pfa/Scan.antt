-- ===== src/Pfa/Scan.antt =====
-- What the search loops of `pfa_allocate` find.
use aenix.Base.{
  ℕ, ◌+◌, ◌-◌, ◌*◌, ◌/◌, ◌%◌, ◌^◌, ◌≤◌, ◌<◌, ◌≡◌, ◌≢◌, refl, subst, true, List, inl, inr, arith,
  ◌==◌, Bool-cases, length, get_or,
}
use aenix.Pfa.{
  MemoryMap, Run, no_run, extend_run, visit_run, visit_bit, visit_cells, fits_in_one_mmap_entry,
}
use aenix.Pfa.Bitmap.{frame}
use aenix.Pfa.Loops
use aenix.Pfa.Loops.{Leaves, Step}

module _ (bits : List ℕ) where
  -- The `n` frames from `a` on are free.
  abbrev pub Free : ℕ → ℕ → Type 0
  Free a n = (j : ℕ) → a ≤ j → j < a + n → frame bits j ≡ 1

  -- The run that the loops hold when frame `at` is next: free frames that end just before it.
  pub record IsRun (at : ℕ) (r : Run) : Type 0 where
    pub ends : r.frames_found ≢ 0 → r.bit_idx + r.frames_found ≡ at
    pub free : Free r.bit_idx r.frames_found

  pub no_run-IsRun : (at idx : ℕ) → IsRun at (no_run idx)
  no_run-IsRun at idx = record { ends = λ h. absurd (h refl); free = λ j a b. absurd (omega arith) }

  extend_run-IsRun :
      (at : ℕ) (r : Run) → IsRun at r → frame bits at ≡ 1 → IsRun (at + 1) (extend_run r at)
  unfolding extend_run
  extend_run-IsRun at r is h = record {
    ends = λ _. ground arith;
    free = λ j a b. elim (Bool-cases (j == at)) [
      | inl e ↦ let same : j ≡ at = ground arith in rw same h
      | inr e ↦ is.free j (ground arith) (ground arith)
    ];
  }

  -- The run to allocate.
  abbrev pub IsFound : List MemoryMap → (num limit idx : ℕ) → Type 0
  IsFound mmap num limit idx =
      Free idx num × (fits_in_one_mmap_entry mmap idx num ≡ true) × (idx + num ≤ limit)

  module _ (mmap : List MemoryMap) (num limit : ℕ) where
    visit_run-Leaves :
        (at : ℕ) (r : Run)
        → IsRun at r
        → r.frames_found ≢ 0
        → at ≤ limit
        → Leaves IsRun (IsFound mmap num limit) at (visit_run mmap num r)
    unfolding visit_run
    visit_run-Leaves at r is ne h = elim (Bool-cases (r.frames_found == num)) [
      | inr e ↦ rw e is
      | inl e ↦
          let same : r.frames_found ≡ num = ground arith in
          elim (Bool-cases (fits_in_one_mmap_entry mmap r.bit_idx num)) [
            | inr f ↦ rw (e, f) (no_run-IsRun at r.bit_idx)
            | inl f ↦ rw (e, f) (subst (Free r.bit_idx) same is.free, f, omega (arith, is.ends ne))
          ]
    ]

    visit_bit-Leaves : Step bits mmap num limit IsRun (IsFound mmap num limit)
    unfolding visit_bit
    visit_bit-Leaves cell at j r is h same = elim (Bool-cases (cell / 2 ^ (31 - j) % 2 == 1)) [
      | inr e ↦ rw e (no_run-IsRun (at + 1) r.bit_idx)
      | inl e ↦ rw e (
          visit_run-Leaves (at + 1) (extend_run r at) (extend_run-IsRun at r is (ground arith))
            (omega arith) (omega arith))
    ]

    -- What the search over the words `cells`, those from index 0 on, finds.
    pub visit_cells-Leaves :
        (cells : List ℕ)
        → ((k : ℕ) → k < length cells → get_or bits (0 + k) 0 ≡ get_or cells k 0)
        → (0 + length cells) * 32 ≤ limit
        → Leaves IsRun
            (IsFound mmap num limit)
            ((0 + length cells) * 32)
            (visit_cells mmap num cells 0 (no_run 0))
    visit_cells-Leaves cells words =
        Loops.visit_cells-Leaves bits mmap num limit IsRun (IsFound mmap num limit) visit_bit-Leaves
          (λ i r is z. no_run-IsRun (i * 32 + 32) r.bit_idx) cells 0 (no_run 0) words
          (no_run-IsRun 0 0)
