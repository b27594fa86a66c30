-- ===== src/Pfa/Loops.antt =====
-- The rule for the two search loops of `pfa_allocate`: what holds at each frame, and of the run
-- that they end with.
use aenix.Base.{
  ℕ, zero, suc, ◌+◌, ◌-◌, ◌*◌, ◌/◌, ◌%◌, ◌^◌, ◌≤◌, ◌<◌, ◌≡◌, refl, ap, subst, ◌∙◌, List, [], ◌∷◌,
  inl, inr, arith, ◌==◌, if◌then◌else◌, Bool-cases, length, get_or,
}
use aenix.Base.Bits.{bit-shift}
use aenix.Pfa.{
  MemoryMap, Run, no_run, Outcome, allocates, goes_on, and_then, visit_bit, visit_cell, visit_cells,
}
use aenix.Pfa.Bitmap.{frame}

-- `Done` of the run to allocate, or `Inv` when frame `at` is next.
abbrev pub Leaves : (ℕ → Run → Type 0) → (ℕ → Type 0) → ℕ → Outcome → Type 0
Leaves Inv Done at (allocates idx) = Done idx
Leaves Inv Done at (goes_on r) = Inv at r

module _ (bits : List ℕ) (mmap : List MemoryMap) (num limit : ℕ) where
  abbrev pub Step : (ℕ → Run → Type 0) → (ℕ → Type 0) → Type 0
  Step Inv Done =
      (cell at j : ℕ) (r : Run)
      → Inv at r
      → at < limit
      → cell / 2 ^ (31 - j) % 2 ≡ frame bits at
      → Leaves Inv Done (at + 1) (visit_bit mmap num cell at j r)

  -- A word of zeros is passed over.
  abbrev pub Skip : (ℕ → Run → Type 0) → Type 0
  Skip Inv =
      (i : ℕ) (r : Run)
      → Inv (i * 32) r
      → get_or bits i 0 ≡ 0
      → Inv (i * 32 + 32) (no_run r.bit_idx)

  module _ (Inv : ℕ → Run → Type 0) (Done : ℕ → Type 0) (step : Step Inv Done)
      (skip : Skip Inv) where
    and_then-Leaves :
        (at at' : ℕ) (o : Outcome) (k : Run → Outcome)
        → Leaves Inv Done at o
        → ((r : Run) → Inv at r → Leaves Inv Done at' (k r))
        → Leaves Inv Done at' (and_then o k)
    and_then-Leaves at at' (allocates idx) k is next = is
    and_then-Leaves at at' (goes_on r) k is next = next r is

    visit_cell-Leaves :
        (cell i rounds j : ℕ) (r : Run)
        → j + rounds ≡ 32
        → Inv (i * 32 + j) r
        → i * 32 + 32 ≤ limit
        → get_or bits i 0 ≡ cell
        → Leaves Inv Done (i * 32 + 32) (visit_cell mmap num cell i rounds j r)
    unfolding visit_cell
    visit_cell-Leaves cell i zero j r e is h w = subst (λ t. Inv t r) (omega arith) is
    visit_cell-Leaves cell i (suc rounds) j r e is h w =
        and_then-Leaves (i * 32 + j + 1) (i * 32 + 32) _ _
          (step cell (i * 32 + j) j r is (omega arith) digit)
          λ r' is'.
            visit_cell-Leaves cell i rounds (j + 1) r' (omega arith)
              (subst (λ t. Inv t r') (omega arith) is') h w
      where
        digit : cell / 2 ^ (31 - j) % 2 ≡ frame bits (i * 32 + j)
        digit =
            let word : (i * 32 + j) / 32 ≡ i = omega arith in
            let place : (i * 32 + j) % 32 ≡ j = omega arith in
            rw (word, place, w) (bit-shift cell (31 - j))

    -- The words from index `i` on are `cells`, and the loop ends with the last of them.
    pub visit_cells-Leaves :
        (cells : List ℕ) (i : ℕ) (r : Run)
        → ((k : ℕ) → k < length cells → get_or bits (i + k) 0 ≡ get_or cells k 0)
        → Inv (i * 32) r
        → (i + length cells) * 32 ≤ limit
        → Leaves Inv Done ((i + length cells) * 32) (visit_cells mmap num cells i r)
    unfolding visit_cells
    visit_cells-Leaves [] i r words is h = subst (λ t. Inv t r) (omega arith) is
    visit_cells-Leaves (cell ∷ cells) i r words is h =
        and_then-Leaves (i * 32 + 32) ((i + length (cell ∷ cells)) * 32) _ _ first λ r' is'.
          subst (λ t. Leaves Inv Done t (visit_cells mmap num cells (i + 1) r')) (omega arith)
            (visit_cells-Leaves cells (i + 1) r' later (subst (λ t. Inv t r') (omega arith) is')
              (omega arith))
      where
        word : get_or bits i 0 ≡ cell
        word = ap (λ t. get_or bits t 0) (omega arith) ∙ words 0 (omega arith)

        first :
            Leaves Inv Done
              (i * 32 + 32)
              (if cell == 0 then goes_on (no_run r.bit_idx) else visit_cell mmap num cell i 32 0 r)
        first = elim (Bool-cases (cell == 0)) [
          | inl e ↦ rw e (skip i r (subst (λ t. Inv t r) (omega arith) is) (word ∙ ground arith))
          | inr e ↦ rw e (
              visit_cell-Leaves cell i 32 0 r refl (subst (λ t. Inv t r) (omega arith) is)
                (omega arith) word)
        ]

        later : (k : ℕ) → k < length cells → get_or bits (i + 1 + k) 0 ≡ get_or cells k 0
        later k lt = ap (λ t. get_or bits t 0) (omega arith) ∙ words (suc k) (omega arith)
