-- ===== src/Paging/Find.antt =====
-- paging.c: the virtual memory that `pt_kernel_find_next_vaddr` finds is free.
use aenix.Base.{
  ℕ, zero, suc, ◌+◌, ◌*◌, ◌/◌, ◌≤◌, ◌<◌, ◌≡◌, ◌⊎◌, refl, false, ◌||◌, inl, inr, arith, ◌==◌,
  if◌then◌else◌, mul32, Bool-cases, le_cases,
}
use aenix.Math.{align_up}
use aenix.Paging.Entry.{pte_present, pdt_entry_size, pt_entry_size}
use aenix.Paging.Table.{PageTable, is_tmp, find_next_loop, pt_kernel_find_next_vaddr}

-- `n` entries of the table that are neither present nor the temporary one, and the address of the
-- first.
pub record Hole (pdt_idx : ℕ) (pt : PageTable) (n vaddr : ℕ) : Type 0 where
  pub org : ℕ
  pub address : vaddr ≡ mul32 pdt_idx pdt_entry_size + org * pt_entry_size
  pub inside : org + n ≤ 1024
  pub free : (i : ℕ) → i < n → (pte_present (pt (org + i)) || is_tmp pdt_idx (org + i)) ≡ false

module _ (pdt_idx : ℕ) (pt : PageTable) (n : ℕ) where
  abbrev FreeFrom : (org found : ℕ) → Type 0
  FreeFrom org found =
      (i : ℕ) → i < found → (pte_present (pt (org + i)) || is_tmp pdt_idx (org + i)) ≡ false

  extend :
      (org found i : ℕ)
      → org + found ≡ i
      → FreeFrom org found
      → (pte_present (pt i) || is_tmp pdt_idx i) ≡ false
      → FreeFrom org (found + 1)
  extend org found i e free here k lt = elim (le_cases found k) [
    | inl le ↦ let at : org + k ≡ i = omega arith in rw at here
    | inr before ↦ free k before
  ]

  -- The run with one entry more, whose start is set where it was empty.
  extended :
      (found i org : ℕ)
      → (found ≡ 0) ⊎ (org + found ≡ i)
      → FreeFrom org found
      → (pte_present (pt i) || is_tmp pdt_idx i) ≡ false
      → ((if found == 0 then i else org) + (found + 1) ≡ i + 1)
        × FreeFrom (if found == 0 then i else org) (found + 1)
  extended found i org run free here = elim (Bool-cases (found == 0)) [
    | inl e ↦
        let none : 0 ≡ found = ground arith in
        rw e (ground arith, extend i found i (omega arith) (λ k lt. absurd (omega arith)) here)
    | inr e ↦
        let at : org + found ≡ i = grind arith in
        rw e (omega arith, extend org found i at free here)
  ]

  find_next_loop-Hole :
      (left i found org : ℕ)
      → i + left ≡ 1024
      → (found ≡ 0) ⊎ (org + found ≡ i)
      → FreeFrom org found
      → (find_next_loop left pdt_idx pt n i found org ≡ 0)
        ⊎ Hole pdt_idx pt n (find_next_loop left pdt_idx pt n i found org)
  unfolding find_next_loop
  find_next_loop-Hole zero i found org e run free = inl refl
  find_next_loop-Hole (suc left) i found org e run free =
      elim (Bool-cases (pte_present (pt i) || is_tmp pdt_idx i)) [
        | inl used ↦ rw used (
            find_next_loop-Hole left (i + 1) 0 org (omega arith) (inl refl)
              (λ k lt. absurd (omega arith)))
        | inr here ↦
            let org' = if found == 0 then i else org in
            let (at, free') = extended found i org run free here in
            elim (Bool-cases (found + 1 == n)) [
              | inl all ↦
                  rw (here, all)
                    (inr (record {
                      org = org';
                      address = refl;
                      inside = ground arith;
                      free = λ k lt. free' k (ground arith);
                    }))
              | inr more ↦
                  rw (here, more)
                    (find_next_loop-Hole left (i + 1) (found + 1) org' (omega arith) (inr at) free')
            ]
      ]

-- `pt_kernel_find_next_vaddr` returns 0, or the address of a hole of the pages that the size
-- needs: they are free, within the table, and none is the temporary entry.
pub pt_kernel_find_next_vaddr-Hole :
    (pdt_idx : ℕ) (pt : PageTable) (size : ℕ)
    → (pt_kernel_find_next_vaddr pdt_idx pt size ≡ 0)
      ⊎ Hole pdt_idx pt (align_up size 0x1000 / 0x1000) (pt_kernel_find_next_vaddr pdt_idx pt size)
unfolding pt_kernel_find_next_vaddr
pt_kernel_find_next_vaddr-Hole pdt_idx pt size =
    find_next_loop-Hole pdt_idx pt (align_up size 0x1000 / 0x1000) 1024 0 0 0 refl (inl refl)
      (λ i lt. absurd (omega arith))
