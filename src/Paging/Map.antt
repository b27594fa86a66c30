-- ===== src/Paging/Map.antt =====
-- paging.c: what `pt_map_memory` enters in a page table, and what it leaves.
use aenix.Base.{
  ℕ, zero, suc, ◌+◌, ◌-◌, ◌*◌, ◌^◌, ◌≤◌, ◌<◌, ◌≡◌, ◌⊎◌, refl, ap, sym, subst, ◌∙◌, true, false,
  ◌||◌, inl, inr, arith, ◌==◌, add32, Bool-cases, le_cases, le→ltb, lt→ltb,
}
use aenix.Paging.Entry.{Pte, pte_present, create_pt_entry, virtual_to_pt_idx}
use aenix.Paging.Table.{PageTable, with_entry, Mapped, is_tmp, pt_map_loop, pt_map_memory}

-- A run of `pages` entries from `idx` on, which were free, leads to the frames from `paddr` on;
-- no other entry has changed. Of the `left` entries there are more only where the size is
-- reached, or the next entry is present or the temporary one.
pub record Maps (pt : PageTable) (pdt_idx idx left paddr size wr pl mapped : ℕ) (r : Mapped)
    : Type 0 where
  pub pages : ℕ
  pub bound : pages ≤ left
  pub size_of : r.mapped_size ≡ mapped + pages * 0x1000
  pub needed : (i : ℕ) → i < pages → mapped + i * 0x1000 < size
  pub were_free :
      (i : ℕ) → i < pages → (pte_present (pt (idx + i)) || is_tmp pdt_idx (idx + i)) ≡ false
  pub entries :
      (i : ℕ) → i < pages → r.table (idx + i) ≡ create_pt_entry (add32 paddr (i * 0x1000)) wr pl
  pub others : (j : ℕ) → (j < idx) ⊎ (idx + pages ≤ j) → r.table j ≡ pt j
  pub stopped :
      (pages ≡ left)
      ⊎ ((size ≤ r.mapped_size)
          ⊎ ((pte_present (pt (idx + pages)) || is_tmp pdt_idx (idx + pages)) ≡ true))

pub first_or_rest :
    (P : ℕ → ℕ → Type 0) (idx n : ℕ)
    → P 0 idx
    → ((i : ℕ) → i < n → P (suc i) (idx + 1 + i))
    → (i : ℕ) → i < suc n
    → P i (idx + i)
first_or_rest P idx n first rest zero lt =
    let here : idx ≡ idx + 0 = omega arith in subst (P 0) here first
first_or_rest P idx n first rest (suc i) lt =
    let here : idx + 1 + i ≡ idx + suc i = omega arith in
    subst (P (suc i)) here (rest i (omega arith))

pub other_entry :
    (pt : PageTable) (idx : ℕ) (e : Pte) (j : ℕ)
    → (j < idx) ⊎ (idx < j)
    → with_entry pt idx e j ≡ pt j
other_entry pt idx e j apart = let other : (j == idx) ≡ false = grind arith in rw other refl

module _ (pdt_idx size wr pl : ℕ) where
  Maps-none :
      (pt : PageTable) (idx left paddr mapped : ℕ)
      → (left ≡ 0) ⊎ ((size ≤ mapped) ⊎ ((pte_present (pt idx) || is_tmp pdt_idx idx) ≡ true))
      → Maps pt pdt_idx idx left paddr size wr pl mapped
          (record { mapped_size = mapped; table = pt })
  Maps-none pt idx left paddr mapped stop = record {
    pages = 0;
    bound = ground arith;
    size_of = omega arith;
    needed = λ i lt. absurd (omega arith);
    were_free = λ i lt. absurd (omega arith);
    entries = λ i lt. absurd (omega arith);
    others = λ j out. refl;
    stopped =
        let here : idx + 0 ≡ idx = omega arith in
        elim stop [
          | inl done ↦ inl (sym done)
          | inr why ↦ inr (elim why [ inl le ↦ inl le | inr met ↦ inr (rw here met) ])
        ];
  }

  Maps-more :
      (pt : PageTable) (idx left paddr mapped : ℕ) (r : Mapped)
      → mapped < size
      → paddr < 2 ^ 32
      → (pte_present (pt idx) || is_tmp pdt_idx idx) ≡ false
      → Maps
          (with_entry pt idx (create_pt_entry paddr wr pl))
          pdt_idx
          (idx + 1)
          left
          (add32 paddr 0x1000)
          size
          wr
          pl
          (mapped + 0x1000)
          r
      → Maps pt pdt_idx idx (suc left) paddr size wr pl mapped r
  Maps-more pt idx left paddr mapped r lt lt32 free m =
      let new = create_pt_entry paddr wr pl in
      let here : (idx == idx) ≡ true = ground arith in
      let start : add32 paddr 0 ≡ paddr = omega arith in
      record {
        pages = suc m.pages;
        bound = ground (arith, m.bound);
        size_of = omega (arith, m.size_of);
        needed =
            first_or_rest (λ i j. mapped + i * 0x1000 < size) idx m.pages (omega arith)
              λ i lt'. omega (arith, m.needed i lt');
        were_free =
            first_or_rest (λ i j. (pte_present (pt j) || is_tmp pdt_idx j) ≡ false) idx m.pages free
              λ i lt'.
                ap (λ (e : Pte). pte_present e || is_tmp pdt_idx (idx + 1 + i))
                  (sym (other_entry pt idx new (idx + 1 + i) (inr (omega arith))))
                ∙ m.were_free i lt';
        entries =
            first_or_rest (λ i j. r.table j ≡ create_pt_entry (add32 paddr (i * 0x1000)) wr pl) idx
              m.pages
              (m.others idx (inl (omega arith))
                ∙ (rw here (ap (λ a. create_pt_entry a wr pl) (sym start))))
              λ i lt'. m.entries i lt' ∙ ap (λ a. create_pt_entry a wr pl) (omega arith);
        others = λ j out. m.others j (grind arith) ∙ other_entry pt idx new j (grind arith);
        stopped = elim m.stopped [
          | inl done ↦ inl (ap suc done)
          | inr why ↦ inr (elim why [
            | inl le ↦ inl le
            | inr met ↦ inr (
                let next : idx + suc m.pages ≡ idx + 1 + m.pages = omega arith in
                rw next (
                  ap (λ (e : Pte). pte_present e || is_tmp pdt_idx (idx + 1 + m.pages))
                    (sym (other_entry pt idx new (idx + 1 + m.pages) (inr (omega arith))))
                  ∙ met))
          ])
        ];
      }

  pt_map_loop-Maps :
      (left : ℕ) (pt : PageTable) (idx paddr mapped : ℕ)
      → mapped + left * 0x1000 < 2 ^ 32
      → paddr < 2 ^ 32
      → Maps pt pdt_idx idx left paddr size wr pl mapped
          (pt_map_loop left pt pdt_idx idx paddr size wr pl mapped)
  unfolding pt_map_loop
  pt_map_loop-Maps zero pt idx paddr mapped lt lt32 = Maps-none pt idx 0 paddr mapped (inl refl)
  pt_map_loop-Maps (suc left) pt idx paddr mapped lt lt32 = elim (le_cases size mapped) [
    | inl le ↦ rw (le→ltb mapped size le) (Maps-none pt idx (suc left) paddr mapped (inr (inl le)))
    | inr more ↦ elim (Bool-cases (pte_present (pt idx) || is_tmp pdt_idx idx)) [
      | inl met ↦
          rw (lt→ltb mapped size more, met)
            (Maps-none pt idx (suc left) paddr mapped (inr (inr met)))
      | inr free ↦
          let next : add32 mapped 0x1000 ≡ mapped + 0x1000 = omega arith in
          rw (lt→ltb mapped size more, free, next)
            (Maps-more pt idx left paddr mapped _ more lt32 free (
              pt_map_loop-Maps left (with_entry pt idx (create_pt_entry paddr wr pl)) (idx + 1)
                (add32 paddr 0x1000) (mapped + 0x1000) (omega arith) (omega arith)))
    ]
  ]

-- `pt_map_memory` enters a run of pages from the address's index on, in entries that were free,
-- and changes no other entry, so that no mapping is overwritten and the temporary entry stays.
-- It stops short of the size only at the end of the table, at a present entry or at the temporary
-- one, and returns the bytes that it mapped.
pub pt_map_memory-Maps :
    (pt : PageTable) (pdt_idx paddr vaddr size wr pl : ℕ)
    → paddr < 2 ^ 32
    → Maps pt pdt_idx
        (virtual_to_pt_idx vaddr)
        (1024 - virtual_to_pt_idx vaddr)
        paddr
        size
        wr
        pl
        0
        (pt_map_memory pt pdt_idx paddr vaddr size wr pl)
unfolding pt_map_memory
pt_map_memory-Maps pt pdt_idx paddr vaddr size wr pl lt =
    pt_map_loop-Maps pdt_idx size wr pl (1024 - virtual_to_pt_idx vaddr) pt
      (virtual_to_pt_idx vaddr) paddr 0 (omega arith) lt
