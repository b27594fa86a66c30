-- ===== src/Paging/Unmap.antt =====
-- paging.c: what `pt_unmap_memory` clears, and that it undoes `pt_map_memory`.
use aenix.Base.{
  ℕ, zero, suc, ◌+◌, ◌-◌, ◌*◌, ◌^◌, ◌≤◌, ◌<◌, ◌≡◌, ◌⊎◌, refl, ap, sym, ◌∙◌, true, false, inl, inr,
  arith, ◌==◌, if◌then◌else◌, add32, Bool-cases, le_cases, le→ltb, lt→ltb,
}
use aenix.Paging.Entry.{Pte, empty_pte, pte_present, virtual_to_pt_idx}
use aenix.Paging.Table.{
  PageTable, with_entry, Mapped, is_tmp, pt_map_memory, pt_unmap_loop, pt_unmap_memory,
}
use aenix.Paging.Map.{Maps, pt_map_memory-Maps, first_or_rest, other_entry}

-- `pages` entries from `idx` on are not present any more, and no other entry has changed. There
-- are fewer than `left` only where the size is reached or the next entry is the temporary one.
pub record Clears (pt : PageTable) (pdt_idx idx left size freed : ℕ) (r : Mapped) : Type 0 where
  pub pages : ℕ
  pub bound : pages ≤ left
  pub size_of : r.mapped_size ≡ freed + pages * 0x1000
  pub needed : (i : ℕ) → i < pages → freed + i * 0x1000 < size
  pub not_tmp : (i : ℕ) → i < pages → is_tmp pdt_idx (idx + i) ≡ false
  pub cleared : (i : ℕ) → i < pages → pte_present (r.table (idx + i)) ≡ false
  pub others : (j : ℕ) → (j < idx) ⊎ (idx + pages ≤ j) → r.table j ≡ pt j
  pub stopped : (pages ≡ left) ⊎ ((size ≤ r.mapped_size) ⊎ (is_tmp pdt_idx (idx + pages) ≡ true))

abbrev clear_entry : PageTable → ℕ → PageTable
clear_entry pt idx = if pte_present (pt idx) then with_entry pt idx empty_pte else pt

clear_entry-other :
    (pt : PageTable) (idx j : ℕ) → (j < idx) ⊎ (idx < j) → clear_entry pt idx j ≡ pt j
clear_entry-other pt idx j apart = elim (Bool-cases (pte_present (pt idx))) [
  | inl e ↦ rw e (other_entry pt idx empty_pte j apart)
  | inr e ↦ rw e refl
]

clear_entry_self : (pt : PageTable) (idx : ℕ) → pte_present (clear_entry pt idx idx) ≡ false
clear_entry_self pt idx = elim (Bool-cases (pte_present (pt idx))) [
  | inl e ↦ let here : (idx == idx) ≡ true = ground arith in rw (e, here) refl
  | inr e ↦ rw e e
]

module _ (pdt_idx size : ℕ) where
  Clears-none :
      (pt : PageTable) (idx left freed : ℕ)
      → (left ≡ 0) ⊎ ((size ≤ freed) ⊎ (is_tmp pdt_idx idx ≡ true))
      → Clears pt pdt_idx idx left size freed (record { mapped_size = freed; table = pt })
  Clears-none pt idx left freed stop = record {
    pages = 0;
    bound = ground arith;
    size_of = omega arith;
    needed = λ i lt. absurd (omega arith);
    not_tmp = λ i lt. absurd (omega arith);
    cleared = λ i lt. absurd (omega arith);
    others = λ j out. refl;
    stopped =
        let here : idx + 0 ≡ idx = omega arith in
        elim stop [
          | inl done ↦ inl (sym done)
          | inr why ↦ inr (elim why [ inl le ↦ inl le | inr met ↦ inr (rw here met) ])
        ];
  }

  Clears-more :
      (pt : PageTable) (idx left freed : ℕ) (r : Mapped)
      → freed < size
      → is_tmp pdt_idx idx ≡ false
      → Clears (clear_entry pt idx) pdt_idx (idx + 1) left size (freed + 0x1000) r
      → Clears pt pdt_idx idx (suc left) size freed r
  Clears-more pt idx left freed r lt free m = record {
    pages = suc m.pages;
    bound = ground (arith, m.bound);
    size_of = omega (arith, m.size_of);
    needed =
        first_or_rest (λ i j. freed + i * 0x1000 < size) idx m.pages (omega arith)
          λ i lt'. omega (arith, m.needed i lt');
    not_tmp = first_or_rest (λ i j. is_tmp pdt_idx j ≡ false) idx m.pages free m.not_tmp;
    cleared =
        first_or_rest (λ i j. pte_present (r.table j) ≡ false) idx m.pages
          (ap (λ (e : Pte). pte_present e) (m.others idx (inl (omega arith)))
            ∙ clear_entry_self pt idx)
          m.cleared;
    others = λ j out. m.others j (grind arith) ∙ clear_entry-other pt idx j (grind arith);
    stopped = elim m.stopped [
      | inl done ↦ inl (ap suc done)
      | inr why ↦ inr (elim why [
        | inl le ↦ inl le
        | inr met ↦
            inr (let next : idx + suc m.pages ≡ idx + 1 + m.pages = omega arith in rw next met)
      ])
    ];
  }

  pt_unmap_loop-Clears :
      (left : ℕ) (pt : PageTable) (idx freed : ℕ)
      → freed + left * 0x1000 < 2 ^ 32
      → Clears pt pdt_idx idx left size freed (pt_unmap_loop left pt pdt_idx idx size freed)
  unfolding pt_unmap_loop
  pt_unmap_loop-Clears zero pt idx freed lt = Clears-none pt idx 0 freed (inl refl)
  pt_unmap_loop-Clears (suc left) pt idx freed lt = elim (le_cases size freed) [
    | inl le ↦ rw (le→ltb freed size le) (Clears-none pt idx (suc left) freed (inr (inl le)))
    | inr more ↦ elim (Bool-cases (is_tmp pdt_idx idx)) [
      | inl met ↦
          rw (lt→ltb freed size more, met) (Clears-none pt idx (suc left) freed (inr (inr met)))
      | inr free ↦
          let next : add32 freed 0x1000 ≡ freed + 0x1000 = omega arith in
          rw (lt→ltb freed size more, free, next)
            (Clears-more pt idx left freed _ more free (
              pt_unmap_loop-Clears left (clear_entry pt idx) (idx + 1) (freed + 0x1000)
                (omega arith)))
    ]
  ]

-- `pt_unmap_memory` takes a run of entries from the address's index on out of the table, and
-- changes no other entry. It stops short of the size only at the end of the table or at the
-- temporary entry, which it spares, and returns the bytes that it went over.
pub pt_unmap_memory-Clears :
    (pt : PageTable) (pdt_idx vaddr size : ℕ)
    → Clears pt pdt_idx
        (virtual_to_pt_idx vaddr)
        (1024 - virtual_to_pt_idx vaddr)
        size
        0
        (pt_unmap_memory pt pdt_idx vaddr size)
unfolding pt_unmap_memory
pt_unmap_memory-Clears pt pdt_idx vaddr size =
    pt_unmap_loop-Clears pdt_idx size (1024 - virtual_to_pt_idx vaddr) pt (virtual_to_pt_idx vaddr)
      0 (omega arith)

-- Unmapping goes over the same pages as the mapping before.
same_pages :
    (pt : PageTable) (pdt_idx idx left paddr size wr pl : ℕ) (r r' : Mapped)
    → (m : Maps pt pdt_idx idx left paddr size wr pl 0 r)
    → (c : Clears r.table pdt_idx idx left r.mapped_size 0 r') → c.pages ≡ m.pages
same_pages pt pdt_idx idx left paddr size wr pl r r' m c =
    let at_most : c.pages ≤ m.pages = elim (le_cases c.pages m.pages) [
      | inl le ↦ le
      | inr gt ↦ absurd (omega (arith, c.needed m.pages gt, m.size_of))
    ] in
    let at_least : m.pages ≤ c.pages = elim (le_cases m.pages c.pages) [
      | inl le ↦ le
      | inr gt ↦ elim c.stopped [
        | inl all ↦ absurd (omega (arith, all, m.bound))
        | inr why ↦ elim why [
          | inl le ↦ omega (arith, le, m.size_of, c.size_of)
          | inr met ↦ absurd (ground (arith, m.were_free c.pages gt, met))
        ]
      ]
    ] in
    omega arith

-- Unmapping what `pt_map_memory` has mapped leaves exactly the entries present that were so
-- before: the bytes that it returned are the size to unmap.
pub pt_unmap_memory-pt_map_memory :
    (pt : PageTable) (pdt_idx paddr vaddr size wr pl : ℕ)
    → paddr < 2 ^ 32
    → (j : ℕ)
    → pte_present (
        (pt_unmap_memory
            (pt_map_memory pt pdt_idx paddr vaddr size wr pl).table
            pdt_idx
            vaddr
            (pt_map_memory pt pdt_idx paddr vaddr size wr pl).mapped_size).table
          j)
      ≡ pte_present (pt j)
pt_unmap_memory-pt_map_memory pt pdt_idx paddr vaddr size wr pl lt j =
    let mapped = pt_map_memory pt pdt_idx paddr vaddr size wr pl in
    let m = pt_map_memory-Maps pt pdt_idx paddr vaddr size wr pl lt in
    let c = pt_unmap_memory-Clears mapped.table pdt_idx vaddr mapped.mapped_size in
    let idx = virtual_to_pt_idx vaddr in
    let same = same_pages pt pdt_idx idx (1024 - idx) paddr size wr pl mapped _ m c in
    elim (le_cases idx j) [
      | inr before ↦
          ap (λ (e : Pte). pte_present e) (c.others j (inl before) ∙ m.others j (inl before))
      | inl from ↦ elim (le_cases (idx + m.pages) j) [
        | inl after ↦
            ap (λ (e : Pte). pte_present e)
              (c.others j (inr (omega arith)) ∙ m.others j (inr after))
        | inr within ↦
            let at : idx + (j - idx) ≡ j = omega arith in
            let free : pte_present (pt j) ≡ false =
              rw⁻¹ at (ground (arith, m.were_free (j - idx) (omega arith))) in
            let gone = c.cleared (j - idx) (omega arith) in
            ap
              (λ k.
                pte_present
                  ((pt_unmap_memory mapped.table pdt_idx vaddr mapped.mapped_size).table k))
              (sym at)
            ∙ gone
            ∙ sym free
      ]
    ]
