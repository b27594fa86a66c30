-- ===== src/Paging/Whole.antt =====
-- paging.c: the loop of `pdt_map_memory` ends.
use aenix.Base.{
  ℕ, zero, suc, ◌+◌, ◌-◌, ◌*◌, ◌/◌, ◌%◌, ◌^◌, ◌≤◌, ◌<◌, ◌≡◌, ◌⊎◌, inl, inr, refl, subst, not,
  Option, none, some, arith, ◌==◌, add32, sub32, Bool-cases,
}
use aenix.Math.{align_up}
use aenix.Math.Laws.{align_up_lem}
use aenix.Paging.Entry.{Pte, virtual_to_pdt_idx, pde_present}
use aenix.Paging.Table.{PageTable, Mapped, pt_map_memory}
use aenix.Paging.Map.{Maps, pt_map_memory-Maps}
use aenix.Paging.{
  Paging, open_table, map_in_table, map_round, map_loop, pdt_map_memory, tmp_frame,
  kernel_get_temporary_entry,
}

-- Whole pages, of which only the last may reach beyond the size.
abbrev Pages : (size mapped : ℕ) → Type 0
Pages size mapped = (n : ℕ) × (mapped ≡ n * 0x1000) × (mapped < size + 0x1000)

Maps-Pages :
    {pt : PageTable} {pdt_idx idx left paddr size wr pl : ℕ} {r : Mapped}
    → Maps pt pdt_idx idx left paddr size wr pl 0 r
    → Pages size r.mapped_size
Maps-Pages {size = size} m = few m.pages m.needed m.size_of
  where
    few :
        (n : ℕ) {mapped : ℕ}
        → ((i : ℕ) → i < n → 0 + i * 0x1000 < size)
        → mapped ≡ 0 + n * 0x1000
        → Pages size mapped
    few zero needed e = (0, omega (arith, e), omega (arith, e))
    few (suc n) needed e = (suc n, omega (arith, e), omega (arith, e, needed n (omega arith)))

module _ (pdt : ℕ) (rw' pl : ℕ) where
  map_in_table-Pages :
      (s : Paging) (paddr vaddr size : ℕ) (tmp_entry : Pte) (table : Option ℕ)
      → paddr < 2 ^ 32
      → Pages size (map_in_table s pdt paddr vaddr size rw' pl tmp_entry table).0
  unfolding map_in_table
  map_in_table-Pages s paddr vaddr size tmp_entry none lt = (0, refl, omega arith)
  map_in_table-Pages s paddr vaddr size tmp_entry (some pt_paddr) lt =
      let pdt_idx = virtual_to_pdt_idx vaddr in
      let pt = s.frames (tmp_frame s) in
      let m = pt_map_memory pt pdt_idx paddr vaddr size rw' pl in
      let pages = Maps-Pages (pt_map_memory-Maps pt pdt_idx paddr vaddr size rw' pl lt) in
      elim (Bool-cases (m.mapped_size == 0)) [
        | inl e ↦ rw e (0, refl, omega arith)
        | inr e ↦ elim (Bool-cases (not (pde_present (s.pdts pdt pdt_idx)))) [
          | inl new ↦ rw (e, new) pages
          | inr old ↦ rw (e, old) pages
        ]
      ]

  map_round-Pages :
      (s : Paging) (paddr vaddr size : ℕ)
      → paddr < 2 ^ 32
      → Pages size (map_round s pdt paddr vaddr size rw' pl).0
  unfolding map_round
  map_round-Pages s paddr vaddr size lt =
      map_in_table-Pages (open_table s pdt (virtual_to_pdt_idx vaddr)).1 paddr vaddr size
        (kernel_get_temporary_entry s) (open_table s pdt (virtual_to_pdt_idx vaddr)).0 lt

  -- A result is there, with 0 or `size` as its number.
  abbrev pub Finishes : (size : ℕ) → Option (ℕ × Paging) → Type 0
  Finishes size o = (r : ℕ × Paging) × (o ≡ some r) × ((r.0 ≡ 0) ⊎ (r.0 ≡ size))

  map_loop-Finishes :
      (fuel : ℕ) (s : Paging) (paddr vaddr size total : ℕ)
      → paddr < 2 ^ 32
      → size % 0x1000 ≡ 0
      → total + size < 2 ^ 32
      → size / 0x1000 < fuel
      → Finishes (total + size) (map_loop fuel s pdt paddr vaddr size rw' pl total)
  unfolding map_loop
  map_loop-Finishes zero s paddr vaddr size total lt whole small enough = absurd (omega arith)
  map_loop-Finishes (suc fuel) s paddr vaddr size total lt whole small enough =
      let r = map_round s pdt paddr vaddr size rw' pl in
      let (n, pages, near) = map_round-Pages s paddr vaddr size lt in
      elim (Bool-cases (size == 0)) [
        | inl e ↦
            let nothing : size ≡ 0 = ground arith in
            rw e ((total, s), refl, inr (omega (arith, nothing)))
        | inr e ↦ elim (Bool-cases (r.0 == 0)) [
          | inl z ↦ rw (e, z) ((0, r.1), refl, inl refl)
          | inr nz ↦
              let pos : 0 < r.0 = ground arith in
              let le : r.0 ≤ size = omega (arith, pages, near) in
              let less : sub32 size r.0 ≡ size - r.0 = omega (arith, le) in
              let more : add32 total r.0 ≡ total + r.0 = omega (arith, le) in
              let sum : total + r.0 + (size - r.0) ≡ total + size = omega (arith, le) in
              rw (e, nz, less, more)
                (subst
                  (λ t. Finishes t (
                    map_loop fuel r.1 pdt (add32 paddr r.0) (add32 vaddr r.0) (size - r.0) rw' pl
                      (total + r.0)))
                  sum
                  (map_loop-Finishes fuel r.1 (add32 paddr r.0) (add32 vaddr r.0) (size - r.0)
                    (total + r.0) (omega arith) (omega (arith, pages, le)) (omega (arith, le))
                    (omega (arith, pages, pos, le))))
        ]
      ]

  -- With more fuel than pages `pdt_map_memory` ends: it returns 0, or the size rounded up to pages,
  -- where the address is one of 32 bits and the rounding does not wrap.
  pub pdt_map_memory-Finishes :
      (fuel : ℕ) (s : Paging) (paddr vaddr size : ℕ)
      → paddr < 2 ^ 32
      → size + 0x1000 ≤ 2 ^ 32
      → align_up size 0x1000 / 0x1000 < fuel
      → Finishes (align_up size 0x1000) (pdt_map_memory fuel s pdt paddr vaddr size rw' pl)
  unfolding pdt_map_memory
  pdt_map_memory-Finishes fuel s paddr vaddr size lt small enough =
      let (whole, above, near) = align_up_lem size 0x1000 (omega arith) (omega arith) in
      let start : 0 + align_up size 0x1000 ≡ align_up size 0x1000 = omega arith in
      subst (λ t. Finishes t (map_loop fuel s pdt paddr vaddr (align_up size 0x1000) rw' pl 0))
        start
        (map_loop-Finishes fuel s paddr vaddr (align_up size 0x1000) 0 lt whole
          (omega (arith, near)) enough)
