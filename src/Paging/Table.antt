-- ===== src/Paging/Table.antt =====
-- paging.c: mapping, unmapping and searching in one page table.
use aenix.Base.{
  ℕ, zero, suc, ◌+◌, ◌-◌, ◌*◌, ◌/◌, Bool, not, ◌&&◌, ◌||◌, ltb, ◌==◌, if◌then◌else◌, add32, mul32,
}
use aenix.Math.{align_up}
use aenix.Paging.Entry.{
  Pte, empty_pte, pt_entry_size, pdt_entry_size, num_entries, kernel_tmp_pt_idx, kernel_pt_pdt_idx,
  virtual_to_pt_idx, pte_present, create_pt_entry,
}

abbrev pub PageTable : Type 0
PageTable = ℕ → Pte

abbrev pub empty_table : PageTable
empty_table i = empty_pte

abbrev pub with_entry : PageTable → ℕ → Pte → PageTable
with_entry pt idx e i = if i == idx then e else pt i

-- The bytes that were mapped (or unmapped), and the page table.
pub record Mapped : Type 0 where
  pub mapped_size : ℕ
  pub table : PageTable

-- The entry for the temporary memory of the kernel.
abbrev pub is_tmp : (pdt_idx pt_idx : ℕ) → Bool
is_tmp pdt_idx pt_idx = (pdt_idx == kernel_pt_pdt_idx) && (pt_idx == kernel_tmp_pt_idx)

-- `left` is NUM_ENTRIES - `pt_idx`.
unfoldable pub pt_map_loop :
    (left : ℕ) → PageTable → (pdt_idx pt_idx paddr size rw pl mapped : ℕ) → Mapped
pt_map_loop zero pt pdt_idx pt_idx paddr size rw pl mapped = record {
  mapped_size = mapped;
  table = pt;
}
pt_map_loop (suc left) pt pdt_idx pt_idx paddr size rw pl mapped =
    let rest =
      pt_map_loop left (with_entry pt pt_idx (create_pt_entry paddr rw pl)) pdt_idx (pt_idx + 1)
        (add32 paddr pt_entry_size) size rw pl (add32 mapped pt_entry_size) in
    if ltb mapped size && not (pte_present (pt pt_idx) || is_tmp pdt_idx pt_idx)
    then rest
    else record { mapped_size = mapped; table = pt }

unfoldable pub pt_map_memory : PageTable → (pdt_idx paddr vaddr size rw pl : ℕ) → Mapped
pt_map_memory pt pdt_idx paddr vaddr size rw pl =
    let pt_idx = virtual_to_pt_idx vaddr in
    pt_map_loop (num_entries - pt_idx) pt pdt_idx pt_idx paddr size rw pl 0

unfoldable pub pt_unmap_loop : (left : ℕ) → PageTable → (pdt_idx pt_idx size freed : ℕ) → Mapped
pt_unmap_loop zero pt pdt_idx pt_idx size freed = record { mapped_size = freed; table = pt }
pt_unmap_loop (suc left) pt pdt_idx pt_idx size freed =
    let pt' = if pte_present (pt pt_idx) then with_entry pt pt_idx empty_pte else pt in
    let rest = pt_unmap_loop left pt' pdt_idx (pt_idx + 1) size (add32 freed pt_entry_size) in
    if ltb freed size && not (is_tmp pdt_idx pt_idx)
    then rest
    else record { mapped_size = freed; table = pt }

unfoldable pub pt_unmap_memory : PageTable → (pdt_idx vaddr size : ℕ) → Mapped
pt_unmap_memory pt pdt_idx vaddr size =
    let pt_idx = virtual_to_pt_idx vaddr in
    pt_unmap_loop (num_entries - pt_idx) pt pdt_idx pt_idx size 0

-- `org_i` is not set before the first free entry, and not read.
unfoldable pub find_next_loop :
    (left : ℕ) → (pdt_idx : ℕ) → PageTable → (num_to_find i num_found org_i : ℕ) → ℕ
find_next_loop zero pdt_idx pt num_to_find i num_found org_i = 0
find_next_loop (suc left) pdt_idx pt num_to_find i num_found org_i =
    let used = pte_present (pt i) || is_tmp pdt_idx i in
    let found = if used then 0 else num_found + 1 in
    let org = if not used && (num_found == 0) then i else org_i in
    let rest = find_next_loop left pdt_idx pt num_to_find (i + 1) found org in
    if not used && (found == num_to_find)
    then mul32 pdt_idx pdt_entry_size + org * pt_entry_size
    else rest

unfoldable pub pt_kernel_find_next_vaddr : (pdt_idx : ℕ) → PageTable → (size : ℕ) → ℕ
pt_kernel_find_next_vaddr pdt_idx pt size =
    find_next_loop num_entries pdt_idx pt (align_up size 0x1000 / 0x1000) 0 0 0
