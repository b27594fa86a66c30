-- ===== src/Paging/Examples.antt =====
-- Page tables and directories that the theorems on paging.c are applied to.
use aenix.Base.{
  ℕ, ◌/◌, ◌≡◌, ◌⊎◌, refl, Bool, true, false, ◌&&◌, List, [], ◌∷◌, Option, none, some, arith, ◌==◌,
  if◌then◌else◌,
}
use aenix.Math.{align_up}
use aenix.Paging.Entry.{
  empty_pde, pte_present, create_pdt_entry, create_pt_entry, get_pt_paddr, get_pf_paddr,
}
use aenix.Paging.Table.{
  PageTable, empty_table, with_entry, pt_map_memory, pt_map_loop, pt_unmap_memory, pt_unmap_loop,
  find_next_loop, pt_kernel_find_next_vaddr,
}
use aenix.Paging.Map.{Maps, pt_map_memory-Maps}
use aenix.Paging.Unmap.{pt_unmap_memory-pt_map_memory}
use aenix.Paging.Find.{Hole, pt_kernel_find_next_vaddr-Hole}
use aenix.Paging.{
  pdt_map_memory, map_loop, map_round, open_table, map_in_table, Paging, pdt_unmap_memory,
  unmap_loop, unmap_round, kernel_get_temporary_entry, kernel_set_temporary_entry,
  kernel_map_temporary_memory, tmp_frame,
}

-- The fourth entry is present.
abbrev table : PageTable
table = with_entry empty_table 3 (create_pt_entry 0x5000 1 1)

pt_map_memory-Maps_example :
    Maps table 0 1 1023 0x10_0000 0x4000 1 1 0 (pt_map_memory table 0 0x10_0000 0x1000 0x4000 1 1)
pt_map_memory-Maps_example = pt_map_memory-Maps table 0 0x10_0000 0x1000 0x4000 1 1 (omega arith)

-- It maps two of the four pages, and the second leads to the second frame.
maps_two :
    ((pt_map_memory table 0 0x10_0000 0x1000 0x4000 1 1).mapped_size ≡ 0x2000)
    × (get_pf_paddr ((pt_map_memory table 0 0x10_0000 0x1000 0x4000 1 1).table 2) ≡ 0x10_1000)
unfolding pt_map_memory pt_map_loop create_pt_entry get_pf_paddr
maps_two = (refl, refl)

pt_unmap_memory-pt_map_memory_example :
    pte_present (
      (pt_unmap_memory
          (pt_map_memory table 0 0x10_0000 0x1000 0x4000 1 1).table
          0
          0x1000
          (pt_map_memory table 0 0x10_0000 0x1000 0x4000 1 1).mapped_size).table
        2)
    ≡ false
unfolding create_pt_entry
pt_unmap_memory-pt_map_memory_example =
    pt_unmap_memory-pt_map_memory table 0 0x10_0000 0x1000 0x4000 1 1 (omega arith) 2

pt_kernel_find_next_vaddr-Hole_example :
    (pt_kernel_find_next_vaddr 768 table 0x2000 ≡ 0)
    ⊎ Hole 768 table (align_up 0x2000 0x1000 / 0x1000) (pt_kernel_find_next_vaddr 768 table 0x2000)
pt_kernel_find_next_vaddr-Hole_example = pt_kernel_find_next_vaddr-Hole 768 table 0x2000

finds_first : pt_kernel_find_next_vaddr 768 table 0x2000 ≡ 0xc000_0000
unfolding pt_kernel_find_next_vaddr find_next_loop create_pt_entry align_up
finds_first = refl

-- A process's directory at 0xc0100000 beside the kernel's.
abbrev state : Paging
state = record {
  frames = λ paddr. table;
  pdts = λ pdt i.
      if (pdt == 0xc010_1000) && (i == 768) then create_pdt_entry 0x5000 0 1 0 else empty_pde;
  kernel_pdt = 0xc010_1000;
  kernel_pt = 0x5000;
  pfa = record { page_frames = record { start = []; len = 0 }; mmap = [] };
}

-- Two full page tables.
abbrev full_tables : Paging
full_tables = record state {
  frames = λ paddr i. create_pt_entry 0x9000 1 1;
  pdts = λ pdt i. if i == 0 then create_pdt_entry 0x6000 0 1 0 else create_pdt_entry 0x7000 0 1 0;
}

-- Whether the first, second and third entry of the second table are present afterwards.
abbrev second_table : Option (ℕ × Paging) → List Bool
second_table none = []
second_table (some (size, s)) =
    pte_present (s.frames 0x7000 0)
    ∷ pte_present (s.frames 0x7000 1)
    ∷ pte_present (s.frames 0x7000 2)
    ∷ []

-- Where the two pages lie in two tables, the page behind them is unmapped too.
unmaps_more :
    second_table (pdt_unmap_memory 3 full_tables 0xc010_0000 0x3f_f000 0x2000)
    ≡ false ∷ false ∷ true ∷ []
unfolding pdt_unmap_memory unmap_loop unmap_round pt_unmap_memory pt_unmap_loop create_pt_entry
    create_pdt_entry get_pf_paddr get_pt_paddr kernel_get_temporary_entry kernel_set_temporary_entry
    kernel_map_temporary_memory tmp_frame align_up
unmaps_more = refl

abbrev mapped_size : Option (ℕ × Paging) → Option ℕ
mapped_size none = none
mapped_size (some r) = some r.0

maps_both :
    mapped_size (pdt_map_memory 4 state 0xc010_1000 0x9000 0xc000_8000 0x1800 1 0) ≡ some 0x2000
unfolding pdt_map_memory map_loop map_round open_table map_in_table pt_map_memory pt_map_loop
    create_pt_entry create_pdt_entry get_pf_paddr get_pt_paddr kernel_get_temporary_entry
    kernel_set_temporary_entry kernel_map_temporary_memory tmp_frame align_up
maps_both = refl
