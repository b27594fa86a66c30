-- ===== src/Paging.antt =====
-- paging.c: page directories and page tables. `Paging.Entry` has the entries, `Paging.Table` one
-- page table, and this file the directories and the memory that they lie in. `frames` gives the
-- page table in each page frame and `pdts` the directory at each pointer. The kernel reaches a
-- page table only through the temporary entry, the last of its own page table, which lies in the
-- frame `kernel_pt`.
pub mod Entry
pub mod Table
pub mod Encode
pub mod Map
pub mod Unmap
pub mod Find
pub mod Directory
pub mod Whole
mod Examples
use aenix.Base.{
  ℕ, zero, suc, ◌+◌, ◌-◌, ◌*◌, ◌/◌, ◌%◌, ◌≤◌, ◌<◌, Bool, true, false, not, ◌&&◌, Option, none, some,
  ltb, leb, ◌==◌, if◌then◌else◌, add32, sub32, mul32,
}
use aenix.Math.{align_up}
use aenix.Pfa.{Pfa, pfa_allocate, pfa_free}
use Entry.{
  Pde, Pte, empty_pde, pt_entry_size, pdt_entry_size, num_entries, kernel_tmp_pt_idx,
  kernel_pt_pdt_idx, kernel_start_vaddr, virtual_to_pdt_idx, virtual_to_pt_idx, pde_present,
  pde_page_table, create_pdt_entry, create_pt_entry, get_pt_paddr, get_pf_paddr,
}
use Table.{
  PageTable, Mapped, empty_table, with_entry, pt_map_memory, pt_unmap_memory,
  pt_kernel_find_next_vaddr,
}

abbrev pub Pdt : Type 0
Pdt = ℕ → Pde

pub record Paging : Type 0 where
  pub frames : ℕ → PageTable
  pub pdts : ℕ → Pdt
  pub kernel_pdt : ℕ
  pub kernel_pt : ℕ
  pub pfa : Pfa

-- The kernel's page table is given by its frame.
unfoldable pub paging_init : (kernel_pdt_vaddr kernel_pt_frame : ℕ) → Paging → ℕ × Paging
paging_init kernel_pdt_vaddr kernel_pt_frame s =
    (0, record s { kernel_pdt = kernel_pdt_vaddr; kernel_pt = kernel_pt_frame })

abbrev pub update {ℓ} : {A : Type ℓ} → (ℕ → A) → ℕ → A → ℕ → A
update f i v j = if j == i then v else f j

abbrev pub with_table : Paging → ℕ → PageTable → Paging
with_table s paddr pt = record s { frames = update s.frames paddr pt }

abbrev pub with_pde : Paging → (pdt idx : ℕ) → Pde → Paging
with_pde s pdt idx e = record s { pdts = update s.pdts pdt (update (s.pdts pdt) idx e) }

unfoldable pub kernel_get_temporary_entry : Paging → Pte
kernel_get_temporary_entry s = s.frames s.kernel_pt kernel_tmp_pt_idx

unfoldable pub kernel_set_temporary_entry : Paging → Pte → Paging
kernel_set_temporary_entry s e =
    with_table s s.kernel_pt (update (s.frames s.kernel_pt) kernel_tmp_pt_idx e)

-- `create_pt_entry` with (PAGING_READ_WRITE, PAGING_PL0)
unfoldable pub kernel_map_temporary_memory : Paging → ℕ → Paging
kernel_map_temporary_memory s paddr = kernel_set_temporary_entry s (create_pt_entry paddr 1 0)

-- The frame that KERNEL_TMP_VADDR leads to.
unfoldable pub tmp_frame : Paging → ℕ
tmp_frame s = get_pf_paddr (kernel_get_temporary_entry s)

unfoldable pub get_pdt_paddr : Paging → (pdt : ℕ) → ℕ × Paging
get_pdt_paddr s pdt =
    let kpt_paddr = get_pt_paddr (s.pdts s.kernel_pdt (virtual_to_pdt_idx pdt)) in
    let prev_tmp_entry = kernel_get_temporary_entry s in
    let s' = kernel_map_temporary_memory s kpt_paddr in
    let pdt_paddr = get_pf_paddr (s'.frames (tmp_frame s') (virtual_to_pt_idx pdt)) in
    (pdt_paddr, kernel_set_temporary_entry s' prev_tmp_entry)

-- `left` entries of the kernel's page directory are still to be searched.
unfoldable pub find_loop : (left : ℕ) → Paging → (pdt_idx size : ℕ) → ℕ × Paging
find_loop zero s pdt_idx size = (0, s)
find_loop (suc left) s pdt_idx size =
    let e = s.pdts s.kernel_pdt pdt_idx in
    let tmp_entry = kernel_get_temporary_entry s in
    let mapped = kernel_map_temporary_memory s (get_pt_paddr e) in
    let here = pt_kernel_find_next_vaddr pdt_idx (mapped.frames (tmp_frame mapped)) size in
    let vaddr = if pde_present e then here else mul32 pdt_idx pdt_entry_size in
    let s' = if pde_present e then kernel_set_temporary_entry mapped tmp_entry else s in
    let rest = find_loop left s' (pdt_idx + 1) size in if vaddr == 0 then rest else (vaddr, s')

unfoldable pub pdt_kernel_find_next_vaddr : Paging → (size : ℕ) → ℕ × Paging
pdt_kernel_find_next_vaddr s size =
    let pdt_idx = virtual_to_pdt_idx kernel_start_vaddr in
    find_loop (num_entries - pdt_idx) s pdt_idx size

-- The page table for the directory's entry, mapped as the temporary one, and its frame: the one
-- that the entry has, or a new one, which is cleared. `none` where no frame is left.
unfoldable pub open_table : Paging → (pdt pdt_idx : ℕ) → Option ℕ × Paging
open_table s pdt pdt_idx =
    let e = s.pdts pdt pdt_idx in
    let got = pfa_allocate s.pfa 1 in
    let s' = kernel_map_temporary_memory (record s { pfa = got.1 }) got.0 in
    if not (pde_present e)
    then if got.0 == 0
      then (none, record s { pfa = got.1 })
      else (some got.0, with_table s' (tmp_frame s') empty_table)
    else (some (get_pt_paddr e), kernel_map_temporary_memory s (get_pt_paddr e))

-- One round of the loop: `mapped_size` (0 where it fails) and the state.
unfoldable pub map_in_table :
    Paging → (pdt paddr vaddr size rw pl : ℕ) → (tmp_entry : Pte) → Option ℕ → ℕ × Paging
map_in_table s pdt paddr vaddr size rw pl tmp_entry none = (0, s)
map_in_table s pdt paddr vaddr size rw pl tmp_entry (some pt_paddr) =
    let pdt_idx = virtual_to_pdt_idx vaddr in
    let m = pt_map_memory (s.frames (tmp_frame s)) pdt_idx paddr vaddr size rw pl in
    let s' = with_table s (tmp_frame s) m.table in
    let entered = with_pde s' pdt pdt_idx (create_pdt_entry pt_paddr 0 rw pl) in
    if m.mapped_size == 0
    then (0, kernel_set_temporary_entry s' tmp_entry)
    else if not (pde_present (s'.pdts pdt pdt_idx))
    then (m.mapped_size, kernel_set_temporary_entry entered tmp_entry)
    else (m.mapped_size, kernel_set_temporary_entry s' tmp_entry)

unfoldable pub map_round : Paging → (pdt paddr vaddr size rw pl : ℕ) → ℕ × Paging
map_round s pdt paddr vaddr size rw pl =
    let opened = open_table s pdt (virtual_to_pdt_idx vaddr) in
    map_in_table opened.1 pdt paddr vaddr size rw pl (kernel_get_temporary_entry s) opened.0

-- A round maps a page at least, so that `size / 4096 + 1` rounds of fuel are enough.
unfoldable pub map_loop : ℕ → Paging → (pdt paddr vaddr size rw pl total : ℕ) → Option (ℕ × Paging)
map_loop zero s pdt paddr vaddr size rw pl total = none
map_loop (suc fuel) s pdt paddr vaddr size rw pl total =
    let r = map_round s pdt paddr vaddr size rw pl in
    let rest =
      map_loop fuel r.1 pdt (add32 paddr r.0) (add32 vaddr r.0) (sub32 size r.0) rw pl
        (add32 total r.0) in
    if size == 0 then some (total, s) else if r.0 == 0 then some (0, r.1) else rest

unfoldable pub pdt_map_memory :
    (fuel : ℕ) → Paging → (pdt paddr vaddr size rw pl : ℕ) → Option (ℕ × Paging)
pdt_map_memory fuel s pdt paddr vaddr size rw pl =
    map_loop fuel s pdt paddr vaddr (align_up size pt_entry_size) rw pl 0

unfoldable pub pdt_map_kernel_memory :
    (fuel : ℕ) → Paging → (paddr vaddr size rw pl : ℕ) → Option (ℕ × Paging)
pdt_map_kernel_memory fuel s paddr vaddr size rw pl =
    pdt_map_memory fuel s s.kernel_pdt paddr vaddr size rw pl

-- The part of a round that works on a present entry: `freed_size` and the state.
unfoldable pub unmap_round : Paging → (pdt vaddr size : ℕ) → ℕ × Paging
unmap_round s pdt vaddr size =
    let pdt_idx = virtual_to_pdt_idx vaddr in
    let pt_paddr = get_pt_paddr (s.pdts pdt pdt_idx) in
    let tmp_entry = kernel_get_temporary_entry s in
    let s' = kernel_map_temporary_memory s pt_paddr in
    let m = pt_unmap_memory (s'.frames (tmp_frame s')) pdt_idx vaddr size in
    let s'' = kernel_set_temporary_entry (with_table s' (tmp_frame s') m.table) tmp_entry in
    let freed = record s'' { pfa = pfa_free s''.pfa pt_paddr } in
    if (m.mapped_size == pdt_entry_size) && not (pdt_idx == kernel_pt_pdt_idx)
    then (m.mapped_size, with_pde freed pdt pdt_idx empty_pde)
    else (m.mapped_size, s'')

-- The result is the last round's `freed_size`.
unfoldable pub unmap_loop : ℕ → Paging → (pdt vaddr end_vaddr size freed : ℕ) → Option (ℕ × Paging)
unmap_loop zero s pdt vaddr end_vaddr size freed = none
unmap_loop (suc fuel) s pdt vaddr end_vaddr size freed =
    let present = pde_present (s.pdts pdt (virtual_to_pdt_idx vaddr)) in
    let r = unmap_round s pdt vaddr size in
    let vaddr' = if present then add32 vaddr r.0 else align_up vaddr pdt_entry_size in
    let rest =
      unmap_loop fuel (if present then r.1 else s) pdt vaddr' end_vaddr size
        (if present then r.0 else freed) in
    if ltb vaddr end_vaddr then rest else some (freed, s)

unfoldable pub pdt_unmap_memory : (fuel : ℕ) → Paging → (pdt vaddr size : ℕ) → Option (ℕ × Paging)
pdt_unmap_memory fuel s pdt vaddr size =
    let size' = align_up size pt_entry_size in
    unmap_loop fuel s pdt vaddr (add32 vaddr size') size' 0

unfoldable pub pdt_unmap_kernel_memory :
    (fuel : ℕ) → Paging → (vaddr size : ℕ) → Option (ℕ × Paging)
pdt_unmap_kernel_memory fuel s vaddr size = pdt_unmap_memory fuel s s.kernel_pdt vaddr size
