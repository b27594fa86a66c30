-- ===== src/Paging/Directory.antt =====
-- paging.c: making, loading and deleting page directories. The fuel is that of the mapping.
use aenix.Base.{
  ℕ, zero, suc, ◌+◌, ◌-◌, ◌<◌, ◌≡◌, refl, ◌∙◌, true, false, ◌&&◌, inl, inr, arith, ltb, leb, ◌==◌,
  if◌then◌else◌, Option, none, some, Bool-cases,
}
use aenix.Pfa.{pfa_allocate, pfa_free}
use aenix.Paging.Entry.{
  empty_pde, num_entries, kernel_pt_pdt_idx, pde_present, pde_page_table, get_pt_paddr,
}
use aenix.Paging.{
  Pdt, Paging, update, pdt_kernel_find_next_vaddr, pdt_map_kernel_memory, get_pdt_paddr,
}

-- The directory's pointer (or NULL), its physical address, and the state.
pub record Created : Type 0 where
  pub pdt : Option ℕ
  pub out_paddr : ℕ
  pub state : Paging

pdt_filled : (pdt_paddr pdt_vaddr : ℕ) → ℕ × Paging → Created
pdt_filled pdt_paddr pdt_vaddr (size, s) =
    if ltb size 0x1000
    then record { pdt = none; out_paddr = 0; state = record s { pfa = pfa_free s.pfa pdt_paddr } }
    else record {
      pdt = some pdt_vaddr;
      out_paddr = pdt_paddr;
      state = record s { pdts = update s.pdts pdt_vaddr (λ i. empty_pde) };
    }

pub pdt_create : (fuel : ℕ) → Paging → Option Created
pdt_create fuel s =
    let (pdt_paddr, pfa) = pfa_allocate s.pfa 1 in
    let (pdt_vaddr, s') = pdt_kernel_find_next_vaddr (record s { pfa = pfa }) 0x1000 in
    elim (pdt_map_kernel_memory fuel s' pdt_paddr pdt_vaddr 0x1000 1 0) [
      | none ↦ none
      | some r ↦ some (pdt_filled pdt_paddr pdt_vaddr r)
    ]

-- `left` entries are still to be visited.
delete_loop : (left : ℕ) → Paging → (pdt i : ℕ) → Paging
delete_loop zero s pdt i = s
delete_loop (suc left) s pdt i =
    let e = s.pdts pdt i in
    let freed = record s { pfa = pfa_free s.pfa (get_pt_paddr e) } in
    delete_loop left (if pde_present e && pde_page_table e then freed else s) pdt (i + 1)

pub pdt_delete : Paging → (pdt : ℕ) → Paging
pdt_delete s pdt =
    let (pdt_paddr, s') = get_pdt_paddr (delete_loop num_entries s pdt 0) pdt in
    record s' { pfa = pfa_free s'.pfa pdt_paddr }

load_loop : (left : ℕ) → (kernel_pdt pdt : Pdt) → (i : ℕ) → Pdt
load_loop zero kernel_pdt pdt i = pdt
load_loop (suc left) kernel_pdt pdt i =
    load_loop left kernel_pdt
      (if pde_present (kernel_pdt i) then update pdt i (kernel_pdt i) else pdt) (i + 1)

-- The processor's register is set after this, by code in assembly.
pub pdt_load_process_pdt : Paging → (pdt : ℕ) → Paging
pdt_load_process_pdt s pdt = record s {
  pdts = update s.pdts pdt (
      load_loop (num_entries - kernel_pt_pdt_idx) (s.pdts s.kernel_pdt) (s.pdts pdt)
        kernel_pt_pdt_idx);
}

delete_loop-same : (left : ℕ) (s : Paging) (pdt i : ℕ) → delete_loop left s pdt i ≡ s
unfolding delete_loop
delete_loop-same zero s pdt i = refl
delete_loop-same (suc left) s pdt i =
    let never : (pde_present (s.pdts pdt i) && pde_page_table (s.pdts pdt i)) ≡ false =
      ground arith in
    rw never (delete_loop-same left s pdt (i + 1))

-- `pdt_delete` gives back the frame of the directory and nothing else: an entry is taken for one
-- of a page table only where it is not present, so that no page table is ever freed.
pub pdt_delete-leaks :
    (s : Paging) (pdt : ℕ)
    → ((pdt_delete s pdt).pfa ≡ pfa_free (get_pdt_paddr s pdt).1.pfa (get_pdt_paddr s pdt).0)
unfolding pdt_delete
pdt_delete-leaks s pdt = rw (delete_loop-same 1024 s pdt 0) refl

load_loop-lem :
    (left : ℕ) (kernel_pdt pdt : Pdt) (i j : ℕ)
    → load_loop left kernel_pdt pdt i j
      ≡ (if leb i j && ltb j (i + left) && pde_present (kernel_pdt j) then kernel_pdt j else pdt j)
unfolding load_loop
load_loop-lem zero kernel_pdt pdt i j = ground arith
load_loop-lem (suc left) kernel_pdt pdt i j = elim (Bool-cases (j == i)) [
  | inl e ↦
      let same : j ≡ i = ground arith in
      rw same (load_loop-lem left kernel_pdt _ (i + 1) i ∙ ground arith)
  | inr e ↦ load_loop-lem left kernel_pdt _ (i + 1) j ∙ ground (arith, e)
]

-- `pdt_load_process_pdt` copies the present entries of the kernel's part of the kernel's
-- directory, and leaves all others.
pub pdt_load_process_pdt_lem :
    (s : Paging) (pdt j : ℕ)
    → j < 1024
    → (pdt_load_process_pdt s pdt).pdts pdt j ≡ (
        if leb 768 j && pde_present (s.pdts s.kernel_pdt j)
        then s.pdts s.kernel_pdt j
        else s.pdts pdt j)
unfolding pdt_load_process_pdt
pdt_load_process_pdt_lem s pdt j lt =
    let here : (pdt == pdt) ≡ true = ground arith in
    rw here (load_loop-lem 256 (s.pdts s.kernel_pdt) (s.pdts pdt) 768 j ∙ ground arith)
