-- ===== src/Paging/Encode.antt =====
-- paging.c: what the entries keep of an address, and how a virtual address selects them.
use aenix.Base.{ℕ, ◌*◌, ◌/◌, ◌^◌, ◌<◌, ◌≡◌, true, arith}
use aenix.Paging.Entry.{
  pte_present, pde_present, create_pdt_entry, create_pt_entry, get_pt_paddr, get_pf_paddr,
}

-- A page table entry gives back the frame of the address that it was created with, whatever the
-- flags are, and is present.
pub get_pf_paddr-create_pt_entry :
    (addr rw pl : ℕ)
    → addr < 2 ^ 32
    → ((get_pf_paddr (create_pt_entry addr rw pl) ≡ addr / 0x1000 * 0x1000)
        × (pte_present (create_pt_entry addr rw pl) ≡ true))
unfolding create_pt_entry get_pf_paddr
get_pf_paddr-create_pt_entry addr rw pl lt = (omega arith, ground arith)

-- So does an entry of a page directory.
pub get_pt_paddr-create_pdt_entry :
    (addr ps rw pl : ℕ)
    → addr < 2 ^ 32
    → ((get_pt_paddr (create_pdt_entry addr ps rw pl) ≡ addr / 0x1000 * 0x1000)
        × (pde_present (create_pdt_entry addr ps rw pl) ≡ true))
unfolding create_pdt_entry get_pt_paddr
get_pt_paddr-create_pdt_entry addr ps rw pl lt = (omega arith, ground arith)
