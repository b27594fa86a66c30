-- ===== src/Paging/Entry.antt =====
-- paging.c: the entries of page directories and page tables, and the parts of an address.
use aenix.Base.{ℕ, ◌+◌, ◌*◌, ◌/◌, ◌%◌, Bool, not, ◌==◌}

abbrev pub num_entries : ℕ
num_entries = 1024

abbrev pub pt_entry_size : ℕ
pt_entry_size = 0x1000

abbrev pub pdt_entry_size : ℕ
pdt_entry_size = 0x40_0000

abbrev pub kernel_start_vaddr : ℕ
kernel_start_vaddr = 0xc000_0000

abbrev pub kernel_tmp_pt_idx : ℕ
kernel_tmp_pt_idx = 1023

abbrev pub virtual_to_pdt_idx : ℕ → ℕ
virtual_to_pdt_idx a = a / 0x40_0000 % 1024

abbrev pub virtual_to_pt_idx : ℕ → ℕ
virtual_to_pt_idx a = a / 0x1000 % 1024

abbrev pub kernel_pt_pdt_idx : ℕ
kernel_pt_pdt_idx = 768

pub record Pde : Type 0 where
  pub config : ℕ
  pub low_addr : ℕ
  pub high_addr : ℕ

pub record Pte : Type 0 where
  pub config : ℕ
  pub middle : ℕ
  pub high_addr : ℕ

-- What `memset` leaves.
abbrev pub empty_pde : Pde
empty_pde = record { config = 0; low_addr = 0; high_addr = 0 }

abbrev pub empty_pte : Pte
empty_pte = record { config = 0; middle = 0; high_addr = 0 }

-- IS_ENTRY_PRESENT: `config && 0x01`
abbrev pub pte_present : Pte → Bool
pte_present e = not (e.config == 0)

abbrev pub pde_present : Pde → Bool
pde_present e = not (e.config == 0)

-- IS_ENTRY_PAGE_TABLE: `(config && 0x80) == 0`
abbrev pub pde_page_table : Pde → Bool
pde_page_table e = e.config == 0

-- The bits of `config` have their own places, so that `|` is a sum.
unfoldable pub create_pdt_entry : (addr ps rw pl : ℕ) → Pde
create_pdt_entry addr ps rw pl = record {
  config = ps % 2 * 128 + 8 + pl % 2 * 4 + rw % 2 * 2 + 1;
  low_addr = addr / 0x1000 % 16 * 16;
  high_addr = addr / 0x1_0000 % 0x1_0000;
}

unfoldable pub create_pt_entry : (addr rw pl : ℕ) → Pte
create_pt_entry addr rw pl = record {
  config = 8 + pl % 2 * 4 + rw % 2 * 2 + 1;
  middle = addr / 0x1000 % 16 * 16;
  high_addr = addr / 0x1_0000 % 0x1_0000;
}

unfoldable pub get_pt_paddr : Pde → ℕ
get_pt_paddr e = e.high_addr * 0x1_0000 + e.low_addr / 16 % 16 * 16 * 256

unfoldable pub get_pf_paddr : Pte → ℕ
get_pf_paddr e = e.high_addr * 0x1_0000 + e.middle / 16 % 16 * 16 * 256
