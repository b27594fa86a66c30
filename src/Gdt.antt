-- ===== src/Gdt.antt =====
-- gdt.c and tss.c: the descriptors of the segments. Loading the table is assembly.
mod Examples
use Prim.Native.Nat.{bit_and, bit_or}
use native.Mathlib.Nat.{mul-mod_right}
use aenix.Base.{map, ℕ, ◌+◌, ◌-◌, ◌*◌, ◌/◌, ◌%◌, ◌^◌, ◌<◌, ◌≡◌, refl, List, [], ◌∷◌, arith, u32}

-- The fields of the tss that the kernel sets.
pub record Tss : Type 0 where
  pub esp0 : ℕ
  pub ss0 : ℕ

tss_set_kernel_stack : Tss → (segsel vaddr : ℕ) → Tss
tss_set_kernel_stack tss segsel vaddr = record tss { esp0 = vaddr; ss0 = segsel % 0x1_0000 }

pub record GdtEntry : Type 0 where
  pub limit_low : ℕ
  pub base_low : ℕ
  pub base_mid : ℕ
  pub access : ℕ
  pub granularity : ℕ
  pub base_high : ℕ

abbrev pub segment_base : ℕ
segment_base = 0

abbrev pub segment_limit : ℕ
segment_limit = 0xF_FFFF

abbrev pub code_rx_type : ℕ
code_rx_type = 0xA

abbrev pub data_rw_type : ℕ
data_rw_type = 0x2

-- The size of `tss_t` in bytes.
abbrev pub sizeof_tss : ℕ
sizeof_tss = 104

-- `granularity` is what the entry has before.
unfoldable pub gdt_create_entry : (granularity pl type : ℕ) → GdtEntry
gdt_create_entry granularity pl type = record {
  base_low = segment_base % 0x1_0000;
  base_mid = segment_base / 2 ^ 16 % 0x100;
  base_high = segment_base / 2 ^ 24 % 0x100;
  limit_low = segment_limit % 0x1_0000;
  granularity = bit_or granularity (bit_or (bit_or (2 ^ 7) (2 ^ 6)) 0x0F);
  access = bit_or (bit_or (bit_or (2 ^ 7) (bit_and pl 3 * 2 ^ 5)) (2 ^ 4)) (bit_and type 0x0F);
}

unfoldable pub gdt_create_tss_entry : (tss_vaddr : ℕ) → GdtEntry
gdt_create_tss_entry tss_vaddr = record {
  base_low = tss_vaddr % 0x1_0000;
  base_mid = tss_vaddr / 2 ^ 16 % 0x100;
  base_high = tss_vaddr / 2 ^ 24 % 0x100;
  limit_low = sizeof_tss - 1;
  access = bit_or (bit_or (2 ^ 7) (2 ^ 3)) 1;
  granularity = 0;
}

-- The table in the order of its entries, and the limit that is loaded with it.
pub record Gdt : Type 0 where
  pub limit : ℕ
  pub gdt_entries : List GdtEntry

unfoldable pub gdt_init : (tss_vaddr : ℕ) → Gdt
unfolding gdt_create_entry gdt_create_tss_entry
gdt_init tss_vaddr = record {
  limit = 8 * 6;
  gdt_entries =
      gdt_create_entry 0 0 0
      ∷ gdt_create_entry 0 0 code_rx_type
      ∷ gdt_create_entry 0 0 data_rw_type
      ∷ gdt_create_entry 0 3 code_rx_type
      ∷ gdt_create_entry 0 3 data_rw_type
      ∷ gdt_create_tss_entry tss_vaddr
      ∷ [];
}

-- What the processor reads in a descriptor.
pub record Descriptor : Type 0 where
  pub base : ℕ
  pub limit : ℕ
  pub present : ℕ
  pub dpl : ℕ
  pub is_code_or_data : ℕ
  pub type : ℕ
  pub in_pages : ℕ

unfoldable pub descriptor : GdtEntry → Descriptor
descriptor e = record {
  base = e.base_low + e.base_mid * 2 ^ 16 + e.base_high * 2 ^ 24;
  limit = e.limit_low + e.granularity % 16 * 2 ^ 16;
  present = e.access / 2 ^ 7;
  dpl = e.access / 2 ^ 5 % 4;
  is_code_or_data = e.access / 2 ^ 4 % 2;
  type = e.access % 16;
  in_pages = e.granularity / 2 ^ 7;
}

-- A segment over all of the memory.
abbrev pub flat : (dpl type : ℕ) → Descriptor
flat dpl type = record {
  base = 0;
  limit = 0xF_FFFF;
  present = 1;
  dpl = dpl;
  is_code_or_data = 1;
  type = type;
  in_pages = 1;
}

-- The processor reads the table of `gdt_init` as flat segments for code and data, two for the
-- kernel and two for the user, and a system segment over the bytes of the tss. The entry that
-- should be the null descriptor is a present segment too.
pub descriptors-gdt_init :
    (tss_vaddr : ℕ)
    → tss_vaddr < u32
    → map descriptor (gdt_init tss_vaddr).gdt_entries
      ≡ flat 0 0
        ∷ flat 0 0xA
        ∷ flat 0 2
        ∷ flat 3 0xA
        ∷ flat 3 2
        ∷ record {
          base = tss_vaddr;
          limit = 103;
          present = 1;
          dpl = 0;
          is_code_or_data = 0;
          type = 9;
          in_pages = 0;
        }
        ∷ []
unfolding descriptor gdt_init
descriptors-gdt_init tss_vaddr lt =
    let base : tss_vaddr % 0x1_0000
          + tss_vaddr / 2 ^ 16 % 0x100 * 2 ^ 16
          + tss_vaddr / 2 ^ 24 % 0x100 * 2 ^ 24
        ≡ tss_vaddr =
      omega arith in
    rw base refl
