-- ===== src/Pfa/Examples.antt =====
-- Runs of the page frame allocator, over a map of three and of two frames.
use aenix.Base.{◌+◌, ◌<◌, ℕ, List, map, some, ◌≡◌, ◌⊎◌, ◌≢◌, refl, [], ◌∷◌, arith}
use aenix.Pfa.{
  MemoryMap, Pfa, pfa_allocate, pfa_free, pfa_free_cont, toggle_bit, toggle_bits, paddr_for_idx,
  idx_for_paddr, find_run, fits_in_one_mmap_entry, visit_cells, visit_cell, visit_bit, with_bits,
}
use aenix.Pfa.Bitmap.{frame}
use aenix.Pfa.Regions.{Regions}
use aenix.Math.{align_up, align_down}
use aenix.Pfa.Init.{
  align_entry, total_loop, bitmap_pfs, take_frames, map_bitmap, construct_bitmap, words_of,
  bitmap_bytes, last_loop, without_fs,
}
use aenix.Pfa.Aligned.{align-Regions, without_fs-beyond}
use aenix.Pfa.Bits.{bitmap_bytes-drops}
use aenix.Pfa.Allocate.{one_mb, IsValid, Grants, pfa_allocate-Grants}
use aenix.Pfa.Free.{pfa_free_cont-pfa_allocate}
use aenix.Math.{div_ceil}

abbrev two_entries : Pfa
two_entries = record {
  page_frames = record { start = 0xf800_0000 ∷ []; len = 5 };
  mmap = record { addr = 0x20_0000; len = 0x3000 } ∷ record { addr = 0x40_0000; len = 0x2000 } ∷ [];
}

abbrev all_taken : Pfa
all_taken = record two_entries { page_frames = record { start = 0 ∷ []; len = 5 } }

two_entries-IsValid : IsValid two_entries
two_entries-IsValid = record {
  regions = omega arith;
  frames = refl;
  some_frame = omega arith;
  covers = omega arith;
}

all_taken-IsValid : IsValid all_taken
all_taken-IsValid = record {
  regions = omega arith;
  frames = refl;
  some_frame = omega arith;
  covers = omega arith;
}

-- Frames 2, 3 and 4 are free: the run 2, 3 crosses the entries, and the run 3, 4 is not tried.
abbrev crossing : Pfa
crossing = record two_entries { page_frames = record { start = 0x3800_0000 ∷ []; len = 5 } }

allocate_runs :
    ((pfa_allocate two_entries 2).0 ≡ 0x20_0000)
    × ((pfa_allocate two_entries 2).1.page_frames.start ≡ 0x3800_0000 ∷ [])
    × ((pfa_allocate crossing 2).0 ≡ 0)
    × ((pfa_allocate crossing 1).0 ≡ 0x20_2000)
unfolding pfa_allocate find_run visit_cells visit_cell visit_bit fits_in_one_mmap_entry
    paddr_for_idx toggle_bits toggle_bit with_bits div_ceil
allocate_runs = (refl, refl, refl, refl)

first-ne-zero : (pfa_allocate two_entries 2).0 ≢ 0
unfolding pfa_allocate find_run visit_cells visit_cell visit_bit fits_in_one_mmap_entry
    paddr_for_idx div_ceil
first-ne-zero = omega arith

-- A frame that is freed twice is marked as taken again.
double_free :
    pfa_free two_entries 0x20_0000
    ≡ record two_entries { page_frames = record { start = 0x7800_0000 ∷ []; len = 5 } }
unfolding pfa_free idx_for_paddr toggle_bit
double_free = refl

pfa_allocate-Grants_example :
    (pfa_allocate two_entries 2 ≡ (0, two_entries))
    ⊎ Grants two_entries 2 (pfa_allocate two_entries 2)
pfa_allocate-Grants_example = pfa_allocate-Grants 2 two_entries-IsValid (omega arith)

pfa_free_cont-pfa_allocate_example :
    frame
      (pfa_free_cont
        (pfa_allocate two_entries 2).1
        (pfa_allocate two_entries 2).0
        2).page_frames.start
      1
    ≡ 1
pfa_free_cont-pfa_allocate_example =
    pfa_free_cont-pfa_allocate 2 two_entries-IsValid (omega arith) first-ne-zero 1

-- 64 and 32 frames, from an address that is not aligned.
abbrev raw_entries : List MemoryMap
raw_entries =
    record { addr = 0x10_0800; len = 0x4_1000 } ∷ record { addr = 0x20_0000; len = 0x2_0000 } ∷ []

abbrev entries : List MemoryMap
entries =
    record { addr = 0x10_1000; len = 0x4_0000 } ∷ record { addr = 0x20_0000; len = 0x2_0000 } ∷ []

raw_aligned : map align_entry raw_entries ≡ entries
unfolding align_entry align_up align_down
raw_aligned = refl

align-Regions_example : Regions one_mb (map align_entry raw_entries)
align-Regions_example = align-Regions one_mb raw_entries (omega arith)

abbrev maps_all : (paddr vaddr size : ℕ) → ℕ
maps_all paddr vaddr size = size

-- The last byte has the seven bits of frames 88 to 94.
construct_runs :
    construct_bitmap (λ size. 0xC040_0000) maps_all (0 ∷ 0 ∷ 0 ∷ []) entries
    ≡ some (record {
      page_frames = record { start = 0xFFFF_FFFF ∷ 0xFFFF_FFFF ∷ 0xFEFF_FFFF ∷ []; len = 95 };
      mmap =
          record { addr = 0x10_2000; len = 0x3_F000 }
          ∷ record { addr = 0x20_0000; len = 0x2_0000 }
          ∷ [];
    })
unfolding construct_bitmap map_bitmap total_loop bitmap_pfs take_frames words_of bitmap_bytes
    last_loop div_ceil
construct_runs = refl

without_fs-beyond_example :
    (low : MemoryMap) × (high : MemoryMap) × (without_fs 0x20_0000 0x1_0000
        (record { addr = 0x10_0000; len = 0x20_0000 })
      ≡ low ∷ high ∷ [])
    × (low.addr ≡ 0x10_0000)
    × (low.addr + low.len ≡ 0x20_0000)
    × (high.addr ≡ 0x21_0000)
    × (high.addr + high.len ≡ 0x41_0000)
    × (0x30_0000 < high.addr + high.len)
without_fs-beyond_example =
    without_fs-beyond 0x20_0000 0x1_0000 (record { addr = 0x10_0000; len = 0x20_0000 })
      (omega arith) (omega arith) (omega arith)

bitmap_bytes-drops_example : words_of (bitmap_bytes 8 64) ≡ 0xFFFF_FFFF ∷ 0xFF_FFFF ∷ []
bitmap_bytes-drops_example = bitmap_bytes-drops 1
