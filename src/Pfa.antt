-- ===== src/Pfa.antt =====
-- page_frame_allocator.c: the bitmap of page frames over the memory map, and its two operations.
-- A set bit is a free frame. `mmap` holds the `mmap_len` entries in use of the array, and `start`
-- the words of the mapped bitmap; a write past its end is dropped here.
pub mod Bitmap
pub mod Regions
pub mod Loops
pub mod Scan
pub mod Single
pub mod Allocate
pub mod Free
pub mod Init
pub mod Aligned
pub mod Bits
pub mod Setup
mod Examples
use Prim.Native.Nat.{bit_xor}
use aenix.Base.{
  ℕ, zero, suc, ◌+◌, ◌-◌, ◌*◌, ◌/◌, ◌%◌, ◌^◌, Bool, true, false, List, [], ◌∷◌, Option, none, some,
  add32, sub32, mul32, ltb, leb, ◌==◌, if◌then◌else◌, get_or, set, take,
}
use aenix.Math.{div_ceil}

abbrev pub four_kb : ℕ
four_kb = 0x1000

pub record MemoryMap : Type 0 where
  pub addr : ℕ
  pub len : ℕ

pub record PageFrames : Type 0 where
  pub start : List ℕ
  pub len : ℕ

pub record Pfa : Type 0 where
  pub page_frames : PageFrames
  pub mmap : List MemoryMap

-- `bits[bit_idx / 32] ^= 0x01 << (31 - (bit_idx % 32))`
pub toggle_bit : List ℕ → ℕ → List ℕ
toggle_bit bits idx = set bits (idx / 32) (bit_xor (get_or bits (idx / 32) 0) (2 ^ (31 - idx % 32)))

-- `num` rounds are left, and `i` is the next index.
pub toggle_bits : List ℕ → (i num : ℕ) → List ℕ
toggle_bits bits i zero = bits
toggle_bits bits i (suc num) = toggle_bits (toggle_bit bits i) (i + 1) num

paddr_loop : List MemoryMap → (current_offset offset : ℕ) → ℕ
paddr_loop [] current offset = 0
paddr_loop (e ∷ es) current offset =
    if leb (add32 current e.len) offset
    then paddr_loop es (add32 current e.len) offset
    else add32 e.addr (sub32 offset current)

pub paddr_for_idx : List MemoryMap → ℕ → ℕ
unfolding paddr_loop
paddr_for_idx mmap bit_idx = paddr_loop mmap 0 (mul32 bit_idx four_kb)

-- `len` is `page_frames.len`, the answer for an address above every entry.
idx_loop : ℕ → List MemoryMap → (byte_offset paddr : ℕ) → ℕ
idx_loop len [] byte_offset paddr = len
idx_loop len (e ∷ es) byte_offset paddr =
    if ltb paddr (add32 e.addr e.len)
    then add32 byte_offset (sub32 paddr e.addr) / four_kb
    else idx_loop len es (add32 byte_offset e.len) paddr

pub idx_for_paddr : Pfa → ℕ → ℕ
unfolding idx_loop
idx_for_paddr p paddr = idx_loop p.page_frames.len p.mmap 0 paddr

fits_loop : List MemoryMap → (current_offset offset pfs : ℕ) → Bool
fits_loop [] current offset pfs = false
fits_loop (e ∷ es) current offset pfs =
    if leb (add32 current e.len) offset
    then fits_loop es (add32 current e.len) offset pfs
    else leb (add32 (sub32 offset current) (mul32 pfs four_kb)) e.len

pub fits_in_one_mmap_entry : List MemoryMap → (bit_idx pfs : ℕ) → Bool
unfolding fits_loop
fits_in_one_mmap_entry mmap bit_idx pfs = fits_loop mmap 0 (mul32 bit_idx four_kb) pfs

-- The variables of the two loops of `pfa_allocate`: `frames_found` and `bit_idx`.
pub record Run : Type 0 where
  pub frames_found : ℕ
  pub bit_idx : ℕ

abbrev pub no_run : ℕ → Run
no_run bit_idx = record { frames_found = 0; bit_idx = bit_idx }

-- The loops end with the run that is allocated, or go on.
pub data Outcome : Type 0 where
  allocates : ℕ → Outcome
  goes_on : Run → Outcome

-- One more free frame, at index `at`. The indices stay below 2 ^ 32.
pub extend_run : Run → ℕ → Run
extend_run r at = record {
  frames_found = r.frames_found + 1;
  bit_idx = if r.frames_found == 0 then at else r.bit_idx;
}

-- The run has a free frame more: is it long enough, and in one entry?
pub visit_run : List MemoryMap → (num : ℕ) → Run → Outcome
visit_run mmap num r =
    if r.frames_found == num
    then if fits_in_one_mmap_entry mmap r.bit_idx num
      then allocates r.bit_idx
      else goes_on (no_run r.bit_idx)
    else goes_on r

-- The body of the inner loop.
pub visit_bit : List MemoryMap → (num cell at j : ℕ) → Run → Outcome
unfolding extend_run visit_run
visit_bit mmap num cell at j r =
    if cell / 2 ^ (31 - j) % 2 == 1
    then visit_run mmap num (extend_run r at)
    else goes_on (no_run r.bit_idx)

abbrev pub and_then : Outcome → (Run → Outcome) → Outcome
and_then (allocates idx) k = allocates idx
and_then (goes_on r) k = k r

-- The inner loop, with `rounds` bits left.
visit_cell : List MemoryMap → (num cell i rounds j : ℕ) → Run → Outcome
visit_cell mmap num cell i zero j r = goes_on r
visit_cell mmap num cell i (suc rounds) j r =
    and_then (visit_bit mmap num cell (i * 32 + j) j r)
      λ r'. visit_cell mmap num cell i rounds (j + 1) r'

-- The outer loop over the cells from index `i` on.
pub visit_cells : List MemoryMap → (num : ℕ) → List ℕ → (i : ℕ) → Run → Outcome
visit_cells mmap num [] i r = goes_on r
visit_cells mmap num (cell ∷ cells) i r =
    and_then (if cell == 0 then goes_on (no_run r.bit_idx) else visit_cell mmap num cell i 32 0 r)
      λ r'. visit_cells mmap num cells (i + 1) r'

-- The words that the outer loop visits.
abbrev pub words : Pfa → List ℕ
words p = take (div_ceil p.page_frames.len 32) p.page_frames.start

pub find_run : Pfa → ℕ → Outcome
find_run p num = visit_cells p.mmap num (words p) 0 (no_run 0)

pub with_bits : Pfa → List ℕ → Pfa
with_bits p bits = record p { page_frames = record { start = bits; len = p.page_frames.len } }

-- The address of the first frame, or 0 where no run is found.
pub pfa_allocate : Pfa → ℕ → ℕ × Pfa
pfa_allocate p num = elim (find_run p num) [
  | allocates idx ↦
      (paddr_for_idx p.mmap idx, with_bits p (toggle_bits p.page_frames.start idx num))
  | goes_on r ↦ (0, p)
]

pub pfa_free : Pfa → ℕ → Pfa
unfolding with_bits
pfa_free p paddr =
    if idx_for_paddr p paddr == p.page_frames.len
    then p
    else with_bits p (toggle_bit p.page_frames.start (idx_for_paddr p paddr))

-- `n` rounds are left, and `i` is the loop's counter.
free_loop : Pfa → (paddr i n : ℕ) → Pfa
free_loop p paddr i zero = p
free_loop p paddr i (suc n) = free_loop (pfa_free p (add32 paddr (mul32 i four_kb))) paddr (i + 1) n

pub pfa_free_cont : Pfa → (paddr n : ℕ) → Pfa
unfolding free_loop
pfa_free_cont p paddr n = free_loop p paddr 0 n
