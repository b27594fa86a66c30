-- ===== src/Pfa/Init.antt =====
-- page_frame_allocator.c: the memory map from the boot loader, and the bitmap over it. The entries
-- of the boot loader are those up to `mmap_length`, in order; their addresses and lengths have 64
-- bits, of which the code keeps 32. The array `mmap` is taken to be large enough.
use Prim.Native.Nat.{bit_or, bit_and}
use aenix.Base.{
  ℕ, zero, suc, ◌+◌, ◌-◌, ◌*◌, ◌/◌, ◌%◌, ◌^◌, ◌&&◌, List, [], ◌∷◌, ◌++◌, map, Option, none, some,
  u32, add32, sub32, mul32, ltb, leb, ◌==◌, if◌then◌else◌, replicate,
}
use aenix.Math.{div_ceil, align_up, align_down}
use aenix.Pfa.{MemoryMap, Pfa, four_kb}

-- An entry of the boot loader's memory map; type 1 is MULTIBOOT_MEMORY_AVAILABLE.
pub record BootEntry : Type 0 where
  pub addr : ℕ
  pub len : ℕ
  pub type : ℕ

pub record MemInfo : Type 0 where
  pub kernel_physical_start : ℕ
  pub kernel_physical_end : ℕ

-- ONE_MB
abbrev pub boot_limit : ℕ
boot_limit = 0x10_0000

-- What is left of an entry that has the whole kernel in it.
unfoldable pub without_kernel : MemInfo → MemoryMap → MemoryMap
without_kernel mem e =
    if leb e.addr mem.kernel_physical_start && ltb mem.kernel_physical_end (add32 e.addr e.len)
    then record { addr = mem.kernel_physical_end; len = sub32 e.len mem.kernel_physical_end }
    else e

-- `addr` is set before `len` is decreased by `fs_paddr + fs_size - addr`.
unfoldable pub without_fs : (fs_paddr fs_size : ℕ) → MemoryMap → List MemoryMap
without_fs fs_paddr fs_size e =
    let addr = add32 fs_paddr fs_size in
    if ltb e.addr fs_paddr && ltb (add32 fs_paddr fs_size) (add32 e.addr e.len)
    then record { addr = e.addr; len = sub32 fs_paddr e.addr }
      ∷ record { addr = addr; len = sub32 e.len (sub32 (add32 fs_paddr fs_size) addr) }
      ∷ []
    else e ∷ []

unfoldable pub fill_entry : MemInfo → (fs_paddr fs_size : ℕ) → BootEntry → List MemoryMap
unfolding without_kernel without_fs
fill_entry mem fs_paddr fs_size b =
    let e = without_kernel mem (record { addr = b.addr % u32; len = b.len % u32 }) in
    if b.type == 1 then if ltb boot_limit e.addr then without_fs fs_paddr fs_size e else [] else []

fill_loop : MemInfo → (fs_paddr fs_size : ℕ) → List BootEntry → List MemoryMap
fill_loop mem fs_paddr fs_size [] = []
fill_loop mem fs_paddr fs_size (b ∷ bs) =
    fill_entry mem fs_paddr fs_size b ++ fill_loop mem fs_paddr fs_size bs

-- Flag 5 says that there is a memory map.
unfoldable pub fill_memory_map :
    (flags : ℕ) → List BootEntry → MemInfo → (fs_paddr fs_size : ℕ) → List MemoryMap
unfolding fill_loop
fill_memory_map flags bs mem fs_paddr fs_size =
    if bit_and flags 0x20 == 0 then [] else fill_loop mem fs_paddr fs_size bs

-- The body of the loop in `pfa_init`.
unfoldable pub align_entry : MemoryMap → MemoryMap
align_entry e =
    let addr = align_up e.addr four_kb in
    record { addr = addr; len = align_down (sub32 e.len (sub32 addr e.addr)) four_kb }

-- The sum of the frames so far.
unfoldable pub total_loop : List MemoryMap → (total_pfs : ℕ) → ℕ
total_loop [] total_pfs = total_pfs
total_loop (e ∷ es) total_pfs = total_loop es (add32 total_pfs (e.len / four_kb))

unfoldable pub bitmap_pfs : (total_pfs : ℕ) → ℕ
bitmap_pfs total_pfs = div_ceil (div_ceil total_pfs 8) four_kb

-- The first entry that has room for the bitmap gives its beginning to it.
unfoldable pub take_frames : (pfs : ℕ) → List MemoryMap → Option (ℕ × List MemoryMap)
take_frames pfs [] = none
take_frames pfs (e ∷ es) =
    let rest = take_frames pfs es in
    if leb (mul32 pfs four_kb) e.len
    then some (
      e.addr,
      record { addr = add32 e.addr (mul32 pfs four_kb); len = sub32 e.len (mul32 pfs four_kb) }
          ∷ es,
    )
    else elim rest [ none ↦ none | some (paddr, es') ↦ some (paddr, e ∷ es') ]

-- `*last |= 0x01 << (7 - i)`, with `rounds` left.
unfoldable pub last_loop : (rounds i last : ℕ) → ℕ
last_loop zero i last = last
last_loop (suc rounds) i last = last_loop rounds (i + 1) (bit_or last (2 ^ (7 - i)))

-- The bytes of the bitmap.
unfoldable pub bitmap_bytes : (bitmap_size len : ℕ) → List ℕ
bitmap_bytes bitmap_size len = replicate (bitmap_size - 1) 0xFF ++ last_loop (len % 8) 0 0 ∷ []

-- The words that four bytes each make in the memory of the processor.
unfoldable pub words_of : List ℕ → List ℕ
words_of (a ∷ b ∷ c ∷ d ∷ bytes) = (a + 0x100 * b + 0x1_0000 * c + 0x100_0000 * d) ∷ words_of bytes
words_of bytes = []

-- The addresses and sizes that paging gives, and what is in the memory behind the bitmap.
module _ (find_next_vaddr : (size : ℕ) → ℕ) (map_kernel_memory : (paddr vaddr size : ℕ) → ℕ)
    (behind : List ℕ) where
  -- `none` for 1.
  unfoldable pub map_bitmap : (len : ℕ) → Option (ℕ × List MemoryMap) → Option Pfa
  map_bitmap len none = none
  map_bitmap len (some (paddr, mmap)) =
      let bitmap_size = div_ceil len 8 in
      let vaddr = find_next_vaddr bitmap_size in
      if vaddr == 0
      then none
      else if ltb (map_kernel_memory paddr vaddr bitmap_size) bitmap_size
      then none
      else some (record {
        page_frames = record {
          start = words_of (bitmap_bytes bitmap_size len ++ behind);
          len = len;
        };
        mmap = mmap;
      })

  unfoldable pub construct_bitmap : List MemoryMap → Option Pfa
  construct_bitmap mmap =
      let total_pfs = total_loop mmap 0 in
      let pfs = bitmap_pfs total_pfs in map_bitmap (sub32 total_pfs pfs) (take_frames pfs mmap)

  init_with : List MemoryMap → Option Pfa
  init_with [] = none
  init_with (e ∷ es) = construct_bitmap (map align_entry (e ∷ es))

  unfoldable pub pfa_init :
      (flags : ℕ) → List BootEntry → MemInfo → (fs_paddr fs_size : ℕ) → Option Pfa
  unfolding init_with
  pfa_init flags bs mem fs_paddr fs_size = init_with (fill_memory_map flags bs mem fs_paddr fs_size)
