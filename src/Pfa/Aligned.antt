-- ===== src/Pfa/Aligned.antt =====
-- page_frame_allocator.c: the entries of the memory map before and after they are aligned, and
-- what the removal of the file system's memory leaves.
use aenix.Base.{
  ℕ, ◌+◌, ◌-◌, ◌%◌, ◌≤◌, ◌<◌, ◌≡◌, refl, List, [], ◌∷◌, map, u32, add32, sub32, arith, lt→ltb,
}
use aenix.Math.{align_up}
use aenix.Math.Laws.{align_up_lem, align_down_lem}
use aenix.Pfa.{MemoryMap}
use aenix.Pfa.Regions.{Regions}
use aenix.Pfa.Init.{align_entry, without_fs}

-- Entries in ascending order from `lo` on, each a page at least, which end a page below 2 ^ 32.
abbrev pub Ascending : ℕ → List MemoryMap → Type 0
Ascending lo [] = Unit
Ascending lo (e ∷ es) =
    (lo ≤ e.addr)
    × (0x1000 ≤ e.len)
    × (e.addr + e.len + 0x1000 ≤ u32)
    × Ascending (e.addr + e.len) es

-- An aligned entry lies in the entry.
pub align_entry-inside :
    (e : MemoryMap)
    → 0x1000 ≤ e.len
    → e.addr + e.len + 0x1000 ≤ u32
    → (e.addr ≤ (align_entry e).addr)
      × ((align_entry e).addr % 0x1000 ≡ 0)
      × ((align_entry e).len % 0x1000 ≡ 0)
      × ((align_entry e).addr + (align_entry e).len ≤ e.addr + e.len)
unfolding align_entry
align_entry-inside e big small =
    let (whole, above, near) = align_up_lem e.addr 0x1000 (omega arith) (omega arith) in
    let pad : sub32 (align_up e.addr 0x1000) e.addr ≡ align_up e.addr 0x1000 - e.addr =
      omega (arith, above, near) in
    let left = sub32 e.len (sub32 (align_up e.addr 0x1000) e.addr) in
    let rest : left ≡ e.len - (align_up e.addr 0x1000 - e.addr) = omega (arith, pad, near) in
    let (whole', below, near') = align_down_lem left 0x1000 (omega arith) (omega (arith, rest)) in
    (above, whole, whole', omega (arith, above, near, rest, below))

Regions-weaken : (lo hi : ℕ) (es : List MemoryMap) → lo ≤ hi → Regions hi es → Regions lo es
Regions-weaken lo hi [] le r = tt
Regions-weaken lo hi (e ∷ es) le (a, b, c, d, r) = (omega arith, b, c, d, r)

pub align-Regions :
    (lo : ℕ) (es : List MemoryMap) → Ascending lo es → Regions lo (map align_entry es)
align-Regions lo [] a = tt
align-Regions lo (e ∷ es) (above, big, small, rest) =
    let (ge, whole, whole', inside) = align_entry-inside e big small in
    (
      omega (arith, ge),
      whole,
      whole',
      omega (arith, inside),
      Regions-weaken _ _ (map align_entry es) inside (align-Regions (e.addr + e.len) es rest),
    )

-- Where the file system lies inside an entry that ends below 2^32, two entries are left: one that
-- ends where the file system begins, and one that begins where it ends but reaches beyond the end of
-- the entry, by the bytes of the entry before the end of the file system.
pub without_fs-beyond :
    (fs_paddr fs_size : ℕ) (e : MemoryMap)
    → e.addr < fs_paddr
    → fs_paddr + fs_size < e.addr + e.len
    → e.addr + e.len < u32
    → (low : MemoryMap) × (high : MemoryMap) × (without_fs fs_paddr fs_size e ≡ low ∷ high ∷ [])
      × (low.addr ≡ e.addr)
      × (low.addr + low.len ≡ fs_paddr)
      × (high.addr ≡ fs_paddr + fs_size)
      × (high.addr + high.len ≡ e.addr + e.len + (fs_paddr + fs_size - e.addr))
      × (e.addr + e.len < high.addr + high.len)
unfolding without_fs
without_fs-beyond fs_paddr fs_size e lt fits small =
    let end : add32 fs_paddr fs_size ≡ fs_paddr + fs_size = omega arith in
    let top : add32 e.addr e.len ≡ e.addr + e.len = omega arith in
    let first : sub32 fs_paddr e.addr ≡ fs_paddr - e.addr = omega arith in
    let second : sub32 e.len (sub32 (fs_paddr + fs_size) (fs_paddr + fs_size)) ≡ e.len =
      omega arith in
    (
      record { addr = e.addr; len = fs_paddr - e.addr },
      record { addr = fs_paddr + fs_size; len = e.len },
      rw (end, top, first, second, lt→ltb e.addr fs_paddr lt, lt→ltb _ _ fits) refl,
      refl,
      omega arith,
      refl,
      omega arith,
      omega arith,
    )
