-- ===== src/Pfa/Setup.antt =====
-- page_frame_allocator.c: the state that `pfa_init` leaves is one that the operations keep valid.
use aenix.Base.{replicate, ℕ, ◌+◌, ◌-◌, ◌*◌, ◌/◌, ◌≤◌, ◌<◌, ◌≡◌, List, ◌∷◌, ◌++◌, none}
use aenix.Math.{div_ceil}
use aenix.Pfa.{MemoryMap, Pfa}
use aenix.Pfa.Regions.{Regions}
use aenix.Pfa.Init.{take_frames}

-- The `pfs` frames from `paddr` on are the first ones of an entry, which has only the others then.
pub data IsTaken (pfs paddr : ℕ) : List MemoryMap → List MemoryMap → Type 0 where
  here :
      {e e' : MemoryMap} {es : List MemoryMap}
      → e.addr ≡ paddr
      → pfs * 0x1000 ≤ e.len
      → e'.addr ≡ paddr + pfs * 0x1000
      → e'.addr + e'.len ≡ e.addr + e.len
      → IsTaken pfs paddr (e ∷ es) (e' ∷ es)
  there :
      {e : MemoryMap} {es es' : List MemoryMap}
      → IsTaken pfs paddr es es'
      → IsTaken pfs paddr (e ∷ es) (e ∷ es')

-- The words of the bitmap, which has `size` bytes, but the last that it has a byte of.
abbrev pub AreFree : Pfa → (size : ℕ) → Type 0
AreFree p size =
    (rest : List ℕ) × (p.page_frames.start ≡ replicate ((size - 1) / 4) 0xFFFF_FFFF ++ rest)

module _ (find_next_vaddr : (size : ℕ) → ℕ) (map_kernel_memory : (paddr vaddr size : ℕ) → ℕ)
    (behind : List ℕ) where
  -- The bitmap cannot be made: no entry has room for it, there is no virtual address, or it cannot
  -- be mapped.
  pub data Fails (frames pfs : ℕ) (es : List MemoryMap) : Type 0 where
    no_room : take_frames pfs es ≡ none → Fails frames pfs es
    no_vaddr : find_next_vaddr (div_ceil frames 8) ≡ 0 → Fails frames pfs es
    no_mapping :
        (paddr : ℕ)
        → map_kernel_memory paddr (find_next_vaddr (div_ceil frames 8)) (div_ceil frames 8)
          < div_ceil frames 8
        → Fails frames pfs es
