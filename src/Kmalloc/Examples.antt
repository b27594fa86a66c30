-- ===== src/Kmalloc/Examples.antt =====
-- The theorems on kmalloc.c at a small heap: `base` at 10, and one free block of 2000 units.
use aenix.Base.{
  ◌+◌, ◌*◌, ◌≤◌, ◌<◌, ℕ, zero, suc, ◌≡◌, ◌⊎◌, inl, inr, refl, [], ◌∷◌, Option, some, none, arith,
  ◌==◌, if◌then◌else◌,
}
use aenix.Kmalloc.{
  Kheap, Header, Answer, take_block, units_for, kmalloc, kmalloc_loop, kfree, place_loop,
  insert_behind, is_place, acquire_more_heap, add_block, heap_bytes,
}
use aenix.Kmalloc.Search.{steps, Avoids}
use aenix.Kmalloc.Place.{IsPlaced, kfree-IsPlaced}
use aenix.Kmalloc.Insert.{Apart}
use aenix.Kmalloc.Roundtrip.{AllTooSmall, GoesBack, kfree-kmalloc}

abbrev headers : ℕ → Header
headers a =
    if a == 10
    then record { next = 100; size = 0 }
    else record { next = 10; size = if a == 100 then 2000 else 0 }

abbrev one_block : Kheap
one_block = record { headers = headers; freep = 10 }

steps-one_block :
    (k : ℕ)
    → ((steps one_block k 10 ≡ 10) ⊎ (steps one_block k 10 ≡ 100))
      × ((steps one_block k 100 ≡ 10) ⊎ (steps one_block k 100 ≡ 100))
unfolding steps
steps-one_block zero = (inl refl, inr refl)
steps-one_block (suc k) = let ih = steps-one_block k in (ih.1, ih.0)

one_block-Apart : (k : ℕ) → Apart one_block (steps one_block k 10)
one_block-Apart k = elim (steps-one_block k).0 [
  | inl e ↦ rw e (inr (inl (omega arith, omega arith)))
  | inr e ↦ rw e (inr (inr (omega arith, omega arith)))
]

one_block-Avoids : Avoids one_block 3000 10
one_block-Avoids k = elim (steps-one_block k).0 [
  | inl e ↦ λ e'. omega (arith, e, e')
  | inr e ↦ λ e'. omega (arith, e, e')
]

kfree-IsPlaced_example :
    (s' : Kheap) × (kfree 2 one_block 3001 ≡ some s') × IsPlaced 1 one_block 3000 s'
unfolding steps
kfree-IsPlaced_example = kfree-IsPlaced 1 one_block 3000 refl one_block-Avoids

kfree-kmalloc_example :
    (units : ℕ) × (80 + 8 ≤ units * 8)
    × (units * 8 < 80 + 16)
    × (r : ℕ × Kheap) × (kmalloc 2 10 one_block 80 [] ≡ some r)
    × (((r ≡ (0, one_block)) × AllTooSmall one_block units 10)
        ⊎ ((k : ℕ) × GoesBack one_block units (steps one_block k 10) r))
unfolding steps
kfree-kmalloc_example =
    kfree-kmalloc 1 10 one_block 80 (λ e. omega (arith, e)) refl one_block-Apart (omega arith)
      (omega arith)

abbrev empty : Kheap
empty = record { headers = λ a. record { next = 0; size = 0 }; freep = 0 }

abbrev answer : Answer
answer = record { paddr = 0x20_0000; vaddr = 0xC100_0000; mapped_mem = 8192 }

abbrev pointer : Option (ℕ × Kheap) → ℕ
pointer none = 0
pointer (some r) = r.0

-- The first call asks for two pages, of 1024 units, at the virtual address 0xC100_0000.
first_call : pointer (kmalloc 5 10 empty 80 (answer ∷ [])) ≡ 0x1820_03F6
unfolding kmalloc kmalloc_loop acquire_more_heap add_block kfree insert_behind units_for heap_bytes
    aenix.Math.div_ceil place_loop is_place take_block
first_call = refl
