-- ===== src/Kmalloc.antt =====
-- kmalloc.c: the heap of the kernel, with its circular list of free blocks. Addresses are counted
-- in headers of eight bytes, and `Headers` is what the headers in memory hold. A block is its
-- header and the units behind it; the pointer that `kmalloc` returns is one unit behind the header.
pub mod Search
pub mod Place
pub mod Insert
pub mod Whole
pub mod Cut
pub mod Roundtrip
mod Examples
use aenix.Base.{
  ℕ, zero, suc, List, [], ◌∷◌, ◌+◌, ◌-◌, ◌*◌, ◌/◌, Bool, true, false, not, ◌&&◌, ◌||◌, Option, none,
  some, u32, ltb, leb, ◌==◌, if◌then◌else◌, add32, mul32,
}
use aenix.Math.{div_ceil}

-- MIN_BLOCK_SIZE, in units
abbrev pub min_block_size : ℕ
min_block_size = 1024

abbrev pub sizeof_header : ℕ
sizeof_header = 8

abbrev pub four_kb : ℕ
four_kb = 4096

pub record Header : Type 0 where
  pub next : ℕ
  pub size : ℕ

-- `freep` is 0 before the first call.
pub record Kheap : Type 0 where
  pub headers : ℕ → Header
  pub freep : ℕ

abbrev pub write : (ℕ → Header) → ℕ → Header → ℕ → Header
write headers p e a = if a == p then e else headers a

abbrev pub with_header : Kheap → ℕ → Header → Kheap
with_header s p e = record s { headers = write s.headers p e }

abbrev pub next_of : Kheap → ℕ → ℕ
next_of s p = (s.headers p).next

abbrev pub size_of : Kheap → ℕ → ℕ
size_of s p = (s.headers p).size

-- Whether the block at `bp` comes between the free block at `p` and the one after it.
unfoldable pub is_place : Kheap → (bp p : ℕ) → Bool
is_place s bp p =
    (ltb p bp && ltb bp (next_of s p))
    || (leb (next_of s p) p && (ltb p bp || ltb bp (next_of s p)))

-- `none` is out of fuel.
unfoldable pub place_loop : (fuel : ℕ) → Kheap → (bp p : ℕ) → Option ℕ
place_loop zero s bp p = none
place_loop (suc fuel) s bp p =
    let rest = place_loop fuel s bp (next_of s p) in if is_place s bp p then some p else rest

unfoldable pub join_upper : Kheap → (bp p : ℕ) → Kheap
join_upper s bp p =
    let next = next_of s p in
    if bp + size_of s bp == next
    then with_header s bp (record { next = next_of s next; size = size_of s bp + size_of s next })
    else with_header s bp (record { next = next; size = size_of s bp })

unfoldable pub join_lower : Kheap → (bp p : ℕ) → Kheap
join_lower s bp p =
    if p + size_of s p == bp
    then with_header s p (record { next = next_of s bp; size = size_of s p + size_of s bp })
    else with_header s p (record { next = bp; size = size_of s p })

-- The block goes behind the free block at `p`.
unfoldable pub insert_behind : Kheap → (bp p : ℕ) → Kheap
unfolding join_upper join_lower
insert_behind s bp p = record (join_lower (join_upper s bp p) bp p) { freep = p }

unfoldable pub insert_at : Kheap → (bp : ℕ) → Option ℕ → Option Kheap
insert_at s bp none = none
insert_at s bp (some p) = some (insert_behind s bp p)

-- `ap` is in units too; nothing happens for NULL.
unfoldable pub kfree : (fuel : ℕ) → Kheap → (ap : ℕ) → Option Kheap
unfolding insert_at
kfree fuel s ap =
    if ap == 0 then some s else insert_at s (ap - 1) (place_loop fuel s (ap - 1) s.freep)

-- The list with nothing but `base` in it, before the first block.
unfoldable pub kmalloc_start : (base : ℕ) → Kheap → Kheap
kmalloc_start base s =
    if s.freep == 0
    then record { headers = write s.headers base (record { next = base; size = 0 }); freep = base }
    else s

-- The block at `p` is big enough: all of it goes, or its end.
unfoldable pub take_block : Kheap → (nunits prevp p : ℕ) → ℕ × Kheap
take_block s nunits prevp p =
    if size_of s p == nunits
    then (
      p + 1,
      record (with_header s prevp (record (s.headers prevp) { next = next_of s p })) {
        freep = prevp;
      },
    )
    else let s' = with_header s p (record (s.headers p) { size = size_of s p - nunits }) in
      let q = p + size_of s' p in
      (q + 1, record (with_header s' q (record (s'.headers q) { size = nunits })) { freep = prevp })

-- What `pfa_allocate`, `pdt_kernel_find_next_vaddr` and `pdt_map_kernel_memory` return in one call
-- of `acquire_more_heap`.
pub record Answer : Type 0 where
  pub paddr : ℕ
  pub vaddr : ℕ
  pub mapped_mem : ℕ

-- The bytes that are asked for.
unfoldable pub heap_bytes : (nunits : ℕ) → ℕ
heap_bytes nunits =
    let units = if ltb nunits min_block_size then min_block_size else nunits in
    mul32 (div_ceil (mul32 units sizeof_header) four_kb) four_kb

-- The block at `p`, of `bytes` bytes, goes into the free list.
unfoldable pub add_block : (fuel : ℕ) → Kheap → (p bytes : ℕ) → Option Kheap
add_block fuel s p bytes =
    let s' = with_header s p (record (s.headers p) { size = bytes / sizeof_header }) in
    kfree fuel s' (p + 1)

no_heap : Answer → (bytes : ℕ) → Bool
no_heap a bytes = (a.paddr == 0) || (a.vaddr == 0) || ltb a.mapped_mem bytes

found : Option Kheap → Option (Bool × Kheap)
found none = none
found (some s) = some (true, s)

-- Whether there is more heap; then it is searched from `freep`.
unfoldable pub acquire_more_heap :
    (fuel : ℕ) → Kheap → (nunits : ℕ) → Answer → Option (Bool × Kheap)
unfolding no_heap found
acquire_more_heap fuel s nunits a =
    let bytes = heap_bytes nunits in
    let added = found (add_block fuel s (a.vaddr / sizeof_header) bytes) in
    if no_heap a bytes then some (false, s) else added

-- What the search at `p` does next.
pub data Next : Type 0 where
  takes : Next
  wraps : Next
  goes_on : Next

abbrev pub look : Kheap → (nunits p : ℕ) → Next
look s nunits p =
    if leb nunits (size_of s p) then takes else if p == s.freep then wraps else goes_on

-- The search, with an answer for each time that it wraps around; without one it returns NULL.
unfoldable pub kmalloc_loop :
    (fuel : ℕ) → Kheap → (nunits prevp p : ℕ) → List Answer → Option (ℕ × Kheap)
kmalloc_loop zero s nunits prevp p answers = none
kmalloc_loop (suc fuel) s nunits prevp p [] =
    let rest = kmalloc_loop fuel s nunits p (next_of s p) [] in
    elim (look s nunits p) [
      | takes ↦ some (take_block s nunits prevp p)
      | wraps ↦ some (0, s)
      | goes_on ↦ rest
    ]
kmalloc_loop (suc fuel) s nunits prevp p (a ∷ answers) =
    let rest = kmalloc_loop fuel s nunits p (next_of s p) (a ∷ answers) in
    let from = λ (s' : Kheap). kmalloc_loop fuel s' nunits s'.freep (next_of s' s'.freep) answers in
    elim (look s nunits p) [
      | takes ↦ some (take_block s nunits prevp p)
      | wraps ↦ elim (acquire_more_heap fuel s nunits a) [
        | none ↦ none
        | some (more, s') ↦ if more then from s' else some (0, s')
      ]
      | goes_on ↦ rest
    ]

unfoldable pub units_for : (nbytes : ℕ) → ℕ
units_for nbytes = add32 ((add32 nbytes 7) / sizeof_header) 1

-- `base` is the address of the variable `base`.
unfoldable pub kmalloc : (fuel base : ℕ) → Kheap → (nbytes : ℕ) → List Answer → Option (ℕ × Kheap)
unfolding kmalloc_start
kmalloc fuel base s nbytes answers =
    let s' = kmalloc_start base s in
    if nbytes == 0
    then some (0, s)
    else kmalloc_loop fuel s' (units_for nbytes) s'.freep (next_of s' s'.freep) answers
