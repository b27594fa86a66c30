-- ===== src/Kmalloc/Roundtrip.antt =====
-- kmalloc.c: freeing what was just allocated.

use aenix.Base.{
  ◌^◌, ◌*◌, nat_cases, ℕ, zero, suc, ◌+◌, ◌-◌, ◌<◌, ◌≤◌, ◌≡◌, ◌≢◌, ◌⊎◌, inl, inr, refl, ◌∙◌, ap,
  true, false, [], some, arith, leb, ◌==◌, Bool-cases, leb→le,
}
use aenix.Kmalloc.{
  Kheap, Header, next_of, size_of, take_block, kmalloc_loop, kmalloc_start, kmalloc, units_for,
  is_place, place_loop, insert_behind, insert_at, kfree,
}
use aenix.Kmalloc.Search.{steps}
use aenix.Kmalloc.Insert.{Apart}
use aenix.Kmalloc.Whole.{without, without-p, whole-IsPlace, whole-restores}
use aenix.Kmalloc.Cut.{
  smaller, bp, cut, bp-end, above_low, cut-bp, before-next, cut-not_first, cut-IsPlace,
  cut-restores,
}

-- What freeing leaves of the headers: they are as they were, but for one inside a block of the list.
abbrev pub Restores : Kheap → (bp prevp : ℕ) → Kheap → Type 0
Restores s bp prevp s' =
    ((a : ℕ) → a ≢ bp → s'.headers a ≡ s.headers a)
    × ((s'.headers bp ≡ s.headers bp)
        ⊎ ((next_of s prevp < bp) × (bp < next_of s prevp + size_of s (next_of s prevp))))

-- A block that `kmalloc` may take: it has room for `n` units, and freeing it restores the list.
abbrev pub GoesBack : Kheap → (n prevp : ℕ) → ℕ × Kheap → Type 0
GoesBack s n prevp r =
    (s' : Kheap) × (kfree 2 r.1 r.0 ≡ some s')
    × (size_of r.1 (r.0 - 1) ≡ n)
    × Restores s (r.0 - 1) prevp s'

kfree-first :
    (s : Kheap) (bp : ℕ)
    → is_place s bp s.freep ≡ true
    → kfree 2 s (bp + 1) ≡ some (insert_behind s bp s.freep)
unfolding kfree place_loop insert_at
kfree-first s bp here =
    let unit : bp + 1 - 1 ≡ bp = omega arith in
    let given : (bp + 1 == 0) ≡ false = ground arith in rw (given, unit, here) refl

kfree-second :
    (s : Kheap) (bp p : ℕ)
    → next_of s s.freep ≡ p
    → is_place s bp s.freep ≡ false
    → is_place s bp p ≡ true
    → kfree 2 s (bp + 1) ≡ some (insert_behind s bp p)
unfolding kfree place_loop insert_at
kfree-second s bp p next not_here here =
    let unit : bp + 1 - 1 ≡ bp = omega arith in
    let given : (bp + 1 == 0) ≡ false = ground arith in rw (given, unit, not_here, next, here) refl

module _ (s : Kheap) (n q : ℕ) (apart : Apart s q) where
  take_block-whole :
      size_of s (next_of s q) ≡ n
      → take_block s n q (next_of s q) ≡ (next_of s q + 1, without s q apart)
  unfolding take_block without
  take_block-whole e =
      let all : (size_of s (next_of s q) == n) ≡ true = ground (arith, e) in rw all refl

  whole-GoesBack : size_of s (next_of s q) ≡ n → GoesBack s n q (next_of s q + 1, without s q apart)
  unfolding without
  whole-GoesBack e =
      let unit : next_of s q + 1 - 1 ≡ next_of s q = omega arith in
      rw unit (
        insert_behind (without s q apart) (next_of s q) q,
        kfree-first (without s q apart) (next_of s q) (whole-IsPlace s q apart),
        ap (λ (h : Header). h.size) (without-p s q apart) ∙ e,
        (λ a ne. whole-restores s q apart a, inl (whole-restores s q apart (next_of s q))),
      )

  module _ (some_units : 0 < n) (room : n < size_of s (next_of s q)) where
    take_block-cut :
        take_block s n q (next_of s q)
        ≡ (bp s q n apart some_units room + 1, cut s q n apart some_units room)
    unfolding take_block bp cut smaller
    take_block-cut =
        let part : (size_of s (next_of s q) == n) ≡ false = ground (arith, room) in rw part refl

    cut-GoesBack :
        GoesBack s n q (bp s q n apart some_units room + 1, cut s q n apart some_units room)
    unfolding cut
    cut-GoesBack =
        let block = bp s q n apart some_units room in
        let s' = cut s q n apart some_units room in
        let unit : block + 1 - 1 ≡ block = omega arith in
        let end = bp-end s q n apart some_units room in
        let above = above_low s q n apart some_units room in
        rw unit (
          insert_behind s' block (next_of s q),
          kfree-second s' block (next_of s q) (before-next s q n apart some_units room)
              (cut-not_first s q n apart some_units room) (cut-IsPlace s q n apart some_units room),
          cut-bp s q n apart some_units room,
          (cut-restores s q n apart some_units room, inr (above, omega (arith, end, some_units))),
        )

take_block-GoesBack :
    (s : Kheap) (n q : ℕ)
    → Apart s q
    → 0 < n
    → n ≤ size_of s (next_of s q)
    → GoesBack s n q (take_block s n q (next_of s q))
take_block-GoesBack s n q apart some_units room = elim (nat_cases (size_of s (next_of s q)) n) [
  | inl e ↦ rw (take_block-whole s n q apart e) (whole-GoesBack s n q apart e)
  | inr ne ↦
      let more : n < size_of s (next_of s q) = omega (arith, room, ne) in
      rw (take_block-cut s n q apart some_units more) (cut-GoesBack s n q apart some_units more)
]

-- From `q` the list comes to `freep` again, and none of the blocks up to there has room for `n` units.
abbrev pub AllTooSmall : Kheap → (n q : ℕ) → Type 0
AllTooSmall s n q =
    (left : ℕ) × (steps s (suc left) q ≡ s.freep)
    × ((k : ℕ) → k ≤ left → size_of s (steps s (suc k) q) < n)

-- What the search ends with: a block behind one that the list comes to, or NULL where no block has
-- room.
abbrev Found : Kheap → (n q : ℕ) → ℕ × Kheap → Type 0
Found s n q r =
    ((k : ℕ) × (n ≤ size_of s (next_of s (steps s k q)))
      × (r ≡ take_block s n (steps s k q) (next_of s (steps s k q))))
    ⊎ ((r ≡ (0, s)) × AllTooSmall s n q)

AllTooSmall-more :
    (s : Kheap) (n q : ℕ)
    → size_of s (next_of s q) < n
    → AllTooSmall s n (next_of s q)
    → AllTooSmall s n q
unfolding steps
AllTooSmall-more s n q small (left, back, rest) = (suc left, back, too_small)
  where
    too_small : (k : ℕ) → k ≤ suc left → size_of s (steps s (suc k) q) < n
    too_small zero le = small
    too_small (suc k) le = rest k (omega arith)

AllTooSmall-first :
    (s : Kheap) (n q : ℕ) → size_of s (next_of s q) < n → next_of s q ≡ s.freep → AllTooSmall s n q
unfolding steps
AllTooSmall-first s n q small back =
    (0, back, λ k le. let first : k ≡ 0 = omega arith in rw first small)

-- Without more heap, the search ends when it is back at `freep`.
kmalloc_loop-Found :
    (left fuel : ℕ) (s : Kheap) (n q : ℕ)
    → left < fuel
    → steps s (suc left) q ≡ s.freep
    → (r : ℕ × Kheap) × (kmalloc_loop fuel s n q (next_of s q) [] ≡ some r) × Found s n q r
unfolding kmalloc_loop steps
kmalloc_loop-Found left zero s n q lt back = absurd (omega arith)
kmalloc_loop-Found zero (suc fuel) s n q lt back =
    let around : (next_of s q == s.freep) ≡ true = ground (arith, back) in
    elim (Bool-cases (leb n (size_of s (next_of s q)))) [
      | inl fits ↦ (
        take_block s n q (next_of s q),
        rw (kmalloc_loop, fits) refl,
        inl (0, leb→le n (size_of s (next_of s q)) fits, refl),
      )
      | inr small ↦ (
        (0, s),
        rw (kmalloc_loop, small, around) refl,
        inr (refl, AllTooSmall-first s n q (ground (arith, small)) back),
      )
    ]
kmalloc_loop-Found (suc left) (suc fuel) s n q lt back =
    elim (Bool-cases (leb n (size_of s (next_of s q)))) [
      | inl fits ↦ (
        take_block s n q (next_of s q),
        rw (kmalloc_loop, fits) refl,
        inl (0, leb→le n (size_of s (next_of s q)) fits, refl),
      )
      | inr small ↦ elim (Bool-cases (next_of s q == s.freep)) [
        | inl around ↦ (
          (0, s),
          rw (kmalloc_loop, small, around) refl,
          inr (refl, AllTooSmall-first s n q (ground (arith, small)) (ground (arith, around))),
        )
        | inr on ↦
            let (r, ends, f) = kmalloc_loop-Found left fuel s n (next_of s q) (omega arith) back in
            (
              r,
              rw (kmalloc_loop, small, on) ends,
              elim f [
                | inl (k, room, same) ↦ inl (suc k, room, same)
                | inr (same, too_small) ↦
                    inr (same, AllTooSmall-more s n q (ground (arith, small)) too_small)
              ],
            )
      ]
    ]

-- The units of a block: enough for the bytes and the header, with less than one to spare.
units_for_lem :
    (nbytes : ℕ)
    → nbytes + 7 < 2 ^ 32
    → (nbytes + 8 ≤ units_for nbytes * 8) × (units_for nbytes * 8 < nbytes + 16)
unfolding units_for
units_for_lem nbytes lt = (omega arith, omega arith)

-- Where the free list leads back to `freep` after `n + 1` steps, its blocks are apart and the bytes
-- are more than 0 and at least 8 below 2^32, `kmalloc` without more heap ends with fuel for these
-- steps. It returns NULL with the heap as it was, where all blocks of the list are too small; or a
-- block of the list or the end of one that has as many units as the bytes and a header need, and
-- `kfree` of it, within two steps, restores the list.
pub kfree-kmalloc :
    (n base : ℕ) (s : Kheap) (nbytes : ℕ)
    → s.freep ≢ 0
    → steps s (suc n) s.freep ≡ s.freep
    → ((k : ℕ) → Apart s (steps s k s.freep))
    → 0 < nbytes
    → nbytes + 7 < 2 ^ 32
    → (units : ℕ) × (nbytes + 8 ≤ units * 8)
      × (units * 8 < nbytes + 16)
      × (r : ℕ × Kheap) × (kmalloc (suc n) base s nbytes [] ≡ some r)
      × (((r ≡ (0, s)) × AllTooSmall s units s.freep)
          ⊎ ((k : ℕ) × GoesBack s units (steps s k s.freep) r))
unfolding kmalloc kmalloc_start
kfree-kmalloc n base s nbytes started back apart some_bytes few =
    let units = units_for nbytes in
    let (enough, near) = units_for_lem nbytes few in
    let empty : (s.freep == 0) ≡ false = ground (arith, started) in
    let bytes : (nbytes == 0) ≡ false = ground (arith, some_bytes) in
    let (r, ends, f) = kmalloc_loop-Found n (suc n) s units s.freep (omega arith) back in
    (
      units,
      enough,
      near,
      r,
      rw (bytes, empty) ends,
      elim f [
        | inl (k, room, same) ↦ inr (
          k,
          rw same (
              take_block-GoesBack s units (steps s k s.freep) (apart k) (omega (arith, enough))
                room),
        )
        | inr none_fits ↦ inl none_fits
      ],
    )
