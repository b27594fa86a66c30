-- ===== src/Kmalloc/Insert.antt =====
-- kmalloc.c: putting a block behind another one in the free list.
use aenix.Base.{ℕ, ◌+◌, ◌<◌, ◌≤◌, ◌≡◌, ◌≢◌, ◌⊎◌, refl, sym, ◌∙◌, ap, ap₂, true, false, arith, ◌==◌}
use aenix.Kmalloc.{
  Kheap, Header, next_of, size_of, with_header, is_place, join_upper, join_lower, insert_behind,
}
use aenix.Kmalloc.Place.{with_header-others}

-- The block at `prevp` and the two after it, by their addresses: they are three blocks in order,
-- from the lowest one on or around the end of the list, with something between neighbours.
abbrev pub Apart : Kheap → ℕ → Type 0
Apart s prevp =
    ((prevp + size_of s prevp < next_of s prevp)
      × (next_of s prevp + size_of s (next_of s prevp) < next_of s (next_of s prevp)))
    ⊎ ((prevp + size_of s prevp < next_of s prevp) × (next_of s (next_of s prevp) ≤ prevp))
    ⊎ ((next_of s prevp + size_of s (next_of s prevp) < next_of s (next_of s prevp))
        × (next_of s (next_of s prevp) ≤ prevp))

abbrev pub sized : (next size : ℕ) → Header
sized next size = record { next = next; size = size }

pub with_header_self : (s : Kheap) (p : ℕ) (e : Header) → (with_header s p e).headers p ≡ e
with_header_self s p e = ground arith

join_upper-plain :
    (s : Kheap) (bp p : ℕ)
    → (bp + size_of s bp == next_of s p) ≡ false
    → join_upper s bp p ≡ with_header s bp (record { next = next_of s p; size = size_of s bp })
unfolding join_upper
join_upper-plain s bp p e = rw e refl

join_lower-apart :
    (s : Kheap) (bp p : ℕ)
    → (p + size_of s p == bp) ≡ false
    → join_lower s bp p ≡ with_header s p (record { next = bp; size = size_of s p })
unfolding join_lower
join_lower-apart s bp p e = rw e refl

join_lower-joins :
    (s : Kheap) (bp p : ℕ)
    → (p + size_of s p == bp) ≡ true
    → join_lower s bp p
      ≡ with_header s p (record { next = next_of s bp; size = size_of s p + size_of s bp })
unfolding join_lower
join_lower-joins s bp p e = rw e refl

-- Putting the block at `bp` behind the one at `p`, where it does not touch what follows.
module _ (s : Kheap) (bp p : ℕ) (no_upper : (bp + size_of s bp == next_of s p) ≡ false)
    (other : p ≢ bp) where
  abbrev linked : Kheap
  linked = with_header s bp (record { next = next_of s p; size = size_of s bp })

  linked-size : size_of linked p ≡ size_of s p
  linked-size = ap (λ h. h.size) (with_header-others s bp p _ other)

  abbrev grown : (size : ℕ) → Header → Header
  grown size h = record { next = h.next; size = size + h.size }

  insert_behind-upper : insert_behind s bp p ≡ record (join_lower linked bp p) { freep = p }
  unfolding insert_behind
  insert_behind-upper =
      ap (λ t. record (join_lower t bp p) { freep = p }) (join_upper-plain s bp p no_upper)

  at : (a : ℕ) → (insert_behind s bp p).headers a ≡ (join_lower linked bp p).headers a
  at a = ap (λ (t : Kheap). t.headers a) insert_behind-upper

  -- Where it does not touch that block, it becomes the next one.
  pub insert_behind-apart :
      (p + size_of s p == bp) ≡ false
      → ((insert_behind s bp p).headers p ≡ record { next = bp; size = size_of s p })
        × ((insert_behind s bp p).headers bp ≡ record { next = next_of s p; size = size_of s bp })
  insert_behind-apart e =
      let low = join_lower-apart linked bp p (rw linked-size e) in
      (
        at p
            ∙ ap (λ (t : Kheap). t.headers p) low
            ∙ with_header_self linked p _
            ∙ rw linked-size refl,
        at bp
            ∙ ap (λ (t : Kheap). t.headers bp) low
            ∙ with_header-others linked p bp _ (λ e'. other (sym e'))
            ∙ with_header_self s bp _,
      )

  -- Where it begins at the end of that block, it is joined to it.
  pub insert_behind-joins :
      (p + size_of s p == bp) ≡ true
      → (insert_behind s bp p).headers p
        ≡ record { next = next_of s p; size = size_of s p + size_of s bp }
  insert_behind-joins e =
      let low = join_lower-joins linked bp p (rw linked-size e) in
      at p
      ∙ ap (λ (t : Kheap). t.headers p) low
      ∙ with_header_self linked p _
      ∙ ap₂ grown linked-size (with_header_self s bp _)

pub is_place-here :
    (t : Kheap) (bp q r : ℕ)
    → next_of t q ≡ r
    → ((q < bp) × (bp < r)) ⊎ ((r ≤ q) × ((q < bp) ⊎ (bp < r)))
    → is_place t bp q ≡ true
unfolding is_place
is_place-here t bp q r e h = ground (arith, e, h)

pub is_place-later :
    (t : Kheap) (bp q r : ℕ)
    → next_of t q ≡ r
    → ((bp < q) ⊎ (r ≤ bp))
    → ((q < r) ⊎ ((bp ≤ q) × (r ≤ bp)))
    → is_place t bp q ≡ false
unfolding is_place
is_place-later t bp q r e h h' = ground (arith, e, h, h')
