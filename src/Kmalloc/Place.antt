-- ===== src/Kmalloc/Place.antt =====
-- kmalloc.c: `kfree` puts a block into the free list.
use aenix.Base.{
  ◌≤◌, ap, ℕ, suc, ◌+◌, ◌<◌, ◌≡◌, ◌≢◌, ◌⊎◌, inl, inr, refl, sym, ◌∙◌, subst, ◌-◌, true, false, some,
  arith, ◌==◌, Bool-cases,
}
use aenix.Kmalloc.{
  Kheap, Header, with_header, size_of, next_of, is_place, join_upper, join_lower, insert_behind,
  insert_at, kfree,
}
use aenix.Kmalloc.Search.{steps, Avoids, place_loop-ends}

-- The block at `p` has the unit `a`.
abbrev pub Has : Kheap → (p a : ℕ) → Type 0
Has s p a = (p ≤ a) × (a < p + size_of s p)

-- A unit of the free block at `q`, or of the one that the list leads to from there.
abbrev pub HasNear : Kheap → (q a : ℕ) → Type 0
HasNear s q a = Has s q a ⊎ Has s (next_of s q) a

-- Between two blocks of the list in the order of the addresses, or at the turn from the last one to
-- the first.
abbrev pub IsBetween : (p bp next : ℕ) → Type 0
IsBetween p bp next =
    ((p < bp) × (bp < next)) ⊎ ((next ≤ p) × (p < bp)) ⊎ ((next ≤ p) × (bp < next))

-- The list goes on with the block behind `q` in `s`, or, where its units are free there, with the one
-- behind that.
abbrev pub GoesOn : (s s' : Kheap) → (q x : ℕ) → Type 0
GoesOn s s' q x =
    (x ≡ next_of s q)
    ⊎ ((x ≡ next_of s (next_of s q)) × ((a : ℕ) → Has s (next_of s q) a → HasNear s' q a))

-- What `kfree` leaves: in the order of the addresses, the block at `bp` belongs behind the block of
-- the list at which the next search begins, and its units are free there, as are those that the
-- block of the list had; other headers are as before.
pub record IsPlaced (n : ℕ) (s : Kheap) (bp : ℕ) (s' : Kheap) : Type 0 where
  pub number : ℕ
  pub early : number < suc n
  pub belongs : IsBetween (steps s number s.freep) bp (next_of s (steps s number s.freep))
  pub begins : s'.freep ≡ steps s number s.freep
  pub frees : (a : ℕ) → Has s bp a → HasNear s' s'.freep a
  pub keeps : (a : ℕ) → Has s s'.freep a → Has s' s'.freep a
  pub leads :
      ((next_of s' s'.freep ≡ bp) × GoesOn s s' s'.freep (next_of s' bp))
      ⊎ GoesOn s s' s'.freep (next_of s' s'.freep)
  pub others : (a : ℕ) → a ≢ bp → a ≢ s'.freep → s'.headers a ≡ s.headers a

between : (s : Kheap) (bp p : ℕ) → is_place s bp p ≡ true → IsBetween p bp (next_of s p)
unfolding is_place
between s bp p e = ground (arith, e)

pub with_header-others :
    (s : Kheap) (p a : ℕ) (e : Header) → a ≢ p → (with_header s p e).headers a ≡ s.headers a
with_header-others s p a e ne = ground (arith, ne)

join_upper-others : (s : Kheap) (bp p a : ℕ) → a ≢ bp → (join_upper s bp p).headers a ≡ s.headers a
unfolding join_upper
join_upper-others s bp p a ne = elim (Bool-cases (bp + size_of s bp == next_of s p)) [
  | inl e ↦ rw e (with_header-others s bp a _ ne)
  | inr e ↦ rw e (with_header-others s bp a _ ne)
]

join_lower-others : (s : Kheap) (bp p a : ℕ) → a ≢ p → (join_lower s bp p).headers a ≡ s.headers a
unfolding join_lower
join_lower-others s bp p a ne = elim (Bool-cases (p + size_of s p == bp)) [
  | inl e ↦ rw e (with_header-others s p a _ ne)
  | inr e ↦ rw e (with_header-others s p a _ ne)
]

pub insert_behind-others :
    (s : Kheap) (bp p a : ℕ) → a ≢ bp → a ≢ p → (insert_behind s bp p).headers a ≡ s.headers a
unfolding insert_behind
insert_behind-others s bp p a ne ne' =
    join_lower-others (join_upper s bp p) bp p a ne' ∙ join_upper-others s bp p a ne

-- What `join_upper` makes of the block at `bp`: it ends where the next one does, or where it did.
upper_cases :
    (s : Kheap) (bp p : ℕ)
    → let e = (join_upper s bp p).headers bp in
      let next = next_of s p in
      ((bp + size_of s bp ≡ next)
        × (e.next ≡ next_of s next)
        × (e.size ≡ size_of s bp + size_of s next))
      ⊎ ((e.next ≡ next) × (e.size ≡ size_of s bp))
unfolding join_upper
upper_cases s bp p =
    let self : (bp == bp) ≡ true = ground arith in
    elim (Bool-cases (bp + size_of s bp == next_of s p)) [
      | inl e ↦ rw (e, self) (inl (ground (arith, e), refl, refl))
      | inr e ↦ rw (e, self) (inr (refl, refl))
    ]

-- What becomes of the block at `p`.
lower_cases :
    (s : Kheap) (bp p : ℕ)
    → p ≢ bp
    → let u = join_upper s bp p in
      let w = insert_behind s bp p in
      ((p + size_of s p ≡ bp)
        × (next_of w p ≡ next_of u bp)
        × (size_of w p ≡ size_of s p + size_of u bp))
      ⊎ ((next_of w p ≡ bp)
          × (size_of w p ≡ size_of s p)
          × (next_of w bp ≡ next_of u bp)
          × (size_of w bp ≡ size_of u bp))
unfolding insert_behind join_lower
lower_cases s bp p ne =
    let u = join_upper s bp p in
    let same : size_of u p ≡ size_of s p =
      ap (λ (h : Header). h.size) (join_upper-others s bp p p ne) in
    let self : (p == p) ≡ true = ground arith in
    let other : (bp == p) ≡ false = ground (arith, ne) in
    elim (Bool-cases (p + size_of u p == bp)) [
      | inl e ↦ (inl (ground (arith, e, same), rw e (ground arith), rw e (ground (arith, same))))
      | inr e ↦
          (inr (
            rw e (ground arith),
            rw e (ground (arith, same)),
            rw e (ground (arith, ne)),
            rw e (ground (arith, ne)),
          ))
    ]

module _ (s : Kheap) (bp p : ℕ) (ne : p ≢ bp) where
  upper_near :
      (a : ℕ)
      → bp ≤ a
      → a < bp + size_of (join_upper s bp p) bp
      → HasNear (insert_behind s bp p) p a
  upper_near a le lt = elim (lower_cases s bp p ne) [
    | inl (ends, next, size) ↦ inl (omega (arith, ends, le), omega (arith, ends, size, lt))
    | inr (next, size, next', size') ↦ inr (
      omega (arith, next, le),
      subst (λ x. a < x + size_of (insert_behind s bp p) x) (sym next) (omega (arith, size', lt)),
    )
  ]

  insert_behind-frees : (a : ℕ) → Has s bp a → HasNear (insert_behind s bp p) p a
  insert_behind-frees a (le, lt) = upper_near a le (elim (upper_cases s bp p) [
    | inl (ends, next, size) ↦ omega (arith, size, lt)
    | inr (next, size) ↦ omega (arith, size, lt)
  ])

  insert_behind-keeps : (a : ℕ) → Has s p a → Has (insert_behind s bp p) p a
  insert_behind-keeps a (le, lt) = elim (lower_cases s bp p ne) [
    | inl (ends, next, size) ↦ (le, omega (arith, size, lt))
    | inr (next, size, next', size') ↦ (le, omega (arith, size, lt))
  ]

  upper-GoesOn : (x : ℕ) → x ≡ next_of (join_upper s bp p) bp → GoesOn s (insert_behind s bp p) p x
  upper-GoesOn x e = elim (upper_cases s bp p) [
    | inl (ends, next, size) ↦ inr (
      e ∙ next,
      λ a (le, lt). upper_near a (omega (arith, ends, le)) (omega (arith, ends, size, lt)),
    )
    | inr (next, size) ↦ inl (e ∙ next)
  ]

  insert_behind-leads :
      let w = insert_behind s bp p in
      ((next_of w p ≡ bp) × GoesOn s w p (next_of w bp)) ⊎ GoesOn s w p (next_of w p)
  insert_behind-leads = elim (lower_cases s bp p ne) [
    | inl (ends, next, size) ↦ inr (upper-GoesOn _ next)
    | inr (next, size, next', size') ↦ inl (next, upper-GoesOn _ next')
  ]

-- Where the list leads back to `freep` after `n + 1` steps and does not come to the block that is
-- freed, `kfree` ends within these steps. The block belongs behind the one that the next search begins
-- at, in the order of the addresses; its units, and those of the blocks before and after it, are free
-- there, and the list goes on behind them.
pub kfree-IsPlaced :
    (n : ℕ) (s : Kheap) (bp : ℕ)
    → steps s (suc n) s.freep ≡ s.freep
    → Avoids s bp s.freep
    → (s' : Kheap) × (kfree (suc n) s (bp + 1) ≡ some s') × IsPlaced n s bp s'
unfolding kfree insert_at insert_behind
kfree-IsPlaced n s bp back avoids =
    let found = place_loop-ends n s bp s.freep back avoids in
    let unit : bp + 1 - 1 ≡ bp = omega arith in
    let given : (bp + 1 == 0) ≡ false = ground arith in
    let at : steps s found.3.0 s.freep ≡ found.0 = found.3.1.1 in
    let ne : found.0 ≢ bp = subst (λ q. q ≢ bp) at (avoids found.3.0) in
    (
      insert_behind s bp found.0,
      rw (given, unit, found.1) refl,
      record {
        number = found.3.0;
        early = found.3.1.0;
        belongs = rw at (between s bp found.0 found.2);
        begins = rw at refl;
        frees = insert_behind-frees s bp found.0 ne;
        keeps = insert_behind-keeps s bp found.0 ne;
        leads = insert_behind-leads s bp found.0 ne;
        others = λ a ne ne'. insert_behind-others s bp found.0 a ne ne';
      },
    )
