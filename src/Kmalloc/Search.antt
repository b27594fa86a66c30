-- ===== src/Kmalloc/Search.antt =====
-- kmalloc.c: the search of `kfree` ends, at the place of a block in the free list.
use aenix.Base.{
  ℕ, zero, suc, ◌<◌, ◌≡◌, ◌≢◌, ◌⊎◌, inl, inr, refl, sym, ◌∙◌, subst, le_cases, true, false, none,
  some, arith, Bool-cases, Option-cases,
}
use mathlib.Core.Option.{some-injective, none-ne-some}
use aenix.Kmalloc.{Kheap, next_of, is_place, place_loop}

-- The block that the list leads to after `n` steps.
unfoldable pub steps : Kheap → (n p : ℕ) → ℕ
steps s zero p = p
steps s (suc n) p = steps s n (next_of s p)

-- A step from below the block that is not its place stays below it, and goes up.
below-step :
    (s : Kheap) (bp p : ℕ)
    → p < bp
    → next_of s p ≢ bp
    → is_place s bp p ≡ false
    → (p < next_of s p) × (next_of s p < bp)
unfolding is_place
below-step s bp p lt ne e = ground (arith, e, lt, ne)

above-step :
    (s : Kheap) (bp p : ℕ)
    → bp < p
    → next_of s p ≢ bp
    → is_place s bp p ≡ false
    → ((p < next_of s p) × (bp < next_of s p)) ⊎ (next_of s p < bp)
unfolding is_place
above-step s bp p lt ne e = ground (arith, e, lt, ne)

-- The list does not come to the block.
abbrev pub Avoids : Kheap → (bp p : ℕ) → Type 0
Avoids s bp p = (n : ℕ) → steps s n p ≢ bp

Avoids-next : (s : Kheap) (bp p : ℕ) → Avoids s bp p → Avoids s bp (next_of s p)
unfolding steps
Avoids-next s bp p avoids n = avoids (suc n)

past :
    (n : ℕ) (s : Kheap) (bp p : ℕ)
    → is_place s bp p ≡ false
    → place_loop (suc n) s bp p ≡ place_loop n s bp (next_of s p)
unfolding place_loop
past n s bp p e = rw e refl

found_here :
    (n : ℕ) (s : Kheap) (bp p : ℕ) → is_place s bp p ≡ true → place_loop (suc n) s bp p ≡ some p
unfolding place_loop
found_here n s bp p e = rw e refl

no_place :
    (n : ℕ) (s : Kheap) (bp p : ℕ)
    → place_loop (suc n) s bp p ≡ none
    → (is_place s bp p ≡ false) × (place_loop n s bp (next_of s p) ≡ none)
no_place n s bp p e = elim (Bool-cases (is_place s bp p)) [
  | inl here ↦ absurd (none-ne-some p (sym e ∙ found_here n s bp p here))
  | inr not_here ↦ (not_here, sym (past n s bp p not_here) ∙ e)
]

-- While no place is found from below the block, the list goes up and stays below it.
below-steps :
    (n : ℕ) (s : Kheap) (bp p : ℕ)
    → p < bp
    → Avoids s bp p
    → place_loop (suc n) s bp p ≡ none
    → (p < steps s (suc n) p) × (steps s (suc n) p < bp)
unfolding steps
below-steps zero s bp p lt avoids e = below-step s bp p lt (avoids 1) (no_place 0 s bp p e).0
below-steps (suc n) s bp p lt avoids e =
    let rest = no_place (suc n) s bp p e in
    let up = below-step s bp p lt (avoids 1) rest.0 in
    let ih = below-steps n s bp (next_of s p) up.1 (Avoids-next s bp p avoids) rest.1 in
    (omega (arith, up.0, ih.0), ih.1)

-- From above it, the list goes up until it is below the block, and stays there.
above-steps :
    (n : ℕ) (s : Kheap) (bp p : ℕ)
    → bp < p
    → Avoids s bp p
    → place_loop (suc n) s bp p ≡ none
    → (p < steps s (suc n) p) ⊎ (steps s (suc n) p < bp)
unfolding steps
above-steps zero s bp p lt avoids e =
    elim (above-step s bp p lt (avoids 1) (no_place 0 s bp p e).0) [
      | inl up ↦ inl up.0
      | inr down ↦ inr down
    ]
above-steps (suc n) s bp p lt avoids e =
    let rest = no_place (suc n) s bp p e in
    let avoids' = Avoids-next s bp p avoids in
    elim (above-step s bp p lt (avoids 1) rest.0) [
      | inl up ↦ elim (above-steps n s bp (next_of s p) up.1 avoids' rest.1) [
        | inl more ↦ inl (omega (arith, up.0, more))
        | inr below ↦ inr below
      ]
      | inr down ↦ inr (below-steps n s bp (next_of s p) down avoids' rest.1).1
    ]

place_loop-some :
    (n : ℕ) (s : Kheap) (bp p q : ℕ)
    → place_loop n s bp p ≡ some q
    → (is_place s bp q ≡ true) × ((m : ℕ) × ((m < n) × (steps s m p ≡ q)))
unfolding place_loop steps
place_loop-some zero s bp p q e = absurd (none-ne-some q e)
place_loop-some (suc n) s bp p q e = elim (Bool-cases (is_place s bp p)) [
  | inl here ↦
      let same : p ≡ q = some-injective p q (sym (found_here n s bp p here) ∙ e) in
      (subst (λ z. is_place s bp z ≡ true) same here, (zero, (omega arith, same)))
  | inr not_here ↦
      let ih = place_loop-some n s bp (next_of s p) q (sym (past n s bp p not_here) ∙ e) in
      (ih.0, (suc ih.1.0, (omega (arith, ih.1.1.0), ih.1.1.1)))
]

-- Where the list leads back to the block at `p` after `n + 1` steps and does not
-- come to the block at `bp`, the search from `p` ends within these steps, at a block of the
-- list behind which `bp` belongs.
pub place_loop-ends :
    (n : ℕ) (s : Kheap) (bp p : ℕ)
    → steps s (suc n) p ≡ p
    → Avoids s bp p
    → (q : ℕ) × (place_loop (suc n) s bp p ≡ some q)
      × (is_place s bp q ≡ true)
      × ((m : ℕ) × ((m < suc n) × (steps s m p ≡ q)))
unfolding steps
place_loop-ends n s bp p back avoids = elim (Option-cases (place_loop (suc n) s bp p)) [
  | inr (q, e) ↦ let there = place_loop-some (suc n) s bp p q e in (q, e, there.0, there.1)
  | inl e ↦ elim (le_cases p bp) [
    | inl le ↦
        let up = below-steps n s bp p (omega (arith, le, avoids 0)) avoids e in
        absurd (omega (arith, up.0, back))
    | inr gt ↦ elim (above-steps n s bp p gt avoids e) [
      | inl up ↦ absurd (omega (arith, up, back))
      | inr below ↦ absurd (omega (arith, below, gt, back))
    ]
  ]
]
