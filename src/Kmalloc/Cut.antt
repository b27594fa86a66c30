-- ===== src/Kmalloc/Cut.antt =====
-- kmalloc.c: freeing a block that `kmalloc` cut off the end of another.
use aenix.Base.{
  nat_cases, ℕ, ◌+◌, ◌-◌, ◌<◌, ◌≡◌, ◌≢◌, inl, inr, sym, ◌∙◌, subst, ap, ap₂, true, false, arith,
  ◌==◌,
}
use aenix.Kmalloc.{Kheap, Header, next_of, size_of, with_header, is_place, insert_behind}
use aenix.Kmalloc.Place.{with_header-others, insert_behind-others}
use aenix.Kmalloc.Insert.{
  Apart, sized, with_header_self, insert_behind-joins, is_place-here, is_place-later,
}

-- A block that was cut off the end of another is joined to it again.
module _ (s : Kheap) (q n : ℕ) (apart : Apart s q) (some_units : 0 < n)
    (room : n < size_of s (next_of s q)) where
  abbrev low : ℕ
  low = next_of s q

  abbrev high : ℕ
  high = next_of s low

  unfoldable pub smaller : Kheap
  smaller = with_header s low (record (s.headers low) { size = size_of s low - n })

  unfoldable pub bp : ℕ
  bp = low + size_of smaller low

  unfoldable pub cut : Kheap
  cut = record (with_header smaller bp (record (smaller.headers bp) { size = n })) { freep = q }

  pub smaller-low : smaller.headers low ≡ record { next = high; size = size_of s low - n }
  unfolding smaller
  smaller-low = with_header_self s low _

  pub bp-end : bp + n ≡ low + size_of s low
  unfolding bp
  bp-end = rw (size_of, smaller-low) (omega (arith, room))

  pub above_low : low < bp
  above_low = omega (arith, bp-end, room)

  pub cut-bp : size_of cut bp ≡ n
  unfolding cut
  cut-bp = ap (λ h. h.size) (with_header_self smaller bp _)

  cut-low : cut.headers low ≡ record { next = high; size = size_of s low - n }
  unfolding cut
  cut-low = with_header-others smaller bp low _ (λ e. omega (arith, e, above_low)) ∙ smaller-low

  cut-others : (a : ℕ) → a ≢ bp → a ≢ low → cut.headers a ≡ s.headers a
  unfolding cut smaller
  cut-others a ne ne' = with_header-others smaller bp a _ ne ∙ with_header-others s low a _ ne'

  pub before-next : next_of cut q ≡ low
  before-next =
      ap (λ h. h.next)
        (cut-others q (λ e. ground (arith, apart, e, bp-end, above_low, some_units))
          (λ e. ground (arith, apart, e)))

  pub cut-not_first : is_place cut bp q ≡ false
  cut-not_first =
      is_place-later cut bp q low before-next (ground (arith, apart, bp-end, above_low, some_units))
        (ground (arith, apart, bp-end, above_low, some_units))

  pub cut-IsPlace : is_place cut bp low ≡ true
  cut-IsPlace =
      is_place-here cut bp low high (ap (λ h. h.next) cut-low)
        (ground (arith, apart, bp-end, above_low, some_units))

  cut-no_upper : (bp + size_of cut bp == next_of cut low) ≡ false
  cut-no_upper = rw (cut-bp, next_of, cut-low) (ground (arith, apart, bp-end, above_low))

  cut-lower : (low + size_of cut low == bp) ≡ true
  cut-lower = rw (size_of, cut-low) (ground (arith, bp-end, room))

  abbrev sum : (size : ℕ) → Header → Header
  sum size h = record { next = h.next; size = h.size + size }

  cut-joins : (insert_behind cut bp low).headers low ≡ s.headers low
  cut-joins =
      let whole : size_of s low - n + n ≡ size_of s low = omega (arith, room) in
      insert_behind-joins cut bp low cut-no_upper (λ e. omega (arith, e, above_low)) cut-lower
      ∙ ap₂ sum cut-bp cut-low
      ∙ ap (sized high) whole

  pub cut-restores : (a : ℕ) → a ≢ bp → (insert_behind cut bp low).headers a ≡ s.headers a
  cut-restores a ne = elim (nat_cases a low) [
    | inl e ↦ subst (λ z. (insert_behind cut bp low).headers z ≡ s.headers z) (sym e) cut-joins
    | inr ne' ↦ insert_behind-others cut bp low a ne ne' ∙ cut-others a ne ne'
  ]
