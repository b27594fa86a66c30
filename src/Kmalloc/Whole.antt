-- ===== src/Kmalloc/Whole.antt =====
-- kmalloc.c: freeing a block that `kmalloc` took as a whole.
use aenix.Base.{
  nat_cases, ℕ, ◌+◌, ◌≡◌, ◌≢◌, inl, inr, sym, ◌∙◌, subst, ap, ap₂, true, false, arith, ◌==◌,
}
use aenix.Kmalloc.{Kheap, Header, next_of, size_of, with_header, is_place, insert_behind}
use aenix.Kmalloc.Place.{with_header-others, insert_behind-others}
use aenix.Kmalloc.Insert.{Apart, with_header_self, insert_behind-apart, is_place-here}

-- A block that was taken as a whole goes back to where it was.
module _ (s : Kheap) (q : ℕ) (apart : Apart s q) where
  abbrev p : ℕ
  p = next_of s q

  abbrev r : ℕ
  r = next_of s p

  unfoldable pub without : Kheap
  without = record (with_header s q (record (s.headers q) { next = r })) { freep = q }

  pub differs : q ≢ p
  differs e = ground (arith, apart, e)

  without-q : without.headers q ≡ record { next = r; size = size_of s q }
  unfolding without
  without-q = with_header_self s q _

  pub without-p : without.headers p ≡ s.headers p
  unfolding without
  without-p = with_header-others s q p _ (λ e. differs (sym e))

  without-others : (a : ℕ) → a ≢ q → without.headers a ≡ s.headers a
  unfolding without
  without-others a ne = with_header-others s q a _ ne

  abbrev at_p : Header → Header
  at_p h = record { next = p; size = h.size }

  abbrev mixed : Header → Header → Header
  mixed h g = record { next = h.next; size = g.size }

  pub whole-IsPlace : is_place without p q ≡ true
  whole-IsPlace = is_place-here without p q r (ap (λ h. h.next) without-q) (ground (arith, apart))

  whole-no_upper : (p + size_of without p == next_of without q) ≡ false
  whole-no_upper = rw (size_of, next_of, without-p, without-q) (ground (arith, apart))

  whole-no_lower : (q + size_of without q == p) ≡ false
  whole-no_lower = rw (size_of, without-q) (ground (arith, apart))

  pub whole-restores : (a : ℕ) → (insert_behind without p q).headers a ≡ s.headers a
  whole-restores a =
      let joined = insert_behind-apart without p q whole-no_upper differs whole-no_lower in
      elim (nat_cases a q) [
        | inl e ↦
            subst (λ z. (insert_behind without p q).headers z ≡ s.headers z) (sym e)
              (joined.0 ∙ ap (λ (h : Header). at_p h) without-q)
        | inr ne ↦ elim (nat_cases a p) [
          | inl e ↦
              subst (λ z. (insert_behind without p q).headers z ≡ s.headers z) (sym e)
                (joined.1 ∙ ap₂ mixed without-q without-p)
          | inr ne' ↦ insert_behind-others without p q a ne' ne ∙ without-others a ne
        ]
      ]
