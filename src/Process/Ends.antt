-- ===== src/Process/Ends.antt =====
-- process.c: what a step that may fail leaves, one rule for each way to build one.
use aenix.Base.{
  ℕ, ◌≡◌, ◌≢◌, Bool, true, false, Option, none, some, ◌==◌, arith, inl, inr, Bool-cases,
}
use aenix.Process.Steps.{Action, handle, ◌>>=◌, nonzero, unless, run}

-- `P` holds of the result and the state after a success, and `Q` of the state after a failure.
pub data Ends {S A : Type 0} (P : A → S → Type 0) (Q : S → Type 0) : Option A × S → Type 0 where
  success : {a : A} {s : S} → P a s → Ends P Q (some a, s)
  failure : {s : S} → Q s → Ends P Q (none, s)

module _ {S A : Type 0} {P : A → S → Type 0} {Q : S → Type 0} where
  pub Ends-handle {ℓ} :
      {B : Type ℓ} (T : B → Type 0) {r : Option A × S} (next : A → S → B) (failed : S → B)
      → Ends P Q r
      → ((a : A) (s : S) → P a s → T (next a s))
      → ((s : S) → Q s → T (failed s))
      → T (handle r next failed)
  unfolding handle
  Ends-handle T next failed (success {a} {s} p) f g = f a s p
  Ends-handle T next failed (failure {s} q) f g = g s q

  pub Ends-mono :
      {P' : A → S → Type 0} {Q' : S → Type 0} {r : Option A × S}
      → Ends P Q r
      → ((a : A) (s : S) → P a s → P' a s)
      → ((s : S) → Q s → Q' s)
      → Ends P' Q' r
  Ends-mono (success {a} {s} p) f g = success (f a s p)
  Ends-mono (failure {s} q) f g = failure (g s q)

module _ {S A B : Type 0} {P : A → S → Type 0} {Q : S → Type 0} where
  -- A failure of the first step is one of the whole.
  pub Ends-bind :
      {R : B → S → Type 0} (m : Action S A) (f : A → Action S B) (s : S)
      → Ends P Q (m s)
      → ((a : A) (s' : S) → P a s' → Ends R Q (f a s'))
      → Ends R Q ((m >>= f) s)
  unfolding ◌>>=◌
  Ends-bind {R} m f s e next =
      Ends-handle (Ends R Q) f (λ s'. (none, s')) e next (λ s' q. failure q)

module _ {S : Type 0} (P : ℕ → S → Type 0) (Q : S → Type 0) where
  pub Ends-nonzero :
      (f : S → ℕ × S) (s : S)
      → ((f s).0 ≢ 0 → P (f s).0 (f s).1)
      → ((f s).0 ≡ 0 → Q (f s).1)
      → Ends P Q (nonzero f s)
  unfolding nonzero
  Ends-nonzero f s p q = elim (Bool-cases ((f s).0 == 0)) [
    | inl e ↦ rw e (failure (q (ground arith)))
    | inr e ↦ rw e (success (p (λ z. ground (arith, z))))
  ]

module _ {S : Type 0} (P : Unit {0} → S → Type 0) (Q : S → Type 0) where
  pub Ends-unless :
      (f : S → ℕ × S) (bad : ℕ → Bool) (clean : S → S) (s : S)
      → (bad (f s).0 ≡ false → P tt (f s).1)
      → (bad (f s).0 ≡ true → Q (clean (f s).1))
      → Ends P Q (unless f bad clean s)
  unfolding unless
  Ends-unless f bad clean s p q = elim (Bool-cases (bad (f s).0)) [
    | inl e ↦ rw e (failure (q e))
    | inr e ↦ rw e (success (p e))
  ]

pub Ends-run :
    {S : Type 0} (P : Unit {0} → S → Type 0) (Q : S → Type 0) (f : S → S) (s : S)
    → P tt (f s)
    → Ends P Q (run f s)
unfolding run
Ends-run P Q f s p = success p

pub Ends-none :
    {S A : Type 0} {P : A → S → Type 0} {Q : S → Type 0} {s : S} → Ends P Q (none, s) → Q s
Ends-none (failure q) = q

-- A step of which only the state after it counts.
pub Ends-any : {S A : Type 0} (Q : S → Type 0) (r : Option A × S) → Q r.1 → Ends (λ a s. Q s) Q r
Ends-any Q (some a, s) q = success q
Ends-any Q (none, s) q = failure q

Ends-some :
    {S A : Type 0} {P : A → S → Type 0} {Q : S → Type 0} {a : A} {s : S}
    → Ends P Q (some a, s)
    → P a s
Ends-some (success p) = p

-- What was found of the same step in two ways.
pub Ends-both :
    {S A : Type 0} {P P' : A → S → Type 0} {Q Q' : S → Type 0} {r : Option A × S}
    → Ends P Q r
    → Ends P' Q' r
    → Ends (λ a s. P a s × P' a s) Q r
Ends-both (success p) e = success (p, Ends-some e)
Ends-both (failure q) e = failure q
