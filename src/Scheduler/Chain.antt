-- ===== src/Scheduler/Chain.antt =====
-- The cells of a list of processes: which of them a list holds, in order.
use mathlib.Core.Bool.{or_assoc}
use aenix.Base.{
  ℕ, ◌≡◌, ◌≢◌, refl, ◌∙◌, Bool, true, false, ◌||◌, List, [], ◌∷◌, ◌++◌, Option, some, arith, ◌==◌,
  Bool-cases, inl, inr,
}
use aenix.Scheduler.Lists.{PsListEle, PsList, Heap, Run, ok, and_then, null, write, load, set_next}

-- Total correctness of a run: no fault, enough fuel, and a property of the result.
pub data Returns {A : Type 0} (P : A → Type 0) : Run A → Type 0 where
  returns : {a : A} → P a → Returns P (ok a)

module _ {A B : Type 0} {P : A → Type 0} {Q : B → Type 0} where
  pub Returns-and_then :
      {r : Run A} (k : A → Run B)
      → Returns P r
      → ((a : A) → P a → Returns Q (k a))
      → Returns Q (and_then r k)
  Returns-and_then k (returns {a} p) next = next a p

pub Returns-mono :
    {A : Type 0} {P Q : A → Type 0} {r : Run A} → Returns P r → ((a : A) → P a → Q a) → Returns Q r
Returns-mono (returns {a} p) weaken = returns (weaken a p)

-- Address and process of each cell.
abbrev pub Cells : Type 0
Cells = List (ℕ × ℕ)

abbrev pub cell : ℕ → ℕ → PsListEle
cell next ps = record { next = next; ps = ps }

abbrev pub first_or : ℕ → Cells → ℕ
first_or stop [] = stop
first_or stop ((a, ps) ∷ xs) = a

abbrev pub last_or : ℕ → Cells → ℕ
last_or d [] = d
last_or d ((a, ps) ∷ xs) = last_or a xs

abbrev pub has : ℕ → Cells → Bool
has a [] = false
has a ((b, ps) ∷ xs) = (a == b) || has a xs

-- The `next` pointers lead through the distinct cells `xs` to `stop`.
abbrev pub Chain : Heap → ℕ → Cells → Type 0
Chain h stop [] = Unit
Chain h stop ((a, ps) ∷ xs) =
    (a ≢ null) × (h a ≡ some (cell (first_or stop xs) ps)) × (has a xs ≡ false) × Chain h stop xs

abbrev pub SameOutside : Cells → Heap → Heap → Type 0
SameOutside xs h g = (a : ℕ) → has a xs ≡ false → g a ≡ h a

pub record IsPsList (h : Heap) (l : PsList) (xs : Cells) : Type 0 where
  pub start : l.start ≡ first_or null xs
  pub end : l.end ≡ last_or l.end xs
  pub chain : Chain h null xs

pub has-append : (a : ℕ) (xs ys : Cells) → has a (xs ++ ys) ≡ (has a xs || has a ys)
has-append a [] ys = refl
has-append a ((b, ps) ∷ xs) ys = rw (has-append a xs ys, or_assoc)

pub last_or-append : (d : ℕ) (xs ys : Cells) → last_or d (xs ++ ys) ≡ last_or (last_or d xs) ys
last_or-append d [] ys = refl
last_or-append d ((a, ps) ∷ xs) ys = last_or-append a xs ys

pub load-ok :
    (h : Heap) (a next ps : ℕ) → a ≢ null → h a ≡ some (cell next ps) → load h a ≡ ok (cell next ps)
unfolding load
load-ok h a next ps ne e = ground arith

-- A chain survives a change that spares its cells.
pub Chain-frame :
    (h g : Heap) (stop : ℕ) (xs : Cells)
    → Chain h stop xs
    → ((a : ℕ) → has a xs ≡ true → g a ≡ h a)
    → Chain g stop xs
Chain-frame h g stop [] c same = tt
Chain-frame h g stop ((a, ps) ∷ xs) (ne, e, out, c) same =
    (ne, ground (arith, same a), out, Chain-frame h g stop xs c (λ b i. same b (ground arith)))

pub Chain-write :
    (h : Heap) (stop a : ℕ) (v : Option PsListEle) (xs : Cells)
    → Chain h stop xs
    → has a xs ≡ false
    → Chain (write h a v) stop xs
Chain-write h stop a v xs c out = Chain-frame h (write h a v) stop xs c λ b i.
    elim (Bool-cases (b == a)) [
      | inl e ↦ let same : b ≡ a = ground arith in cc (rw same at i, out)
      | inr e ↦ rw e
    ]

pub first_or-append :
    (stop : ℕ) (xs ys : Cells) → first_or stop (xs ++ ys) ≡ first_or (first_or stop ys) xs
first_or-append stop [] ys = refl
first_or-append stop ((a, ps) ∷ xs) ys = refl

pub Chain-append :
    (h : Heap) (stop : ℕ) (xs ys : Cells)
    → Chain h (first_or stop ys) xs
    → Chain h stop ys
    → ((a : ℕ) → has a xs ≡ true → has a ys ≡ false)
    → Chain h stop (xs ++ ys)
Chain-append h stop [] ys c d apart = d
Chain-append h stop ((a, ps) ∷ xs) ys (ne, e, out, c) d apart = (
  ne,
  rw (first_or-append stop xs ys) e,
  rw (has-append a xs ys, out) (apart a (ground arith)),
  Chain-append h stop xs ys c d (λ b i. apart b (ground arith)),
)

-- Writing the `next` of a chain's last cell gives the chain another stop.
pub relink :
    (h : Heap) (stop a ps q : ℕ) (xs : Cells)
    → Chain h stop ((a, ps) ∷ xs)
    → Returns
        (λ g. Chain g q ((a, ps) ∷ xs) × SameOutside ((a, ps) ∷ xs) h g)
        (set_next h (last_or a xs) q)
unfolding set_next
relink h stop a ps q [] (ne, e, out, c) =
    rw (load-ok h a stop ps ne e) (returns ((ne, ground arith, refl, tt), λ b o. ground arith))
relink h stop a ps q ((b, pb) ∷ xs) (ne, e, out, c) =
    Returns-mono (relink h stop b pb q xs c)
      λ g (chain, same). ((ne, same a out ∙ e, out, chain), λ d o. same d (ground arith))
