-- ===== src/Log/Decimal.antt =====
-- log.c: the digits that are printed read back as the number.
use native.Mathlib.Nat.{div-add-mod, mod-lt, add-mul, mul_assoc, mul_comm, div-lt_iff_lt-mul}
use aenix.Base.{
  ℕ, zero, suc, ◌+◌, ◌-◌, ◌*◌, ◌/◌, ◌%◌, ◌^◌, ◌≤◌, ◌<◌, ◌≡◌, ◌⊎◌, refl, ap, ◌∙◌, false, List, [],
  ◌∷◌, ◌==◌, arith, inl, inr, le_cases, le→leb, lt→leb, mul32,
}
use aenix.Log.{power_loop, first_power, digits_loop, log_ui}

-- The number that decimal digits denote, behind those that `acc` has.
abbrev pub value : (acc : ℕ) → List ℕ → ℕ
value acc [] = acc
value acc (c ∷ cs) = value (acc * 10 + (c - b'0')) cs

abbrev pow10 : ℕ → ℕ
pow10 zero = 1
pow10 (suc k) = pow10 k * 10

pow10-pos : (k : ℕ) → 0 < pow10 k
pow10-pos zero = omega arith
pow10-pos (suc k) = omega (arith, pow10-pos k)

pow10-le : (m k : ℕ) → k ≤ m → pow10 k ≤ pow10 m
pow10-le zero k le = let same : k ≡ 0 = omega arith in rw same (omega arith)
pow10-le (suc m) k le = elim (le_cases k m) [
  | inl before ↦ omega (arith, pow10-le m k before)
  | inr last ↦ let same : k ≡ suc m = omega arith in rw same (omega arith)
]

-- `n` is the power of ten of the first digit of `i`.
record First (i n : ℕ) : Type 0 where
  k : ℕ
  at_most : k ≤ 9
  power : n ≡ pow10 k
  above : i < pow10 (suc k)
  below : (pow10 k ≤ i) ⊎ (k ≡ 0)

power_loop-First :
    (fuel k i : ℕ)
    → k + fuel ≡ 9
    → i < 1_000_000_000
    → (pow10 k ≤ i) ⊎ (k ≡ 0)
    → First i (power_loop fuel i (pow10 k))
unfolding power_loop
power_loop-First zero k i e lt below =
    let nine : k ≡ 9 = omega arith in
    record {
      k = k;
      at_most = omega arith;
      power = refl;
      above = rw nine (omega arith);
      below = below;
    }
power_loop-First (suc fuel) k i e lt below =
    let next : mul32 (pow10 k) 10 ≡ pow10 (suc k) = omega (arith, pow10-le 8 k (omega arith)) in
    elim (le_cases (pow10 (suc k)) i) [
      | inl le ↦
          rw (next, le→leb (pow10 (suc k)) i le)
            (power_loop-First fuel (suc k) i (omega arith) lt (inl le))
      | inr small ↦
          rw (next, lt→leb (pow10 (suc k)) i small)
            (record { k = k; at_most = omega arith; power = refl; above = small; below = below })
    ]

first_power-First : (i : ℕ) → i < 2 ^ 32 → First i (first_power i)
unfolding first_power
first_power-First i lt = elim (le_cases 1_000_000_000 i) [
  | inl le ↦
      rw (le→leb 1_000_000_000 i le)
        (record { k = 9; at_most = omega arith; power = refl; above = omega arith; below = inl le })
  | inr small ↦ rw (lt→leb 1_000_000_000 i small) (power_loop-First 9 0 i refl small (inr refl))
]

digit : (i n : ℕ) → 0 < n → i < n * 10 → (b'0' + i / n) % 256 - b'0' ≡ i / n
digit i n pos small =
    let one_digit : i / n < 10 = (div-lt_iff_lt-mul pos).1 (omega arith) in omega arith

digits_loop-none : (fuel i : ℕ) → digits_loop fuel i 0 ≡ []
unfolding digits_loop
digits_loop-none zero i = refl
digits_loop-none (suc fuel) i = refl

-- One digit more before the `rest` of the number.
digits_sum : (acc d n r i : ℕ) → n * d + r ≡ i → (acc * 10 + d) * n + r ≡ acc * (n * 10) + i
digits_sum acc d n r i e =
    let shift : acc * 10 * n ≡ acc * (n * 10) =
      mul_assoc acc 10 n ∙ ap (λ t. acc * t) (mul_comm 10 n) in
    omega (arith, add-mul (acc * 10) d n, shift, mul_comm d n, e)

digits_loop-value :
    (fuel k i acc : ℕ)
    → k < fuel
    → i < pow10 (suc k)
    → value acc (digits_loop fuel i (pow10 k)) ≡ acc * pow10 (suc k) + i
unfolding digits_loop
digits_loop-value zero k i acc lt small = ground arith
digits_loop-value (suc fuel) zero i acc lt small =
    let rest = digits_loop-none fuel (i % 1) in
    rw (digit i 1 (omega arith) (omega arith), rest) (omega arith)
digits_loop-value (suc fuel) (suc k) i acc lt small =
    let n = pow10 (suc k) in
    let pos : 0 < n = pow10-pos (suc k) in
    let some : (n == 0) ≡ false = grind arith in
    let down : n / 10 ≡ pow10 k = omega arith in
    rw (some, down)
      (ap (λ d. value (acc * 10 + d) (digits_loop fuel (i % n) (pow10 k))) (digit i n pos small)
        ∙ digits_loop-value fuel k (i % n) (acc * 10 + i / n) (omega arith) (mod-lt i pos)
        ∙ digits_sum acc (i / n) n (i % n) i (div-add-mod i n))

-- All of the characters are from '0' to '9'.
abbrev pub AreDigits : List ℕ → Type 0
AreDigits [] = Unit {0}
AreDigits (c ∷ cs) = (b'0' ≤ c) × (c ≤ b'9') × AreDigits cs

digit_range :
    (i n : ℕ) → 0 < n → i < n * 10 → (b'0' ≤ (b'0' + i / n) % 256) × ((b'0' + i / n) % 256 ≤ b'9')
digit_range i n pos small =
    let one_digit : i / n < 10 = (div-lt_iff_lt-mul pos).1 (omega arith) in
    (omega arith, omega arith)

digits_loop-AreDigits :
    (fuel k i : ℕ) → i < pow10 (suc k) → AreDigits (digits_loop fuel i (pow10 k))
unfolding digits_loop
digits_loop-AreDigits zero k i small = tt
digits_loop-AreDigits (suc fuel) zero i small =
    let rest = digits_loop-none fuel (i % 1) in
    let range = digit_range i 1 (omega arith) (omega arith) in rw rest (range.0, range.1, tt)
digits_loop-AreDigits (suc fuel) (suc k) i small =
    let n = pow10 (suc k) in
    let pos : 0 < n = pow10-pos (suc k) in
    let some : (n == 0) ≡ false = grind arith in
    let down : n / 10 ≡ pow10 k = omega arith in
    let range = digit_range i n pos small in
    rw (some, down) (range.0, range.1, digits_loop-AreDigits fuel k (i % n) (mod-lt i pos))

-- What `log_ui` prints of a 32-bit number are decimal digits, and they denote the number.
pub log_ui-value : (i : ℕ) → i < 2 ^ 32 → AreDigits (log_ui i) × (value 0 (log_ui i) ≡ i)
unfolding log_ui
log_ui-value i lt =
    let f = first_power-First i lt in
    (
      rw f.power (digits_loop-AreDigits 11 f.k i f.above),
      ap (λ n. value 0 (digits_loop 11 i n)) f.power
          ∙ digits_loop-value 11 f.k i 0 (omega (arith, f.at_most)) f.above
          ∙ omega arith,
    )
