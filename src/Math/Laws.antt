-- ===== src/Math/Laws.antt =====
-- What the rounding functions of math.c and mem.c compute, and where they wrap.
use aenix.Base.{
  ℕ, ◌+◌, ◌-◌, ◌*◌, ◌/◌, ◌%◌, ◌≤◌, ◌<◌, ◌≡◌, ap, ◌∙◌, false, inl, inr, u32, add32, sub32, arith,
  ◌==◌, Bool-cases,
}
use native.Mathlib.Nat.{
  mod-lt, mod-le, div-add-mod, div-le_self, div-lt_self, mul-mod_right, mul-add,
}
use aenix.Math.{div_ceil, align_up, align_down}

pred-no-wrap : (n : ℕ) → 0 < n → n < u32 → sub32 n 1 ≡ n - 1
pred-no-wrap n h hs = omega arith

-- For a positive numerator below 2^32 and a positive denominator, `div_ceil` is the least `q` with
-- `num ≤ q * den`.
pub div_ceil_lem :
    (num den : ℕ)
    → 0 < num
    → 0 < den
    → num < u32
    → (num ≤ div_ceil num den * den) × (div_ceil num den * den < num + den)
unfolding div_ceil
div_ceil_lem num den hn hd hs =
    let small : (num - 1) / den ≤ num - 1 = div-le_self (num - 1) den in
    let q : div_ceil num den ≡ (num - 1) / den + 1 = rw (pred-no-wrap num hn hs) (omega arith) in
    rw q (omega (arith, div-add-mod (num - 1) den, mod-lt (num - 1) hd))

-- At 0 the numerator wraps: the result is the largest quotient, and not 0.
pub div_ceil-zero : (den : ℕ) → 1 < den → den < u32 → div_ceil 0 den ≡ (u32 - 1) / den + 1
unfolding div_ceil
div_ceil-zero den h hs =
    let small : (u32 - 1) / den < u32 - 1 = div-lt_self (omega arith) h in omega arith

-- For positive `a` and `n + a` up to 2^32, `align_up` gives the least multiple of `a` that is not
-- below `n`.
pub align_up_lem :
    (n a : ℕ)
    → 0 < a
    → n + a ≤ u32
    → (align_up n a % a ≡ 0) × (n ≤ align_up n a) × (align_up n a < n + a)
unfolding align_up
align_up_lem n a ha h = elim (Bool-cases (n % a == 0)) [
  | inl e ↦ rw e (ground arith)
  | inr e ↦ rw (e, step (m_pos e)) (rounded, omega (arith, mod-lt n ha), omega (arith, m_pos e))
]
  where
    m_pos : (n % a == 0) ≡ false → 0 < n % a
    m_pos e = ground arith

    step : 0 < n % a → add32 n (sub32 a (n % a)) ≡ n + (a - n % a)
    step m = omega (arith, mod-lt n ha)

    rounded : (n + (a - n % a)) % a ≡ 0
    rounded =
        ap (λ t. t % a) (omega (arith, div-add-mod n a, mod-lt n ha, mul-add a (n / a) 1))
        ∙ mul-mod_right a (n / a + 1)

-- `align_down` gives the greatest multiple of `a` that is not above `n`.
pub align_down_lem :
    (n a : ℕ)
    → 0 < a
    → n < u32
    → (align_down n a % a ≡ 0) × (align_down n a ≤ n) × (n < align_down n a + a)
unfolding align_down
align_down_lem n a ha h =
    let m : n % a ≤ n = mod-le n a in
    let d : align_down n a ≡ a * (n / a) = omega (arith, div-add-mod n a) in
    rw d (
      mul-mod_right a (n / a),
      omega (arith, div-add-mod n a),
      omega (arith, div-add-mod n a, mod-lt n ha),
    )
