-- ===== src/Math.antt =====
-- math.c and mem.c: rounding and comparison on `uint32_t`.
pub mod Laws
mod Examples
use aenix.Base.{ℕ, ◌+◌, ◌-◌, ◌/◌, ◌%◌, add32, sub32, ltb, ◌==◌, if◌then◌else◌}

-- `num - 1` wraps at 0.
unfoldable pub div_ceil : ℕ → ℕ → ℕ
div_ceil num den = add32 (sub32 num 1 / den) 1

unfoldable pub minu : ℕ → ℕ → ℕ
minu a b = if ltb a b then a else b

unfoldable pub maxu : ℕ → ℕ → ℕ
maxu a b = if ltb b a then a else b

unfoldable pub align_up : ℕ → ℕ → ℕ
align_up n a = if n % a == 0 then n else add32 n (sub32 a (n % a))

unfoldable pub align_down : ℕ → ℕ → ℕ
align_down n a = sub32 n (n % a)
