-- ===== src/Math/Examples.antt =====
-- math.c and mem.c: runs, and numbers that the laws of rounding are applied to.
use aenix.Base.{◌≡◌, refl}
use aenix.Math.{div_ceil, align_up}

rounding_runs : (div_ceil 4097 4096 ≡ 2) × (align_up 4097 4096 ≡ 8192) × (div_ceil 0 1024 ≡ 4194304)
unfolding div_ceil align_up
rounding_runs = (refl, refl, refl)
