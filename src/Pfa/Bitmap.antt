-- ===== src/Pfa/Bitmap.antt =====
-- What the bit toggles of page_frame_allocator.c do to the frames' bits.
use aenix.Base.{
  ℕ, zero, suc, ◌+◌, ◌-◌, ◌*◌, ◌/◌, ◌%◌, ◌≤◌, ◌<◌, ◌≡◌, refl, ap, ◌∙◌, ◌≢◌, inl, inr, List, arith,
  ltb, leb, ◌==◌, if◌then◌else◌, ◌&&◌, Bool-cases, length, get_or, length-set, get_or-set_self,
  get_or-set_ne,
}
use aenix.Base.Bits.{bit, bit-toggle_self, bit-toggle_ne}
use aenix.Pfa.{toggle_bit, toggle_bits}

-- The bit of frame `k`: 1 if it is free. Bit 31 of a word stands for its first frame.
abbrev pub frame : List ℕ → ℕ → ℕ
frame bits k = bit (get_or bits (k / 32) 0) (31 - k % 32)

pub length-toggle_bit : (bits : List ℕ) (k : ℕ) → length (toggle_bit bits k) ≡ length bits
unfolding toggle_bit
length-toggle_bit bits k = length-set bits (k / 32) _

pub length-toggle_bits : (bits : List ℕ) (i n : ℕ) → length (toggle_bits bits i n) ≡ length bits
unfolding toggle_bits
length-toggle_bits bits i zero = refl
length-toggle_bits bits i (suc n) =
    length-toggle_bits (toggle_bit bits i) (i + 1) n ∙ length-toggle_bit bits i

frame-toggle_bit_self :
    (bits : List ℕ) (k : ℕ) → k < 32 * length bits → frame (toggle_bit bits k) k ≡ 1 - frame bits k
unfolding toggle_bit
frame-toggle_bit_self bits k h =
    rw (get_or-set_self bits (k / 32) _ 0 (omega arith)) (bit-toggle_self _ (31 - k % 32))

frame-toggle_bit_ne :
    (bits : List ℕ) (k j : ℕ)
    → k < 32 * length bits
    → k ≢ j
    → frame (toggle_bit bits k) j ≡ frame bits j
unfolding toggle_bit
frame-toggle_bit_ne bits k j h ne = elim (Bool-cases (k / 32 == j / 32)) [
  | inl e ↦
      let same : k / 32 ≡ j / 32 = ground arith in
      rw (← same) (
        rw (get_or-set_self bits (k / 32) _ 0 (omega arith))
          (bit-toggle_ne _ (31 - k % 32) (31 - j % 32) (λ d. ne (omega arith))))
  | inr e ↦ ap (λ w. bit w (31 - j % 32)) (get_or-set_ne bits (k / 32) (j / 32) _ 0 (ground arith))
]

-- Toggling frame `k` turns its bit over, and keeps the others.
pub frame-toggle_bit :
    (bits : List ℕ) (k j : ℕ)
    → k < 32 * length bits
    → frame (toggle_bit bits k) j ≡ (if k == j then 1 - frame bits j else frame bits j)
frame-toggle_bit bits k j h = elim (Bool-cases (k == j)) [
  | inl e ↦ rw e (let same : k ≡ j = ground arith in rw (← same) (frame-toggle_bit_self bits k h))
  | inr e ↦ rw e (frame-toggle_bit_ne bits k j h (ground arith))
]

-- Toggling `n` frames from `i` on turns exactly their bits over.
pub frame-toggle_bits :
    (bits : List ℕ) (i n j : ℕ)
    → i + n ≤ 32 * length bits
    → frame (toggle_bits bits i n) j
      ≡ (if leb i j && ltb j (i + n) then 1 - frame bits j else frame bits j)
unfolding toggle_bits
frame-toggle_bits bits i zero j h = ground arith
frame-toggle_bits bits i (suc n) j h = ground (
  arith,
  length-toggle_bit bits i,
  frame-toggle_bits (toggle_bit bits i) (i + 1) n j,
  frame-toggle_bit bits i j,
)
