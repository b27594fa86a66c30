-- ===== src/Fb/Examples.antt =====
-- Screens that the theorems on fb.c are applied to.
use aenix.Base.{ℕ, ◌+◌, ◌*◌, ◌≤◌, ◌<◌, ◌≡◌, [], ◌∷◌, arith}
use aenix.Fb.{Fb, scroll, fb_put_s}
use aenix.Fb.Scroll.{scroll_lem}
use aenix.Fb.Screen.{Keeps, fb_put_s-Keeps}

-- The cursor is at the last position, and every byte is its offset.
abbrev last_position : Fb
last_position = record { cells = λ a. a; cursor_pos = 1999; outs = [] }

scroll_lem_example :
    ((p : ℕ) → p < 24 * 80 → (scroll last_position).cells (2 * p) ≡ 2 * (p + 80))
    × ((p : ℕ) → 24 * 80 ≤ p → p < 25 * 80 → (scroll last_position).cells (2 * p) ≡ 32)
    × ((a : ℕ) → 2 * 25 * 80 ≤ a → (scroll last_position).cells a ≡ a)
    × ((scroll last_position).cursor_pos ≡ 1999)
scroll_lem_example = scroll_lem last_position

fb_put_s-Keeps_example :
    Keeps 2000 last_position (fb_put_s last_position (104 ∷ 9 ∷ 8 ∷ 10 ∷ 105 ∷ []))
fb_put_s-Keeps_example = fb_put_s-Keeps (104 ∷ 9 ∷ 8 ∷ 10 ∷ 105 ∷ []) last_position (omega arith)
