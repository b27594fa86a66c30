-- ===== src/Fb/Scroll.antt =====
-- fb.c: what scrolling leaves on the screen.
use aenix.Base.{
  ℕ, zero, suc, ◌+◌, ◌-◌, ◌*◌, ◌≤◌, ◌<◌, ◌≡◌, ◌⊎◌, refl, ap₂, subst, ◌∙◌, true, false, ◌==◌, arith,
  Bool-cases, inl, inr,
}
use aenix.Fb.{
  Fb, write_byte, write_cell, write_at, read_cell, scroll_row, scroll_rows, clear_row, scroll,
}

-- The first `k` cells are those a row further down, in the screen's colours, and what follows is
-- as it was.
pub record Moved (k : ℕ) (s₀ s : Fb) : Type 0 where
  pub chars : (p : ℕ) → p < k → s.cells (2 * p) ≡ s₀.cells (2 * (p + 80))
  pub colours : (p : ℕ) → p < k → s.cells (2 * p + 1) ≡ 0x0f
  pub rest : (a : ℕ) → 2 * k ≤ a → s.cells a ≡ s₀.cells a
  pub cursor : s.cursor_pos ≡ s₀.cursor_pos

pub write_byte_here : (cells : ℕ → ℕ) (x b : ℕ) → write_byte cells x b x ≡ b
write_byte_here cells x b = let here : (x == x) ≡ true = ground arith in rw here refl

pub write_byte_other :
    (cells : ℕ → ℕ) (x b a : ℕ) → (a < x) ⊎ (x < a) → write_byte cells x b a ≡ cells a
write_byte_other cells x b a apart = let other : (a == x) ≡ false = grind arith in rw other refl

pub write_cell_other :
    (s : Fb) (cell b a : ℕ)
    → (a < cell) ⊎ (cell + 1 < a)
    → (write_cell s cell b).cells a ≡ s.cells a
write_cell_other s cell b a apart =
    write_byte_other (write_byte s.cells cell b) (cell + 1) 0x0f a (grind arith)
    ∙ write_byte_other s.cells cell b a (grind arith)

write_cell_char : (s : Fb) (cell b : ℕ) → (write_cell s cell b).cells cell ≡ b
write_cell_char s cell b =
    write_byte_other (write_byte s.cells cell b) (cell + 1) 0x0f cell (inl (omega arith))
    ∙ write_byte_here s.cells cell b

write_cell_colour : (s : Fb) (cell b : ℕ) → (write_cell s cell b).cells (cell + 1) ≡ 0x0f
write_cell_colour s cell b = write_byte_here (write_byte s.cells cell b) (cell + 1) 0x0f

write_cell-Moved :
    (k : ℕ) (s₀ s : Fb)
    → Moved k s₀ s
    → Moved (k + 1) s₀ (write_cell s (2 * k) (s.cells (2 * (k + 80))))
write_cell-Moved k s₀ s m = record {
  chars = λ p lt. elim (Bool-cases (p == k)) [
    | inl e ↦
        let same : p ≡ k = ground arith in
        rw same
          (write_cell_char s (2 * k) (s.cells (2 * (k + 80))) ∙ m.rest (2 * (k + 80)) (omega arith))
    | inr e ↦
        let before : p < k = ground arith in
        write_cell_other s (2 * k) (s.cells (2 * (k + 80))) (2 * p) (inl (omega arith))
        ∙ m.chars p before
  ];
  colours = λ p lt. elim (Bool-cases (p == k)) [
    | inl e ↦
        let same : p ≡ k = ground arith in
        rw same (write_cell_colour s (2 * k) (s.cells (2 * (k + 80))))
    | inr e ↦
        let before : p < k = ground arith in
        write_cell_other s (2 * k) (s.cells (2 * (k + 80))) (2 * p + 1) (inl (omega arith))
        ∙ m.colours p before
  ];
  rest = λ a le.
      write_cell_other s (2 * k) (s.cells (2 * (k + 80))) a (inr (omega arith))
      ∙ m.rest a (omega arith);
  cursor = m.cursor;
}

scroll_row-Moved :
    (left r c : ℕ) (s₀ s : Fb)
    → Moved (r * 80 + c) s₀ s
    → Moved (r * 80 + c + left) s₀ (scroll_row left s (r + 1) c)
unfolding scroll_row
scroll_row-Moved zero r c s₀ s m = let same : r * 80 + c + 0 ≡ r * 80 + c = omega arith in rw same m
scroll_row-Moved (suc left) r c s₀ s m =
    let row : r * 80 + c ≡ (r + 1 - 1) * 80 + c = omega arith in
    let from : r * 80 + c + 80 ≡ (r + 1) * 80 + c = omega arith in
    let copied : write_cell s (2 * (r * 80 + c)) (s.cells (2 * (r * 80 + c + 80)))
        ≡ write_at s (read_cell s (r + 1) c) (r + 1 - 1) c =
      ap₂ (λ x y. write_cell s (2 * x) (s.cells (2 * y))) row from in
    let at : r * 80 + c + 1 ≡ r * 80 + (c + 1) = omega arith in
    let next : r * 80 + c + suc left ≡ r * 80 + (c + 1) + left = omega arith in
    let moved = subst (Moved (r * 80 + c + 1) s₀) copied (write_cell-Moved (r * 80 + c) s₀ s m) in
    rw next (scroll_row-Moved left r (c + 1) s₀ _ (rw at at moved))

scroll_rows-Moved :
    (left r : ℕ) (s₀ s : Fb)
    → Moved (r * 80) s₀ s
    → Moved ((r + left) * 80) s₀ (scroll_rows left s (r + 1))
unfolding scroll_rows
scroll_rows-Moved zero r s₀ s m = let same : r + 0 ≡ r = omega arith in rw same m
scroll_rows-Moved (suc left) r s₀ s m =
    let start : r * 80 ≡ r * 80 + 0 = omega arith in
    let end : r * 80 + 0 + 80 ≡ (r + 1) * 80 = omega arith in
    let next : r + suc left ≡ r + 1 + left = omega arith in
    let row = scroll_row-Moved 80 r 0 s₀ s (rw start at m) in
    rw next (scroll_rows-Moved left (r + 1) s₀ _ (rw end at row))

-- Blank cells from position `k` to `k + n`; the others are as they were.
record Cleared (k n : ℕ) (s₀ s : Fb) : Type 0 where
  chars : (p : ℕ) → k ≤ p → p < k + n → s.cells (2 * p) ≡ b' '
  others : (a : ℕ) → (a < 2 * k) ⊎ (2 * (k + n) ≤ a) → s.cells a ≡ s₀.cells a
  cursor : s.cursor_pos ≡ s₀.cursor_pos

clear_row-Cleared :
    (left : ℕ) (s : Fb) (r c : ℕ) → Cleared (r * 80 + c) left s (clear_row left s r c)
unfolding clear_row
clear_row-Cleared zero s r c = record {
  chars = λ p le lt. absurd (omega arith);
  others = λ a out. refl;
  cursor = refl;
}
clear_row-Cleared (suc left) s r c =
    let m = clear_row-Cleared left (write_at s b' ' r c) r (c + 1) in
    record {
      chars = λ p le lt. elim (Bool-cases (p == r * 80 + c)) [
        | inl e ↦
            let same : p ≡ r * 80 + c = ground arith in
            rw same (
              m.others (2 * (r * 80 + c)) (inl (omega arith))
              ∙ write_cell_char s (2 * (r * 80 + c)) b' ')
        | inr e ↦ let after : r * 80 + c < p = ground arith in m.chars p (omega arith) (omega arith)
      ];
      others = λ a out.
          m.others a (grind arith) ∙ write_cell_other s (2 * (r * 80 + c)) b' ' a (grind arith);
      cursor = m.cursor;
    }

-- Scrolling moves the characters of every row one row up, fills the last row with spaces, and
-- changes neither the cursor nor the memory behind the screen.
pub scroll_lem :
    (s : Fb)
    → ((p : ℕ) → p < 24 * 80 → (scroll s).cells (2 * p) ≡ s.cells (2 * (p + 80)))
      × ((p : ℕ) → 24 * 80 ≤ p → p < 25 * 80 → (scroll s).cells (2 * p) ≡ b' ')
      × ((a : ℕ) → 2 * 25 * 80 ≤ a → (scroll s).cells a ≡ s.cells a)
      × ((scroll s).cursor_pos ≡ s.cursor_pos)
unfolding scroll
scroll_lem s =
    let start : Moved 0 s s = record {
      chars = λ p lt. absurd (omega arith);
      colours = λ p lt. absurd (omega arith);
      rest = λ a le. refl;
      cursor = refl;
    } in
    let m = scroll_rows-Moved 24 0 s s start in
    let c = clear_row-Cleared 80 (scroll_rows 24 s 1) 24 0 in
    (
      λ p lt. c.others (2 * p) (inl (omega arith)) ∙ m.chars p (omega arith),
      λ p le lt. c.chars p (omega arith) (omega arith),
      λ a le. c.others a (inr (omega arith)) ∙ m.rest a (omega arith),
      c.cursor ∙ m.cursor,
    )
