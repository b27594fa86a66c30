-- ===== src/Fb/Screen.antt =====
-- fb.c: the cursor stays on the screen, and what is written too.
use aenix.Base.{
  ℕ, ◌*◌, ◌≤◌, ◌<◌, ◌≡◌, refl, ◌∙◌, List, [], ◌∷◌, ◌==◌, arith, Bool-cases, inl, inr, le_cases,
  le→leb, lt→leb,
}
use aenix.Fb.{
  Fb, backspace, move_cursor_back, put_plain, scroll_if_full, put_space, fb_put_b, fb_put_s,
  fb_move_cursor,
}
use aenix.Fb.Scroll.{write_cell_other, scroll_lem}

-- The cursor is before position `n`, and no byte behind the screen has changed.
pub record Keeps (n : ℕ) (s s' : Fb) : Type 0 where
  pub cursor : s'.cursor_pos < n
  pub behind : (a : ℕ) → 4000 ≤ a → s'.cells a ≡ s.cells a

Keeps-trans : (m n : ℕ) (s s' s'' : Fb) → Keeps m s s' → Keeps n s' s'' → Keeps n s s''
Keeps-trans m n s s' s'' k k' = record {
  cursor = k'.cursor;
  behind = λ a le. k'.behind a le ∙ k.behind a le;
}

back-Keeps : (s : Fb) → s.cursor_pos < 2000 → Keeps 2000 s (move_cursor_back s)
back-Keeps s lt = elim (Bool-cases (s.cursor_pos == 0)) [
  | inl e ↦ rw e (record { cursor = lt; behind = λ a le. refl })
  | inr e ↦ rw e (record { cursor = omega arith; behind = λ a le. refl })
]

put_plain-Keeps : (s : Fb) (b : ℕ) → s.cursor_pos < 2000 → Keeps 2080 s (put_plain s b)
unfolding put_plain
put_plain-Keeps s b lt = elim (Bool-cases (b == b'\n')) [
  | inl e ↦ rw e (record { cursor = omega arith; behind = λ a le. refl })
  | inr e ↦ elim (Bool-cases (b == backspace)) [
    | inl e' ↦
        let back = back-Keeps s lt in
        rw (e, e')
          (record {
            cursor = omega (arith, back.cursor);
            behind = λ a le.
                write_cell_other (move_cursor_back s) (2 * (move_cursor_back s).cursor_pos) b' ' a
                  (inr (omega (arith, back.cursor)))
                ∙ back.behind a le;
          })
    | inr e' ↦
        rw (e, e')
          (record {
            cursor = omega arith;
            behind = λ a le. write_cell_other s (2 * s.cursor_pos) b a (inr (omega arith));
          })
  ]
]

scroll_if_full-Keeps : (s s' : Fb) → Keeps 2080 s s' → Keeps 2000 s (scroll_if_full s')
unfolding scroll_if_full fb_move_cursor
scroll_if_full-Keeps s s' k = elim (le_cases 2000 s'.cursor_pos) [
  | inl le ↦ rw (le→leb 2000 s'.cursor_pos le) (record {
    cursor = omega arith;
    behind = λ a far. (scroll_lem s').2 a (omega arith) ∙ k.behind a far;
  })
  | inr lt ↦ rw (lt→leb 2000 s'.cursor_pos lt) (record { cursor = lt; behind = k.behind })
]

put_space-Keeps : (s : Fb) → s.cursor_pos < 2000 → Keeps 2000 s (put_space s)
unfolding put_space
put_space-Keeps s lt = scroll_if_full-Keeps s (put_plain s b' ') (put_plain-Keeps s b' ' lt)

-- With the cursor on the screen, `fb_put_b` leaves it there, and writes no byte behind the screen.
fb_put_b-Keeps : (s : Fb) (b : ℕ) → s.cursor_pos < 2000 → Keeps 2000 s (fb_put_b s b)
unfolding fb_put_b
fb_put_b-Keeps s b lt = elim (Bool-cases (b == b'\t')) [
  | inl e ↦
      let k1 = put_space-Keeps s lt in
      let k2 = Keeps-trans 2000 2000 s _ _ k1 (put_space-Keeps _ k1.cursor) in
      let k3 = Keeps-trans 2000 2000 s _ _ k2 (put_space-Keeps _ k2.cursor) in
      let k4 = Keeps-trans 2000 2000 s _ _ k3 (put_space-Keeps _ k3.cursor) in
      rw e (
        scroll_if_full-Keeps s _ (record { cursor = omega (arith, k4.cursor); behind = k4.behind }))
  | inr e ↦ rw e (scroll_if_full-Keeps s (put_plain s b) (put_plain-Keeps s b lt))
]

-- With the cursor on the screen, `fb_put_s` leaves it there whatever the string is, and writes no
-- byte behind the screen.
pub fb_put_s-Keeps : (bs : List ℕ) (s : Fb) → s.cursor_pos < 2000 → Keeps 2000 s (fb_put_s s bs)
unfolding fb_put_s
fb_put_s-Keeps [] s lt = record { cursor = lt; behind = λ a le. refl }
fb_put_s-Keeps (b ∷ bs) s lt =
    let first = fb_put_b-Keeps s b lt in
    Keeps-trans 2000 2000 s (fb_put_b s b) _ first (fb_put_s-Keeps bs (fb_put_b s b) first.cursor)
