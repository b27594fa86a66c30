-- ===== src/Fb.antt =====
-- fb.c: the console. `cells` gives the bytes of the screen's memory, by the offset to `fb`, and
-- `outs` what was written to the ports.
pub mod Device
pub mod Scroll
pub mod Screen
mod Examples
use aenix.Base.{
  ℕ, zero, suc, ◌+◌, ◌-◌, ◌*◌, ◌/◌, ◌%◌, Bool, true, false, not, ◌&&◌, List, [], ◌∷◌, ◌++◌, leb,
  ◌==◌, if◌then◌else◌,
}
use aenix.Io.{Outs, outb}

abbrev pub fb_num_cols : ℕ
fb_num_cols = 80

abbrev pub fb_num_rows : ℕ
fb_num_rows = 25

pub record Fb : Type 0 where
  pub cells : ℕ → ℕ
  pub cursor_pos : ℕ
  pub outs : Outs

abbrev pub to_address : (row col : ℕ) → ℕ
to_address row col = 2 * (row * fb_num_cols + col)

abbrev pub write_byte : (ℕ → ℕ) → ℕ → ℕ → ℕ → ℕ
write_byte cells cell b a = if a == cell then b else cells a

-- The second byte is BLACK_ON_WHITE.
abbrev pub write_cell : Fb → (cell b : ℕ) → Fb
write_cell s cell b = record s { cells = write_byte (write_byte s.cells cell b) (cell + 1) 0x0f }

abbrev pub read_cell : Fb → (row col : ℕ) → ℕ
read_cell s row col = s.cells (to_address row col)

abbrev pub write_at : Fb → (b row col : ℕ) → Fb
write_at s b row col = write_cell s (to_address row col) b

abbrev pub set_cursor : Fb → ℕ → Fb
set_cursor s loc = record s {
  outs =
      s.outs
      ++ outb 0x3d4 14 ∷ outb 0x3d5 (loc / 256 % 256) ∷ outb 0x3d4 15 ∷ outb 0x3d5 (loc % 256) ∷ [];
}

-- `cursor_pos` is a `uint16_t`.
abbrev pub move_to : Fb → ℕ → Fb
move_to s pos = set_cursor (record s { cursor_pos = pos }) pos

abbrev pub move_cursor_forward : Fb → Fb
move_cursor_forward s = move_to s ((s.cursor_pos + 1) % 0x1_0000)

abbrev pub move_cursor_back : Fb → Fb
move_cursor_back s = if s.cursor_pos == 0 then s else move_to s (s.cursor_pos - 1)

abbrev pub move_cursor_down : Fb → Fb
move_cursor_down s = move_to s ((s.cursor_pos + fb_num_cols) % 0x1_0000)

abbrev pub move_cursor_start : Fb → Fb
move_cursor_start s = move_to s (s.cursor_pos - s.cursor_pos % fb_num_cols)

-- `left` columns of row `r` are still to be copied to the row above.
unfoldable pub scroll_row : (left : ℕ) → Fb → (r c : ℕ) → Fb
scroll_row zero s r c = s
scroll_row (suc left) s r c = scroll_row left (write_at s (read_cell s r c) (r - 1) c) r (c + 1)

unfoldable pub scroll_rows : (left : ℕ) → Fb → (r : ℕ) → Fb
scroll_rows zero s r = s
scroll_rows (suc left) s r = scroll_rows left (scroll_row fb_num_cols s r 0) (r + 1)

unfoldable pub clear_row : (left : ℕ) → Fb → (r c : ℕ) → Fb
clear_row zero s r c = s
clear_row (suc left) s r c = clear_row left (write_at s b' ' r c) r (c + 1)

unfoldable pub scroll : Fb → Fb
scroll s = clear_row fb_num_cols (scroll_rows (fb_num_rows - 1) s 1) (fb_num_rows - 1) 0

unfoldable pub fb_move_cursor : Fb → (row col : ℕ) → Fb
fb_move_cursor s row col = move_to s ((row * fb_num_cols + col) % 0x1_0000)

abbrev pub backspace : ℕ
backspace = 8

-- What `fb_put_b` does before it looks at the end of the screen, for a byte that is no tab.
unfoldable pub put_plain : Fb → ℕ → Fb
put_plain s b =
    if b == b'\n'
    then move_cursor_start (move_cursor_down s)
    else if b == backspace
    then write_cell (move_cursor_back s) (2 * (move_cursor_back s).cursor_pos) b' '
    else move_cursor_forward (write_cell s (2 * s.cursor_pos) b)

unfoldable pub scroll_if_full : Fb → Fb
scroll_if_full s =
    if leb (fb_num_cols * fb_num_rows) s.cursor_pos then fb_move_cursor (scroll s) 24 0 else s

-- A space is no tab, so that the calls for a tab do not call `fb_put_b` again.
unfoldable pub put_space : Fb → Fb
put_space s = scroll_if_full (put_plain s b' ')

unfoldable pub fb_put_b : Fb → ℕ → Fb
fb_put_b s b =
    if b == b'\t'
    then scroll_if_full (put_space (put_space (put_space (put_space s))))
    else scroll_if_full (put_plain s b)

unfoldable pub fb_put_s : Fb → List ℕ → Fb
fb_put_s s [] = s
fb_put_s s (b ∷ bs) = fb_put_s (fb_put_b s b) bs

unfoldable pub clear_rows : (left : ℕ) → Fb → (i : ℕ) → Fb
clear_rows zero s i = s
clear_rows (suc left) s i = clear_rows left (clear_row fb_num_cols s i 0) (i + 1)

unfoldable pub fb_clear : Fb → Fb
fb_clear s = fb_move_cursor (clear_rows fb_num_rows s 0) 0 0
