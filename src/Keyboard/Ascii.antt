-- ===== src/Keyboard/Ascii.antt =====
-- keyboard.c: from scan codes to characters, with the shift and caps lock flags. The character -1
-- is `none`; the flags hold 0 or 1.
use aenix.Base.{
  ℕ, ◌+◌, ◌-◌, ◌/◌, ◌%◌, Bool, not, ◌&&◌, ◌||◌, List, [], ◌∷◌, Option, none, some, leb, ◌==◌,
  if◌then◌else◌,
}

pub record Modifiers : Type 0 where
  pub is_lshift_down : Bool
  pub is_rshift_down : Bool
  pub is_caps_lock_pressed : Bool

abbrev pub toggle_left_shift : Modifiers → Modifiers
toggle_left_shift m = record m { is_lshift_down = not m.is_lshift_down }

abbrev pub toggle_right_shift : Modifiers → Modifiers
toggle_right_shift m = record m { is_rshift_down = not m.is_rshift_down }

abbrev pub toggle_caps_lock : Modifiers → Modifiers
toggle_caps_lock m = record m { is_caps_lock_pressed = not m.is_caps_lock_pressed }

-- A `switch` whose cases return a value: the first case that fits.
unfoldable pub switch : List (ℕ × ℕ) → ℕ → Option ℕ
switch [] x = none
switch ((k, v) ∷ cases) x = if k == x then some v else switch cases x

is_lower : ℕ → Bool
is_lower ch = leb b'a' ch && leb ch b'z'

unfoldable pub handle_caps_lock : ℕ → ℕ
unfolding is_lower
handle_caps_lock ch = if is_lower ch then ch + b'A' - b'a' else ch

-- The digits, then the special characters.
abbrev pub shifted_digits : List (ℕ × ℕ)
shifted_digits =
    (b'0', b')')
    ∷ (b'1', b'!')
    ∷ (b'2', b'@')
    ∷ (b'3', b'#')
    ∷ (b'4', b'$')
    ∷ (b'5', b'%')
    ∷ (b'6', b'^')
    ∷ (b'7', b'&')
    ∷ (b'8', b'*')
    ∷ (b'9', b'(')
    ∷ []

abbrev pub shifted_specials : List (ℕ × ℕ)
shifted_specials =
    (b'-', b'_')
    ∷ (b'=', b'+')
    ∷ (b'[', b'{')
    ∷ (b']', b'}')
    ∷ (92, b'|')
    ∷ (b';', b':')
    ∷ (39, b'"')
    ∷ (b',', b'<')
    ∷ (b'.', b'>')
    ∷ (b'/', b'?')
    ∷ (b'`', b'~')
    ∷ []

abbrev or_else : Option ℕ → ℕ → ℕ
or_else none d = d
or_else (some x) d = x

unfoldable pub handle_shift : ℕ → ℕ
unfolding is_lower switch
handle_shift ch =
    if is_lower ch
    then ch + b'A' - b'a'
    else or_else (switch shifted_digits ch) (or_else (switch shifted_specials ch) ch)

-- The cases of the scan codes that set `ch`.
abbrev pub keys : List (ℕ × ℕ)
keys =
    (0x1e, b'a')
    ∷ (0x30, b'b')
    ∷ (0x2e, b'c')
    ∷ (0x20, b'd')
    ∷ (0x12, b'e')
    ∷ (0x21, b'f')
    ∷ (0x22, b'g')
    ∷ (0x23, b'h')
    ∷ (0x17, b'i')
    ∷ (0x24, b'j')
    ∷ (0x25, b'k')
    ∷ (0x26, b'l')
    ∷ (0x32, b'm')
    ∷ (0x31, b'n')
    ∷ (0x18, b'o')
    ∷ (0x19, b'p')
    ∷ (0x10, b'q')
    ∷ (0x13, b'r')
    ∷ (0x1f, b's')
    ∷ (0x14, b't')
    ∷ (0x16, b'u')
    ∷ (0x2f, b'v')
    ∷ (0x11, b'w')
    ∷ (0x2d, b'x')
    ∷ (0x15, b'y')
    ∷ (0x2c, b'z')
    ∷ (0x0b, b'0')
    ∷ (0x02, b'1')
    ∷ (0x03, b'2')
    ∷ (0x04, b'3')
    ∷ (0x05, b'4')
    ∷ (0x06, b'5')
    ∷ (0x07, b'6')
    ∷ (0x08, b'7')
    ∷ (0x09, b'8')
    ∷ (0x0a, b'9')
    ∷ (0x1c, 10)
    ∷ (0x39, 32)
    ∷ (0x0e, 8)
    ∷ (0x0c, b'-')
    ∷ (0x0d, b'=')
    ∷ (0x1a, b'[')
    ∷ (0x1b, b']')
    ∷ (0x2b, 92)
    ∷ (0x27, b';')
    ∷ (0x28, 39)
    ∷ (0x33, b',')
    ∷ (0x34, b'.')
    ∷ (0x35, b'/')
    ∷ (0x29, b'`')
    ∷ (0x0f, 9)
    ∷ []

abbrev pub lshift : ℕ
lshift = 0x2a

abbrev pub rshift : ℕ
rshift = 0x36

abbrev pub capslock : ℕ
capslock = 0x3a

-- A key is released.
unfoldable pub key_break : Modifiers → ℕ → Modifiers
key_break m sc =
    if sc == lshift
    then toggle_left_shift m
    else if sc == rshift
    then toggle_right_shift m
    else if sc == capslock
    then toggle_caps_lock m
    else m

unfoldable pub capitalise : Modifiers → ℕ → ℕ
unfolding handle_caps_lock handle_shift
capitalise m ch =
    let ch' = if m.is_caps_lock_pressed then handle_caps_lock ch else ch in
    if m.is_lshift_down || m.is_rshift_down then handle_shift ch' else ch'

abbrev pub found : Modifiers → Option ℕ → Option ℕ × Modifiers
found m none = (none, m)
found m (some ch) = (some (capitalise m ch), m)

-- A key is pressed.
unfoldable pub key_make : Modifiers → ℕ → Option ℕ × Modifiers
key_make m sc =
    if sc == lshift
    then (none, toggle_left_shift m)
    else if sc == rshift
    then (none, toggle_right_shift m)
    else found m (switch keys sc)

-- Bit 7 of the scan code tells a release.
unfoldable pub kbd_scan_code_to_ascii : Modifiers → ℕ → Option ℕ × Modifiers
unfolding key_break key_make
kbd_scan_code_to_ascii m sc =
    if sc / 0x80 % 2 == 1 then (none, key_break m (sc % 0x80)) else key_make m sc
