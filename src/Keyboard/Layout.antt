-- ===== src/Keyboard/Layout.antt =====
-- keyboard.c: no two keys give the same character, and what the modifiers do to letters.
use aenix.Base.{
  ℕ, ◌-◌, ◌/◌, ◌%◌, ◌≤◌, ◌<◌, ◌≡◌, refl, Bool, true, false, not, ◌&&◌, ◌||◌, List, [], ◌∷◌, none,
  some, inl, inr, arith, ◌==◌, if◌then◌else◌, Bool-cases,
}
use aenix.Keyboard.Ascii.{
  Modifiers, switch, found, keys, capitalise, key_make, kbd_scan_code_to_ascii, lshift, rshift,
}

-- No entry of the list has the value `v`.
lacks : ℕ → List (ℕ × ℕ) → Bool
lacks v [] = true
lacks v ((k, w) ∷ l) = not (w == v) && lacks v l

distinct : List (ℕ × ℕ) → Bool
unfolding lacks
distinct [] = true
distinct ((k, v) ∷ l) = lacks v l && distinct l

lacks-switch : (l : List (ℕ × ℕ)) (v x : ℕ) → lacks v l ≡ true → switch l x ≡ some v → ⊥
unfolding lacks switch
lacks-switch [] v x h e = cc
lacks-switch ((k, w) ∷ l) v x h e = ground (arith, lacks-switch l v x)

switch-injective :
    (l : List (ℕ × ℕ)) (v x y : ℕ)
    → distinct l ≡ true
    → switch l x ≡ some v
    → switch l y ≡ some v
    → x ≡ y
unfolding distinct switch
switch-injective [] v x y d p q = cc
switch-injective ((k, w) ∷ l) v x y d p q =
    ground (arith, lacks-switch l w x, lacks-switch l w y, switch-injective l v x y)

-- The keys with what they give under the modifiers `m`.
abbrev give : Modifiers → List (ℕ × ℕ) → List (ℕ × ℕ)
give m [] = []
give m ((k, v) ∷ l) = (k, capitalise m v) ∷ give m l

switch-give :
    (m : Modifiers) (l : List (ℕ × ℕ)) (x ch : ℕ)
    → (found m (switch l x)).0 ≡ some ch
    → switch (give m l) x ≡ some ch
unfolding switch
switch-give m [] x ch h = h
switch-give m ((k, w) ∷ l) x ch h = elim (Bool-cases (k == x)) [
  | inl e ↦ rw e (rw e at h)
  | inr e ↦ rw e (switch-give m l x ch (rw e at h))
]

abbrev modifiers : Bool → Bool → Bool → Modifiers
modifiers l r c = record { is_lshift_down = l; is_rshift_down = r; is_caps_lock_pressed = c }

give-distinct : (l r c : Bool) → distinct (give (modifiers l r c) keys) ≡ true
unfolding distinct capitalise
give-distinct true true true = refl
give-distinct true true false = refl
give-distinct true false true = refl
give-distinct true false false = refl
give-distinct false true true = refl
give-distinct false true false = refl
give-distinct false false true = refl
give-distinct false false false = refl

key_make-switch :
    (m : Modifiers) (sc ch : ℕ) → (key_make m sc).0 ≡ some ch → switch (give m keys) sc ≡ some ch
unfolding key_make
key_make-switch m sc ch h = elim (Bool-cases (sc == lshift)) [
  | inl e ↦ cc (rw e at h)
  | inr e ↦ elim (Bool-cases (sc == rshift)) [
    | inl f ↦ cc (rw (e, f) at h)
    | inr f ↦ switch-give m keys sc ch (rw (e, f) at h)
  ]
]

keys-distinct : (m : Modifiers) → distinct (give m keys) ≡ true
keys-distinct m = give-distinct m.is_lshift_down m.is_rshift_down m.is_caps_lock_pressed

make_of_char :
    (m : Modifiers) (sc ch : ℕ)
    → (kbd_scan_code_to_ascii m sc).0 ≡ some ch
    → (key_make m sc).0 ≡ some ch
unfolding kbd_scan_code_to_ascii
make_of_char m sc ch h = elim (Bool-cases (sc / 0x80 % 2 == 1)) [
  | inl e ↦ cc (rw e at h)
  | inr e ↦ rw e at h
]

-- Under any modifiers, two keys that give the same character are one key.
pub kbd_scan_code_to_ascii_injective :
    (m : Modifiers) (x y ch : ℕ)
    → (kbd_scan_code_to_ascii m x).0 ≡ some ch
    → (kbd_scan_code_to_ascii m y).0 ≡ some ch
    → x ≡ y
kbd_scan_code_to_ascii_injective m x y ch p q =
    switch-injective (give m keys) ch x y (keys-distinct m)
      (key_make-switch m x ch (make_of_char m x ch p))
      (key_make-switch m y ch (make_of_char m y ch q))

-- A letter comes out as a capital exactly if caps lock or a shift key is set.
capitalise-letter :
    (m : Modifiers) (ch : ℕ)
    → b'a' ≤ ch
    → ch ≤ b'z'
    → capitalise m ch
      ≡ (if m.is_caps_lock_pressed || (m.is_lshift_down || m.is_rshift_down) then ch - 32 else ch)
unfolding capitalise switch
capitalise-letter m ch lo hi = ground arith

lshift-none : switch keys lshift ≡ none
unfolding switch
lshift-none = refl

rshift-none : switch keys rshift ≡ none
unfolding switch
rshift-none = refl

no_key : (sc k ch : ℕ) → switch keys k ≡ none → switch keys sc ≡ some ch → (sc == k) ≡ false
no_key sc k ch n h = elim (Bool-cases (sc == k)) [
  | inl e ↦ let same : sc ≡ k = ground arith in cc (rw same at h, n)
  | inr e ↦ e
]

-- The key of a letter gives the capital exactly if caps lock or a shift key is set, and leaves
-- the modifiers as they are.
pub kbd_scan_code_to_ascii-letter :
    (m : Modifiers) (sc ch : ℕ)
    → sc < 0x80
    → switch keys sc ≡ some ch
    → b'a' ≤ ch
    → ch ≤ b'z'
    → kbd_scan_code_to_ascii m sc ≡ (
      some (
          if m.is_caps_lock_pressed || (m.is_lshift_down || m.is_rshift_down) then ch - 32 else ch),
      m,
    )
unfolding kbd_scan_code_to_ascii key_make
kbd_scan_code_to_ascii-letter m sc ch h k lo hi =
    let pressed : (sc / 0x80 % 2 == 1) ≡ false = ground arith in
    rw (
      pressed,
      no_key sc lshift ch lshift-none k,
      no_key sc rshift ch rshift-none k,
      k,
      capitalise-letter m ch lo hi,
    )
