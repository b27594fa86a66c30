-- ===== src/Keyboard/Examples.antt =====
-- Runs of the keyboard driver.
use aenix.Base.{ℕ, ◌≤◌, ◌≡◌, refl, false, List, [], ◌∷◌, arith, replicate, take}
use aenix.Keyboard.Ascii.{Modifiers, switch, capitalise, kbd_scan_code_to_ascii}
use aenix.Keyboard.{
  kbd_init, keyboard_handle_interrupt, Reader, outer, turn, Event, scans, reads, step, run,
}
use aenix.Keyboard.Fifo.{decode, codes_of, start, run-decode}

abbrev no_modifiers : Modifiers
no_modifiers = record {
  is_lshift_down = false;
  is_rshift_down = false;
  is_caps_lock_pressed = false;
}

abbrev zeros : List ℕ
zeros = replicate 512 0

-- Shift down, A, shift up, B.
abbrev typing : List Event
typing =
    scans 0x2a ∷ scans 0x1e ∷ reads ∷ reads ∷ scans 0xaa ∷ scans 0x30 ∷ reads ∷ reads ∷ reads ∷ []

typing_runs : (run (start no_modifiers zeros 4) typing).chars ≡ b'A' ∷ b'b' ∷ []
unfolding run step turn keyboard_handle_interrupt kbd_init kbd_scan_code_to_ascii switch capitalise
typing_runs = refl

run-decode_example :
    let r = run (start no_modifiers zeros 4) typing in
    ((r.chars, r.modifiers) ≡ decode ([], no_modifiers) (take r.kbd.head (codes_of typing)))
    × (r.kbd.head ≤ 4)
    × (r.kbd.head ≡ r.kbd.tail
        → (r.chars, r.modifiers) ≡ decode ([], no_modifiers) (codes_of typing))
run-decode_example = run-decode no_modifiers zeros 4 typing refl (omega arith)

abbrev keys_held : ℕ → List Event
keys_held n = replicate n (scans 0x1e)

abbrev two_waiting : Reader
two_waiting = record {
  kbd = record { buffer = 0x1e ∷ 0x30 ∷ []; head = 0; tail = 2; count = 2 };
  modifiers = no_modifiers;
  chars = [];
  count = 1;
  place = outer;
}
