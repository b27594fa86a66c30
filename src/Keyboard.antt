-- ===== src/Keyboard.antt =====
-- keyboard.c: the buffer of scan codes between the interrupt handler and `kbd_read`. The pointers
-- `head` and `tail` are indices into the buffer.
pub mod Ascii
pub mod Layout
pub mod Fifo
pub mod Full
mod Examples
use aenix.Base.{
  ℕ, ◌+◌, ◌-◌, ◌%◌, Bool, true, false, List, [], ◌∷◌, ◌++◌, Option, none, some, ltb, ◌==◌,
  if◌then◌else◌, get_or, set, replicate, sub32,
}
use aenix.Io.{Outs}
use aenix.Pic.{pic_acknowledge}
use Ascii.{Modifiers, kbd_scan_code_to_ascii}

abbrev pub kbd_buffer_size : ℕ
kbd_buffer_size = 512

pub record KbdBuffer : Type 0 where
  pub buffer : List ℕ
  pub head : ℕ
  pub tail : ℕ
  pub count : ℕ

-- `*ptr++` and the step back to the start of the buffer.
abbrev pub next_index : ℕ → ℕ
next_index i = if i + 1 == kbd_buffer_size then 0 else i + 1

pub kbd_init : List ℕ → KbdBuffer
kbd_init buffer = record { buffer = buffer; head = 0; tail = 0; count = 0 }

-- `sc` is what `kbd_read_scan_code` reads from the data port.
pub accept : KbdBuffer → ℕ → KbdBuffer
accept b sc =
    if ltb b.count kbd_buffer_size
    then record b { buffer = set b.buffer b.tail sc; tail = next_index b.tail; count = b.count + 1 }
    else b

pub keyboard_handle_interrupt : KbdBuffer → ℕ → KbdBuffer × Outs
unfolding accept
keyboard_handle_interrupt b sc = (accept b sc, pic_acknowledge)

-- Where `kbd_read` stands: at the test of the outer loop, at that of the inner one, or behind both.
pub data Place : Type 0 where
  outer inner returned : Place

-- `kbd_read` under way: `chars` is what it has stored through `buf`, and `count` its argument as
-- it counts down, a `size_t`.
pub record Reader : Type 0 where
  pub kbd : KbdBuffer
  pub modifiers : Modifiers
  pub chars : List ℕ
  pub count : ℕ
  pub place : Place

-- The body of the inner loop, when `decoded` is what the code at `head` gives.
abbrev pub store : Reader → Option ℕ × Modifiers → Reader
store r (none, m) = record r { kbd = record r.kbd { head = next_index r.kbd.head }; modifiers = m }
store r (some ch, m) = record r {
  kbd = record r.kbd { head = next_index r.kbd.head };
  modifiers = m;
  chars = r.chars ++ ch ∷ [];
  count = sub32 r.count 1;
}

-- One test of a loop of `kbd_read`, and the body that follows it.
turn_at : Place → Reader → Reader
turn_at outer r = if r.count == 0 then record r { place = returned } else record r { place = inner }
turn_at inner r =
    if r.kbd.head == r.kbd.tail
    then record r { place = outer }
    else store r (kbd_scan_code_to_ascii r.modifiers (get_or r.kbd.buffer r.kbd.head 0))
turn_at returned r = r

pub turn : Reader → Reader
unfolding turn_at
turn r = turn_at r.place r

-- What happens next: a keyboard interrupt, or a turn of `kbd_read`.
pub data Event : Type 0 where
  scans : ℕ → Event
  reads : Event

pub step : Reader → Event → Reader
unfolding turn
step r (scans sc) = record r { kbd = (keyboard_handle_interrupt r.kbd sc).0 }
step r reads = turn r

pub run : Reader → List Event → Reader
run r [] = r
run r (e ∷ es) = run (step r e) es
