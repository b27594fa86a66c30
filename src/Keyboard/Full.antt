-- ===== src/Keyboard/Full.antt =====
-- keyboard.c: `kbd_buffer.count` counts every scan code that was accepted and never counts down,
-- and `count` of `kbd_read` is not tested in its inner loop.
use Prim.Native.Nat.{min}
use aenix.Base.{
  ℕ, ◌+◌, ◌≤◌, ◌≡◌, ◌≢◌, refl, ◌∙◌, false, List, [], ◌∷◌, ◌++◌, Option, none, some, inl, inr, arith,
  ◌==◌, Bool-cases, length, get_or,
}
use aenix.Keyboard.Ascii.{Modifiers, kbd_scan_code_to_ascii}
use aenix.Keyboard.{
  KbdBuffer, kbd_init, kbd_buffer_size, keyboard_handle_interrupt, Reader, Place, outer, inner,
  returned, next_index, store, turn_at, turn, Event, scans, reads, step, run,
}
use aenix.Keyboard.Fifo.{codes_of, start}

-- What the interrupt handler owns.
abbrev SameBuffer : KbdBuffer → KbdBuffer → Type 0
SameBuffer b c = (b.buffer ≡ c.buffer) × (b.tail ≡ c.tail) × (b.count ≡ c.count)

store-SameBuffer : (r : Reader) (d : Option ℕ × Modifiers) → SameBuffer (store r d).kbd r.kbd
store-SameBuffer r (none, m) = (refl, refl, refl)
store-SameBuffer r (some ch, m) = (refl, refl, refl)

-- `kbd_read` moves only `head`.
turn_at-SameBuffer : (p : Place) (r : Reader) → SameBuffer (turn_at p r).kbd r.kbd
unfolding turn_at
turn_at-SameBuffer outer r = elim (Bool-cases (r.count == 0)) [
  | inl e ↦ rw e (refl, refl, refl)
  | inr e ↦ rw e (refl, refl, refl)
]
turn_at-SameBuffer inner r = elim (Bool-cases (r.kbd.head == r.kbd.tail)) [
  | inl e ↦ rw e (refl, refl, refl)
  | inr e ↦ rw e (store-SameBuffer r _)
]
turn_at-SameBuffer returned r = (refl, refl, refl)

count-step :
    (r : Reader) (e : Event)
    → r.kbd.count ≤ kbd_buffer_size
    → (step r e).kbd.count ≡ min kbd_buffer_size (r.kbd.count + length (codes_of (e ∷ [])))
unfolding step keyboard_handle_interrupt turn
count-step r (scans sc) h = ground arith
count-step r reads h = omega (arith, (turn_at-SameBuffer r.place r).2)

count-run :
    (es : List Event) (r : Reader)
    → r.kbd.count ≤ kbd_buffer_size
    → (run r es).kbd.count ≡ min kbd_buffer_size (r.kbd.count + length (codes_of es))
unfolding run
count-run [] r h = omega arith
count-run (scans sc ∷ es) r h = omega (
  arith,
  count-step r (scans sc) h,
  count-run es (step r (scans sc)) (omega (arith, count-step r (scans sc) h)),
)
count-run (reads ∷ es) r h =
    omega (
      arith,
      count-step r reads h,
      count-run es (step r reads) (omega (arith, count-step r reads h)),
    )

full-step :
    (r : Reader) (e : Event) → r.kbd.count ≡ kbd_buffer_size → SameBuffer (step r e).kbd r.kbd
unfolding step keyboard_handle_interrupt turn
full-step r (scans sc) h = ground arith
full-step r reads h = turn_at-SameBuffer r.place r

full-run :
    (es : List Event) (r : Reader) → r.kbd.count ≡ kbd_buffer_size → SameBuffer (run r es).kbd r.kbd
unfolding run
full-run [] r h = (refl, refl, refl)
full-run (e ∷ es) r h =
    let same = full-step r e h in
    let rest = full-run es (step r e) (same.2 ∙ h) in
    (rest.0 ∙ same.0, rest.1 ∙ same.1, rest.2 ∙ same.2)

start-count :
    (m : Modifiers) (buffer : List ℕ) (count : ℕ) (es : List Event)
    → (run (start m buffer count) es).kbd.count ≡ min kbd_buffer_size (length (codes_of es))
unfolding kbd_init
start-count m buffer count es = omega (arith, count-run es (start m buffer count) (omega arith))

-- Once 512 scan codes have come, the buffer takes no other: whatever is read, nothing that comes
-- later changes the buffer or its tail.
pub run-full :
    (m : Modifiers) (buffer : List ℕ) (count : ℕ) (es later : List Event)
    → kbd_buffer_size ≤ length (codes_of es)
    → let r = run (start m buffer count) es in
      let s = run r later in
      (s.kbd.buffer ≡ r.kbd.buffer) × (s.kbd.tail ≡ r.kbd.tail) × (s.kbd.count ≡ kbd_buffer_size)
run-full m buffer count es later h =
    let n : (run (start m buffer count) es).kbd.count ≡ kbd_buffer_size =
      omega (arith, start-count m buffer count es) in
    let same = full-run later (run (start m buffer count) es) n in (same.0, same.1, same.2 ∙ n)

differ : (a b : ℕ) → a ≢ b → (a == b) ≡ false
differ a b h = ground arith

-- With one character to read and two in the buffer, `kbd_read` stores both, and its count wraps.
pub run-overrun :
    (r : Reader) (c d : ℕ)
    → r.kbd.head ≢ r.kbd.tail
    → next_index r.kbd.head ≢ r.kbd.tail
    → kbd_scan_code_to_ascii r.modifiers (get_or r.kbd.buffer r.kbd.head 0) ≡ (some c, r.modifiers)
    → kbd_scan_code_to_ascii r.modifiers (get_or r.kbd.buffer (next_index r.kbd.head) 0)
      ≡ (some d, r.modifiers)
    → let s = run (record r { place = outer; count = 1 }) (reads ∷ reads ∷ reads ∷ []) in
      (s.chars ≡ (r.chars ++ c ∷ []) ++ d ∷ []) × (s.count ≡ 0xffff_ffff) × (s.place ≡ inner)
unfolding run step turn
run-overrun r c d h k ec ed =
    let one : (r.kbd.head == r.kbd.tail) ≡ false = ground arith in
    let two : (next_index r.kbd.head == r.kbd.tail) ≡ false =
      differ (next_index r.kbd.head) r.kbd.tail k in
    rw (one, ec, two, ed) (refl, refl, refl)
