-- ===== src/Keyboard/Fifo.antt =====
-- keyboard.c: `kbd_read` sees the scan codes in the order in which they came, for the first 511.
use aenix.Base.{
  ℕ, suc, ◌+◌, ◌≤◌, ◌<◌, ◌≡◌, refl, ap, sym, subst, ◌∙◌, true, false, List, [], ◌∷◌, ◌++◌, Option,
  none, some, inl, inr, arith, ltb, ◌==◌, Bool-cases, length, get_or, set, take, length-append,
  length-set, get_or-set_self, get_or-set_ne, get_or-append_lt, get_or-append_length,
  take-append_le, take-suc, take-length,
}
use mathlib.Core.List.{append-nil, append_assoc}
use aenix.Keyboard.Ascii.{Modifiers, kbd_scan_code_to_ascii}
use aenix.Keyboard.{
  kbd_init, kbd_buffer_size, keyboard_handle_interrupt, Reader, Place, outer, inner, returned,
  store, turn_at, turn, Event, scans, reads, step, run,
}

abbrev pub after : List ℕ → Option ℕ × Modifiers → List ℕ × Modifiers
after chars (none, m) = (chars, m)
after chars (some ch, m) = (chars ++ ch ∷ [], m)

-- The characters that a sequence of scan codes gives, and the modifiers behind it.
abbrev pub decode : List ℕ × Modifiers → List ℕ → List ℕ × Modifiers
decode s [] = s
decode s (sc ∷ codes) = decode (after s.0 (kbd_scan_code_to_ascii s.1 sc)) codes

decode-append :
    (s : List ℕ × Modifiers) (xs ys : List ℕ) → decode s (xs ++ ys) ≡ decode (decode s xs) ys
decode-append s [] ys = refl
decode-append s (x ∷ xs) ys = decode-append (after s.0 (kbd_scan_code_to_ascii s.1 x)) xs ys

-- The scan codes of the interrupts among the events.
abbrev pub codes_of : List Event → List ℕ
codes_of [] = []
codes_of (scans sc ∷ es) = sc ∷ codes_of es
codes_of (reads ∷ es) = codes_of es

-- `codes` have come, of which those before `head` are read; `m` were the modifiers at the start.
pub record IsFifo (m : Modifiers) (codes : List ℕ) (r : Reader) : Type 0 where
  pub room : length codes < kbd_buffer_size
  pub size : length r.kbd.buffer ≡ kbd_buffer_size
  pub tail : r.kbd.tail ≡ length codes
  pub count : r.kbd.count ≡ length codes
  pub head : r.kbd.head ≤ length codes
  pub holds : (k : ℕ) → k < length codes → get_or r.kbd.buffer k 0 ≡ get_or codes k 0
  pub decoded : (r.chars, r.modifiers) ≡ decode ([], m) (take r.kbd.head codes)

set-holds :
    (buffer codes : List ℕ) (sc : ℕ)
    → length codes < length buffer
    → ((k : ℕ) → k < length codes → get_or buffer k 0 ≡ get_or codes k 0)
    → (k : ℕ) → k < length codes + 1
    → get_or (set buffer (length codes) sc) k 0 ≡ get_or (codes ++ sc ∷ []) k 0
set-holds buffer codes sc room holds k h = elim (Bool-cases (k == length codes)) [
  | inl e ↦
      let same : k ≡ length codes = ground arith in
      rw (same, get_or-set_self buffer (length codes) sc 0 room)
        (sym (get_or-append_length codes [] sc 0))
  | inr e ↦
      let before : k < length codes = ground arith in
      get_or-set_ne buffer (length codes) k sc 0 (ground arith)
      ∙ holds k before
      ∙ sym (get_or-append_lt codes (sc ∷ []) k 0 before)
]

scans-IsFifo :
    {m : Modifiers} {codes : List ℕ} {r : Reader} (sc : ℕ)
    → IsFifo m codes r
    → length codes + 1 < kbd_buffer_size
    → IsFifo m (codes ++ sc ∷ []) (step r (scans sc))
unfolding step keyboard_handle_interrupt
scans-IsFifo {m} {codes} {r} sc is h =
    let longer = length-append codes (sc ∷ []) in
    let open_end : ltb r.kbd.count kbd_buffer_size ≡ true = ground (arith, is.count) in
    let no_turn : (r.kbd.tail + 1 == kbd_buffer_size) ≡ false = ground (arith, is.tail) in
    rw (open_end, no_turn)
      (record {
        room = omega (arith, longer);
        size = length-set r.kbd.buffer r.kbd.tail sc ∙ is.size;
        tail = omega (arith, longer, is.tail);
        count = omega (arith, longer, is.count);
        head = omega (arith, longer, is.head);
        holds = λ k lt. rw is.tail (
            set-holds r.kbd.buffer codes sc (omega (arith, is.size, is.room)) is.holds k
              (omega (arith, longer)));
        decoded =
            is.decoded
            ∙ ap (decode ([], m))
                (sym (take-append_le r.kbd.head codes (sc ∷ []) (omega (arith, is.head))));
      })

module _ {m : Modifiers} {codes : List ℕ} {r : Reader} (is : IsFifo m codes r) where
  code : ℕ
  code = get_or r.kbd.buffer r.kbd.head 0

  -- Decoding one code more.
  decoded_next :
      r.kbd.head < length codes
      → after r.chars (kbd_scan_code_to_ascii r.modifiers code)
        ≡ decode ([], m) (take (r.kbd.head + 1) codes)
  unfolding code
  decoded_next h =
      let read = take-suc r.kbd.head codes 0 h in
      let one = λ (s : List ℕ × Modifiers). after s.0 (kbd_scan_code_to_ascii s.1 code) in
      ap one is.decoded
      ∙ rw (is.holds r.kbd.head h)
          (sym (decode-append ([], m) (take r.kbd.head codes) (get_or codes r.kbd.head 0 ∷ [])))
      ∙ ap (decode ([], m)) (sym read ∙ ap (λ n. take n codes) {x = suc r.kbd.head} (omega arith))

  no_wrap : r.kbd.head < length codes → (r.kbd.head + 1 == kbd_buffer_size) ≡ false
  no_wrap h = ground (arith, is.room)

  store-IsFifo :
      (d : Option ℕ × Modifiers)
      → r.kbd.head < length codes
      → after r.chars d ≡ decode ([], m) (take (r.kbd.head + 1) codes)
      → IsFifo m codes (store r d)
  store-IsFifo (none, m') h e = rw (no_wrap h) (record {
    room = is.room;
    size = is.size;
    tail = is.tail;
    count = is.count;
    head = omega arith;
    holds = is.holds;
    decoded = e;
  })
  store-IsFifo (some ch, m') h e = rw (no_wrap h) (record {
    room = is.room;
    size = is.size;
    tail = is.tail;
    count = is.count;
    head = omega arith;
    holds = is.holds;
    decoded = e;
  })

  moved : (p : Place) → IsFifo m codes (record r { place = p })
  moved p = record {
    room = is.room;
    size = is.size;
    tail = is.tail;
    count = is.count;
    head = is.head;
    holds = is.holds;
    decoded = is.decoded;
  }

  turn_at-IsFifo : (p : Place) → IsFifo m codes (turn_at p r)
  unfolding turn_at code
  turn_at-IsFifo outer = elim (Bool-cases (r.count == 0)) [
    | inl e ↦ rw e (moved returned)
    | inr e ↦ rw e (moved inner)
  ]
  turn_at-IsFifo inner = elim (Bool-cases (r.kbd.head == r.kbd.tail)) [
    | inl e ↦ rw e (moved outer)
    | inr e ↦
        let h : r.kbd.head < length codes = ground (arith, is.head, is.tail) in
        rw e (store-IsFifo (kbd_scan_code_to_ascii r.modifiers code) h (decoded_next h))
  ]
  turn_at-IsFifo returned = is

run-IsFifo :
    (es : List Event) {m : Modifiers} {codes : List ℕ} {r : Reader}
    → IsFifo m codes r
    → length codes + length (codes_of es) < kbd_buffer_size
    → IsFifo m (codes ++ codes_of es) (run r es)
unfolding run step turn
run-IsFifo [] {m} {codes} {r} is h = subst (λ c. IsFifo m c r) (sym (append-nil codes)) is
run-IsFifo (scans sc ∷ es) {m} {codes} {r} is h =
    subst (λ c. IsFifo m c (run (step r (scans sc)) es))
      (append_assoc codes (sc ∷ []) (codes_of es))
      (run-IsFifo es (scans-IsFifo sc is (omega arith))
        (omega (arith, length-append codes (sc ∷ []))))
run-IsFifo (reads ∷ es) {r} is h = run-IsFifo es (turn_at-IsFifo is r.place) h

-- `kbd_read` with an empty buffer, before the first key.
abbrev pub start : Modifiers → List ℕ → ℕ → Reader
start m buffer count = record {
  kbd = kbd_init buffer;
  modifiers = m;
  chars = [];
  count = count;
  place = outer;
}

start-IsFifo :
    (m : Modifiers) (buffer : List ℕ) (count : ℕ)
    → length buffer ≡ kbd_buffer_size
    → IsFifo m [] (start m buffer count)
unfolding kbd_init
start-IsFifo m buffer count size = record {
  room = omega arith;
  size = size;
  tail = refl;
  count = refl;
  head = omega arith;
  holds = λ k lt. absurd (omega arith);
  decoded = refl;
}

-- However interrupts and `kbd_read` take turns: as long as at most 511 scan codes have come, the
-- characters stored are those of the codes read, in order, and with `head` at `tail` of all codes.
pub run-decode :
    (m : Modifiers) (buffer : List ℕ) (count : ℕ) (es : List Event)
    → length buffer ≡ kbd_buffer_size
    → length (codes_of es) < kbd_buffer_size
    → let r = run (start m buffer count) es in
      ((r.chars, r.modifiers) ≡ decode ([], m) (take r.kbd.head (codes_of es)))
      × (r.kbd.head ≤ length (codes_of es))
      × (r.kbd.head ≡ r.kbd.tail → (r.chars, r.modifiers) ≡ decode ([], m) (codes_of es))
run-decode m buffer count es size h =
    let is = run-IsFifo es (start-IsFifo m buffer count size) (omega arith) in
    (
      is.decoded,
      is.head,
      λ e.
          is.decoded
          ∙ ap (decode ([], m))
              (ap (λ n. take n (codes_of es)) (e ∙ is.tail) ∙ take-length (codes_of es)),
    )
