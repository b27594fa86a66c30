-- ===== src/Ports/Examples.antt =====
-- Runs of the timer's and the serial port's functions.
use aenix.Base.{◌≡◌, refl, [], ◌∷◌, none, some}
use aenix.Io.{outb}
use aenix.Ports.{pit_init, pit_divider, pit_set_interval, wait_for, serial_write, serial_read}

-- The interval that the scheduler sets: 1193182 / 500 is 2386.
sets_interval : pit_set_interval 2 ≡ some (outb 0x40 0x52 ∷ outb 0x40 0x09 ∷ [])
unfolding pit_set_interval pit_divider
sets_interval = refl

-- The divider for 100 ms does not fit, and that for more than a second is a division by 0.
interval_limits : (pit_divider 100 ≡ some 53782) × (pit_divider 1001 ≡ none)
unfolding pit_divider
interval_limits = (refl, refl)

starts : pit_init ≡ outb 0x43 0x36 ∷ []
unfolding pit_init
starts = refl

-- The third status says that the port is ready.
writes : serial_write 0x3F8 65 (0 ∷ 1 ∷ 0x60 ∷ 7 ∷ []) ≡ some (outb 0x3F8 65 ∷ [], 7 ∷ [])
unfolding serial_write wait_for
writes = refl

reads : serial_read (0 ∷ 1 ∷ 66 ∷ []) ≡ some (66, [])
unfolding serial_read wait_for
reads = refl
