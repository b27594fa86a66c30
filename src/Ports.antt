-- ===== src/Ports.antt =====
-- pit.c and serial.c: the timer and the serial ports, as writes to ports. What is read from a port
-- comes from a list, in order.
mod Examples
use Prim.Native.Nat.{bit_and, bit_or}
use aenix.Base.{
  ℕ, ◌+◌, ◌*◌, ◌/◌, ◌%◌, ◌^◌, List, [], ◌∷◌, ◌++◌, Option, none, some, ◌==◌, if◌then◌else◌, Bool,
  true, false,
}
use aenix.Io.{Outs, outb}

abbrev pub pit_frequency : ℕ
pit_frequency = 1193182

unfoldable pub pit_init : Outs
pit_init = outb 0x43 (bit_or (bit_or (bit_or (2 ^ 5) (2 ^ 4)) (2 ^ 2)) (2 ^ 1)) ∷ []

-- `none` is a division by 0. The divider has 16 bits.
unfoldable pub pit_divider : (interval : ℕ) → Option ℕ
pit_divider interval =
    if interval == 0
    then none
    else let frequency = 1000 / interval in
      if frequency == 0 then none else some (pit_frequency / frequency % 0x1_0000)

divider_outs : Option ℕ → Option Outs
divider_outs none = none
divider_outs (some divider) =
    some (outb 0x40 (divider % 0x100) ∷ outb 0x40 (divider / 2 ^ 8 % 0x100) ∷ [])

unfoldable pub pit_set_interval : (interval : ℕ) → Option Outs
unfolding divider_outs
pit_set_interval interval = divider_outs (pit_divider interval)

-- The two handlers are registered after these writes.
unfoldable pub serial_init : (port : ℕ) → Outs
serial_init port =
    outb (port + 1) 0
    ∷ outb (port + 3) 0x80
    ∷ outb port (3 % 0x100)
    ∷ outb (port + 1) (3 / 0x100 % 0x100)
    ∷ outb (port + 3) (bit_or (2 ^ 1) 1)
    ∷ outb (port + 2) (bit_or (bit_or (bit_or (bit_or (2 ^ 7) (2 ^ 6)) (2 ^ 2)) (2 ^ 1)) 1)
    ∷ outb (port + 4) (bit_or (bit_or (2 ^ 3) (2 ^ 1)) 1)
    ∷ []

-- The status is read until the bit is set; `none` where it is not set in what is read.
unfoldable pub wait_for : (bit : ℕ) → (inputs : List ℕ) → Option (List ℕ)
wait_for bit [] = none
wait_for bit (status ∷ inputs) =
    let rest = wait_for bit inputs in if bit_and status bit == 0 then rest else some inputs

-- The write, and what has not been read.
unfoldable pub serial_write : (port value : ℕ) → (inputs : List ℕ) → Option (Outs × List ℕ)
serial_write port value inputs = elim (wait_for 0x20 inputs) [
  | none ↦ none
  | some rest ↦ some (outb port value ∷ [], rest)
]

read_first : Option (List ℕ) → Option (ℕ × List ℕ)
read_first none = none
read_first (some []) = none
read_first (some (value ∷ rest)) = some (value, rest)

unfoldable pub serial_read : (inputs : List ℕ) → Option (ℕ × List ℕ)
unfolding read_first
serial_read inputs = read_first (wait_for 0x01 inputs)
