-- ===== src/Scheduler/Init.antt =====
-- scheduler.c: the set up of the timer's interrupt.
use aenix.Base.{ℕ, Option}
use aenix.Io.{Outs}
use aenix.Ports.{pit_set_interval}
use aenix.Interrupt.{InterruptHandlers, register_interrupt_handler}
use aenix.Scheduler.{scheduler_pit_interval}

-- PIC1_START
abbrev pub pit_int_idx : ℕ
pit_int_idx = 0x20

-- The writes to the timer, and the result with the table of handlers. `handler` is the address of
-- `scheduler_handle_pit_interrupt`.
unfoldable pub scheduler_init :
    (handler : ℕ) → InterruptHandlers → Option Outs × (ℕ × InterruptHandlers)
scheduler_init handler handlers = (
  pit_set_interval scheduler_pit_interval,
  register_interrupt_handler pit_int_idx handler handlers,
)
