-- ===== src/Interrupt.antt =====
-- idt.c and interrupt.c: the gates of the interrupts, and the handlers that are registered. The
-- code that a gate leads to is assembly; its address is a parameter.
mod Examples
use Prim.Native.Nat.{bit_and, bit_or}
use aenix.Base.{
  ℕ, zero, suc, ◌+◌, ◌-◌, ◌*◌, ◌/◌, ◌%◌, ◌^◌, ◌<◌, ◌≤◌, ◌≡◌, ◌≢◌, ◌⊎◌, inl, inr, refl, Bool, true,
  false, List, [], ◌∷◌, ◌++◌, map, Option, none, some, arith, u32, ltb, ◌==◌, ◌||◌, if◌then◌else◌,
  Bool-cases, Option-cases,
}
use aenix.Scheduler.Switch.{segsel_kernel_cs}

pub record IdtGate : Type 0 where
  pub handler_low : ℕ
  pub segsel : ℕ
  pub zero_byte : ℕ
  pub config : ℕ
  pub handler_high : ℕ

unfoldable pub create_idt_gate : (handler type pl : ℕ) → IdtGate
create_idt_gate handler type pl = record {
  handler_low = handler % 0x1_0000;
  handler_high = handler / 2 ^ 16 % 0x1_0000;
  segsel = segsel_kernel_cs;
  zero_byte = 0;
  config =
      bit_or
        (bit_or (bit_or (bit_or (bit_or (2 ^ 7) (bit_and pl 3 * 2 ^ 5)) (2 ^ 3)) (2 ^ 2)) (2 ^ 1))
        type;
}

abbrev pub idt_trap_gate_type : ℕ
idt_trap_gate_type = 1

abbrev pub syscall_int_idx : ℕ
syscall_int_idx = 0xAE

-- The calls of CREATE_IDT_GATE from `n` on.
unfoldable pub gates_from : (handlers : ℕ → ℕ) → (n count : ℕ) → List (ℕ × IdtGate)
gates_from handlers n zero = []
gates_from handlers n (suc count) =
    (n, create_idt_gate (handlers n) idt_trap_gate_type 0) ∷ gates_from handlers (n + 1) count

-- The gates that are written, in order: those of the exceptions, of the IRQs and of the system
-- calls.
unfoldable pub idt_init : (handlers : ℕ → ℕ) → (handle_syscall : ℕ) → List (ℕ × IdtGate)
idt_init handlers handle_syscall =
    gates_from handlers 0 20
    ++ (gates_from handlers 32 16
        ++ (syscall_int_idx, create_idt_gate handle_syscall idt_trap_gate_type 3) ∷ [])

-- The gate leads to the handler in the kernel, and code with the privilege `pl` may call it.
pub record LeadsTo (gate : IdtGate) (handler pl : ℕ) : Type 0 where
  pub target : gate.handler_low + gate.handler_high * 2 ^ 16 ≡ handler
  pub segment : gate.segsel ≡ 0x08
  pub present : gate.config / 2 ^ 7 ≡ 1
  pub dpl : gate.config / 2 ^ 5 % 4 ≡ pl
  pub trap : gate.config % 16 ≡ 0xF

create_idt_gate-LeadsTo :
    (handler : ℕ) → handler < u32 → LeadsTo (create_idt_gate handler 1 0) handler 0
unfolding create_idt_gate
create_idt_gate-LeadsTo handler lt = record {
  target = omega arith;
  segment = refl;
  present = refl;
  dpl = refl;
  trap = refl;
}

syscall_gate-LeadsTo :
    (handler : ℕ) → handler < u32 → LeadsTo (create_idt_gate handler 1 3) handler 3
unfolding create_idt_gate
syscall_gate-LeadsTo handler lt = record {
  target = omega arith;
  segment = refl;
  present = refl;
  dpl = refl;
  trap = refl;
}

-- Each gate of a list leads to the handler of its number.
abbrev pub AllLead : (handlers : ℕ → ℕ) → (handle_syscall : ℕ) → List (ℕ × IdtGate) → Type 0
AllLead handlers handle_syscall [] = Unit
AllLead handlers handle_syscall ((n, gate) ∷ gates) =
    LeadsTo gate (if n == 0xAE then handle_syscall else handlers n) (if n == 0xAE then 3 else 0)
    × AllLead handlers handle_syscall gates

module _ (handlers : ℕ → ℕ) (handle_syscall : ℕ) (low : (n : ℕ) → handlers n < u32)
    (low' : handle_syscall < u32) where
  gates_from-AllLead :
      (n count : ℕ) (gates : List (ℕ × IdtGate))
      → n + count ≤ 0xAE
      → AllLead handlers handle_syscall gates
      → AllLead handlers handle_syscall (gates_from handlers n count ++ gates)
  unfolding gates_from
  gates_from-AllLead n zero gates le rest = rest
  gates_from-AllLead n (suc count) gates le rest =
      let other : (n == 0xAE) ≡ false = ground arith in
      (
        rw other (create_idt_gate-LeadsTo (handlers n) (low n)),
        gates_from-AllLead (n + 1) count gates (omega arith) rest,
      )

  -- Each gate that `idt_init` writes leads to the handler of its number, by a trap in the kernel's
  -- segment, and only that of the system calls is open to the user.
  pub idt_init-AllLead : AllLead handlers handle_syscall (idt_init handlers handle_syscall)
  unfolding idt_init
  idt_init-AllLead =
      gates_from-AllLead 0 20 _ (omega arith)
        (gates_from-AllLead 32 16 _ (omega arith) (syscall_gate-LeadsTo handle_syscall low', tt))

-- `interrupt_handlers`, by the number of the interrupt; a handler is given by its address.
abbrev pub InterruptHandlers : Type 0
InterruptHandlers = ℕ → Option ℕ

-- The result, and the table.
unfoldable pub register_interrupt_handler :
    (interrupt handler : ℕ) → InterruptHandlers → ℕ × InterruptHandlers
register_interrupt_handler interrupt handler handlers =
    if ltb 255 interrupt || (interrupt == syscall_int_idx)
    then (1, handlers)
    else elim (handlers interrupt) [
      | none ↦ (0, λ n. if n == interrupt then some handler else handlers n)
      | some old ↦ (1, handlers)
    ]

-- The handler that is called; `none` where the interrupt is only logged.
unfoldable pub interrupt_handler : (idt_index : ℕ) → InterruptHandlers → Option ℕ
interrupt_handler idt_index handlers = handlers idt_index

-- The number is one of the table, not that of the system calls, and has no handler.
abbrev pub IsVacant : InterruptHandlers → ℕ → Type 0
IsVacant handlers interrupt = (interrupt ≤ 255) × (interrupt ≢ 0xAE) × (handlers interrupt ≡ none)

-- A handler is registered where the number is vacant: it is then the one that is called, and the
-- other interrupts call what they called. Elsewhere 1 is returned and nothing changes.
pub register_interrupt_handler_lem :
    (interrupt handler : ℕ) (handlers : InterruptHandlers)
    → (IsVacant handlers interrupt
        × ((register_interrupt_handler interrupt handler handlers).0 ≡ 0)
        × ((n : ℕ)
            → interrupt_handler n (register_interrupt_handler interrupt handler handlers).1
              ≡ (if n == interrupt then some handler else interrupt_handler n handlers)))
      ⊎ ((¬ IsVacant handlers interrupt)
          × (register_interrupt_handler interrupt handler handlers ≡ (1, handlers)))
unfolding register_interrupt_handler interrupt_handler
register_interrupt_handler_lem interrupt handler handlers =
    elim (Bool-cases (ltb 255 interrupt || (interrupt == 0xAE))) [
      | inl bad ↦ inr ((λ v. ground (arith, v.0, v.1, bad)), rw bad refl)
      | inr fine ↦ elim (Option-cases (handlers interrupt)) [
        | inl free ↦ inl (
          (ground (arith, fine), (λ e. ground (arith, e, fine)), free),
          rw (fine, free) refl,
          λ n. rw (fine, free) refl,
        )
        | inr (old, taken) ↦ inr ((λ v. cc (v.2, taken)), rw (fine, taken) refl)
      ]
    ]
