-- ===== src/Interrupt/Examples.antt =====
-- A table of interrupt handlers with one entry.
use aenix.Base.{◌≡◌, refl, some, none, arith, ◌==◌, if◌then◌else◌}
use aenix.Interrupt.{
  InterruptHandlers, AllLead, idt_init, idt_init-AllLead, register_interrupt_handler,
}

-- The timer has a handler.
abbrev table : InterruptHandlers
table n = if n == 0x20 then some 0xC010_0000 else none

refuses_second : register_interrupt_handler 0x20 0xC010_0040 table ≡ (1, table)
unfolding register_interrupt_handler
refuses_second = refl

-- Every handler at the same address.
idt_init-AllLead_example :
    AllLead (λ n. 0xC010_0000) 0xC010_1000 (idt_init (λ n. 0xC010_0000) 0xC010_1000)
idt_init-AllLead_example =
    idt_init-AllLead (λ n. 0xC010_0000) 0xC010_1000 (λ n. omega arith) (omega arith)
