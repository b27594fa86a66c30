-- ===== src/Io.antt =====
-- Writes to I/O ports (`outb`, io.s), as the list of port and value in the order of the writes.
use aenix.Base.{ℕ, List}

pub record Outb : Type 0 where
  pub port : ℕ
  pub value : ℕ

abbrev pub Outs : Type 0
Outs = List Outb

abbrev pub outb : ℕ → ℕ → Outb
outb port value = record { port = port; value = value }
