-- ===== src/Gdt/Examples.antt =====
-- The table for a tss at an address of the kernel.
