-- ===== src/Process/Data.antt =====
-- process.h and process.c: the processes. A list of page frames is its elements in order, each
-- with its own address `ele`; the `end` pointer is that of the last one. A file descriptor holds
-- a pointer to a vnode and the vnode that it points to.
use Prim.Native.Nat.{bit_or}
use aenix.Base.{ℕ, ◌-◌, List, [], Option, none, replicate}
use aenix.Vfs.{Vnode}
use aenix.Pfa.{four_kb}
use aenix.Paging.Entry.{kernel_start_vaddr}

pub record Registers : Type 0 where
  pub eax : ℕ
  pub ebx : ℕ
  pub ecx : ℕ
  pub edx : ℕ
  pub ebp : ℕ
  pub esi : ℕ
  pub edi : ℕ
  pub ss : ℕ
  pub esp : ℕ
  pub eflags : ℕ
  pub cs : ℕ
  pub eip : ℕ

abbrev pub no_registers : Registers
no_registers = record {
  eax = 0;
  ebx = 0;
  ecx = 0;
  edx = 0;
  ebp = 0;
  esi = 0;
  edi = 0;
  ss = 0;
  esp = 0;
  eflags = 0;
  cs = 0;
  eip = 0;
}

pub record PaddrEle : Type 0 where
  pub ele : ℕ
  pub paddr : ℕ
  pub count : ℕ

pub record Fd : Type 0 where
  pub pointer : ℕ
  pub vnode : Vnode

pub record Ps : Type 0 where
  pub id : ℕ
  pub parent_id : ℕ
  pub pdt : ℕ
  pub pdt_paddr : ℕ
  pub current : Registers
  pub user_mode : Registers
  pub kernel_stack_start_vaddr : ℕ
  pub stack_start_vaddr : ℕ
  pub code_start_vaddr : ℕ
  pub file_descriptors : List (Option Fd)
  pub code_paddrs : List PaddrEle
  pub stack_paddrs : List PaddrEle
  pub kernel_stack_paddrs : List PaddrEle

abbrev pub process_max_num_fd : ℕ
process_max_num_fd = 64

abbrev pub proc_initial_stack_size : ℕ
proc_initial_stack_size = 1

abbrev pub proc_initial_stack_vaddr : ℕ
proc_initial_stack_vaddr = kernel_start_vaddr - four_kb

abbrev pub proc_initial_esp : ℕ
proc_initial_esp = kernel_start_vaddr - 4

abbrev pub kernel_stack_size : ℕ
kernel_stack_size = four_kb

-- The sizes of the structures in bytes.
abbrev pub sizeof_paddr_ele : ℕ
sizeof_paddr_ele = 12

abbrev pub sizeof_vnode : ℕ
sizeof_vnode = 8

abbrev pub sizeof_ps : ℕ
sizeof_ps = 404

unfoldable pub process_init : (id : ℕ) → Ps
process_init id = record {
  id = id;
  parent_id = 0;
  pdt = 0;
  pdt_paddr = 0;
  current = no_registers;
  user_mode = record no_registers { eflags = 0x202; ss = bit_or 0x20 3; cs = bit_or 0x18 3 };
  kernel_stack_start_vaddr = 0;
  stack_start_vaddr = proc_initial_stack_vaddr;
  code_start_vaddr = 0;
  file_descriptors = replicate process_max_num_fd none;
  code_paddrs = [];
  stack_paddrs = [];
  kernel_stack_paddrs = [];
}
