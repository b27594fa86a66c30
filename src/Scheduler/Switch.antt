-- ===== src/Scheduler/Switch.antt =====
-- scheduler.c: the registers of a process that is interrupted, and the process that is run next.
-- The assembly that loads the registers is left out.
use Prim.Native.Nat.{bit_or}
use aenix.Base.{ℕ, ◌≡◌, refl, Bool, true, false, Option, none, some, ◌==◌, if◌then◌else◌, add32}
use aenix.Process.Data.{Registers, Ps}
use aenix.Syscall.Interrupt.{CpuState, StackState}

abbrev pub segsel_kernel_cs : ℕ
segsel_kernel_cs = 0x08

abbrev pub segsel_kernel_ds : ℕ
segsel_kernel_ds = 0x10

-- SEGSEL_USER_SPACE_CS | 0x03
abbrev pub user_cs : ℕ
user_cs = bit_or 0x18 0x03

unfoldable pub scheduler_copy_common_registers : Registers → CpuState → StackState → Registers
scheduler_copy_common_registers r cpu stack = record r {
  eax = cpu.eax;
  ebx = cpu.ebx;
  ecx = cpu.ecx;
  edx = cpu.edx;
  ebp = cpu.ebp;
  esi = cpu.esi;
  edi = cpu.edi;
  eip = stack.eip;
  eflags = stack.eflags;
  cs = stack.cs;
}

unfoldable pub scheduler_update_user_registers : Ps → CpuState → StackState → Ps
unfolding scheduler_copy_common_registers
scheduler_update_user_registers ps cpu stack =
    let r = scheduler_copy_common_registers ps.user_mode cpu stack in
    let user_mode = record r { esp = stack.user_esp; ss = stack.user_ss } in
    record ps { user_mode = user_mode; current = user_mode }

unfoldable pub scheduler_update_kernel_registers : Ps → CpuState → StackState → Ps
unfolding scheduler_copy_common_registers
scheduler_update_kernel_registers ps cpu stack =
    let r = scheduler_copy_common_registers ps.current cpu stack in
    record ps { current = record r { esp = add32 cpu.esp 12; ss = segsel_kernel_ds } }

-- The first part of `scheduler_schedule_on_intterupt`; the scheduling follows.
unfoldable pub scheduler_schedule_on_intterupt : Ps → CpuState → StackState → Ps
unfolding scheduler_update_user_registers scheduler_update_kernel_registers
scheduler_schedule_on_intterupt ps cpu stack =
    if stack.cs == user_cs
    then scheduler_update_user_registers ps cpu stack
    else scheduler_update_kernel_registers ps cpu stack

pub data Mode : Type 0 where
  run_process_in_user_mode : Registers → Mode
  run_process_in_kernel_mode : Registers → Mode

-- What the processor gets: the stack for the kernel, in the tss, the directory, and the registers.
pub record Runs : Type 0 where
  pub ss0 : ℕ
  pub esp0 : ℕ
  pub pdt : ℕ
  pub pdt_paddr : ℕ
  pub mode : Mode

-- `ps` is the process at the head of the list, after the rotation; `none` where there is none.
unfoldable pub scheduler_schedule : Option Ps → Option Runs
scheduler_schedule none = none
scheduler_schedule (some ps) = some (record {
  ss0 = segsel_kernel_ds;
  esp0 = ps.kernel_stack_start_vaddr;
  pdt = ps.pdt;
  pdt_paddr = ps.pdt_paddr;
  mode =
      if ps.current.cs == segsel_kernel_cs
      then run_process_in_kernel_mode ps.current
      else run_process_in_user_mode ps.current;
})

-- The registers at an interrupt, in which `esp` and `ss` come from different places.
abbrev pub interrupted : CpuState → StackState → (esp ss : ℕ) → Registers
interrupted cpu stack esp ss = record {
  eax = cpu.eax;
  ebx = cpu.ebx;
  ecx = cpu.ecx;
  edx = cpu.edx;
  ebp = cpu.ebp;
  esi = cpu.esi;
  edi = cpu.edi;
  ss = ss;
  esp = esp;
  eflags = stack.eflags;
  cs = stack.cs;
  eip = stack.eip;
}

-- A process that was interrupted goes on in the mode that it was in, on its own stack for the
-- kernel and in its own directory, with all registers that it had at the interrupt: in user mode
-- with its stack there, in the kernel behind what the interrupt pushed, and then its registers of
-- user mode are as they were.
pub scheduler_schedule-resumes :
    (ps : Ps) (cpu : CpuState) (stack : StackState) (in_kernel : Bool)
    → stack.cs ≡ (if in_kernel then 0x08 else 0x1B)
    → (scheduler_schedule (some (scheduler_schedule_on_intterupt ps cpu stack))
        ≡ some (record {
          ss0 = 0x10;
          esp0 = ps.kernel_stack_start_vaddr;
          pdt = ps.pdt;
          pdt_paddr = ps.pdt_paddr;
          mode =
              if in_kernel
              then run_process_in_kernel_mode (interrupted cpu stack (add32 cpu.esp 12) 0x10)
              else run_process_in_user_mode (interrupted cpu stack stack.user_esp stack.user_ss);
        }))
      × ((scheduler_schedule_on_intterupt ps cpu stack).user_mode ≡ (
          if in_kernel then ps.user_mode else interrupted cpu stack stack.user_esp stack.user_ss))
unfolding scheduler_schedule scheduler_schedule_on_intterupt
scheduler_schedule-resumes ps cpu stack true e = rw e (refl, refl)
scheduler_schedule-resumes ps cpu stack false e = rw e (refl, refl)
