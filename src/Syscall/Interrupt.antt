-- ===== src/Syscall/Interrupt.antt =====
-- syscall.c and interrupt.h: the interrupt of the system calls, and the loop of `sys_wait`.
use aenix.Base.{ℕ, zero, suc, ◌+◌, Bool, true, false, Option, none, some, leb, if◌then◌else◌}
use aenix.Process.Data.{Ps}
use aenix.Process.Steps.{Calls}
use aenix.Syscall.{
  SyscallCalls, Sys, Outcome, returns, schedules, snapshots, out_of_table, minus_one, num_syscalls,
  next_stack_item, handlers, wait_round,
}

pub record CpuState : Type 0 where
  pub edi : ℕ
  pub esi : ℕ
  pub ebp : ℕ
  pub edx : ℕ
  pub ecx : ℕ
  pub ebx : ℕ
  pub eax : ℕ
  pub esp : ℕ

pub record StackState : Type 0 where
  pub eip : ℕ
  pub cs : ℕ
  pub eflags : ℕ
  pub user_esp : ℕ
  pub user_ss : ℕ

unfoldable pub update_user_mode_registers : Ps → CpuState → StackState → Ps
update_user_mode_registers ps cs es = record ps {
  user_mode = record {
    eax = cs.eax;
    ebx = cs.ebx;
    ecx = cs.ecx;
    edx = cs.edx;
    ebp = cs.ebp;
    esi = cs.esi;
    edi = cs.edi;
    eflags = es.eflags;
    eip = es.eip;
    esp = es.user_esp;
    ss = es.user_ss;
    cs = es.cs;
  };
}

abbrev pub with_eax : {S : Type 0} → Sys S → (eax : ℕ) → Sys S
with_eax s eax = record s { ps = record s.ps { user_mode = record s.ps.user_mode { eax = eax } } }

-- `ps->user_mode.eax = eax`, where the handler returns.
unfoldable pub store_result : {S : Type 0} → Outcome S → Outcome S
store_result (returns eax s) = returns eax (with_eax s eax)
store_result (schedules s) = schedules s
store_result (snapshots s) = snapshots s
store_result (out_of_table s) = out_of_table s

-- The registers of the user, but esp, which is that of the kernel's stack behind what the processor
-- has pushed and the four pushes before its own.
pub record UserRegisters : Type 0 where
  pub eax : ℕ
  pub ecx : ℕ
  pub edx : ℕ
  pub ebx : ℕ
  pub esp : ℕ
  pub ebp : ℕ
  pub esi : ℕ
  pub edi : ℕ

-- What `handle_syscall` pushes, in this order: eax, ecx, edx, ebx, esp, ebp, esi and edi, read as a
-- `cpu_state`, which begins with what was pushed last.
unfoldable pub pushed : UserRegisters → CpuState
pushed r = record {
  edi = r.edi;
  esi = r.esi;
  ebp = r.ebp;
  edx = r.esp;
  ecx = r.ebx;
  ebx = r.edx;
  eax = r.ecx;
  esp = r.eax;
}

module _ {S : Type 0} (k : Calls S) (x : SyscallCalls S) where
  -- The registers that the user goes on with are those in the state.
  unfoldable pub syscall_handle_interrupt : CpuState → StackState → Sys S → Outcome S
  syscall_handle_interrupt cpu exec s =
      let s' = record s { ps = update_user_mode_registers s.ps cpu exec } in
      let syscall = x.word_at exec.user_esp s.rest in
      if leb num_syscalls syscall
      then returns minus_one (with_eax s' minus_one)
      else store_result (handlers k x syscall (next_stack_item exec.user_esp) s')

  -- The interrupt with its stub.
  unfoldable pub handle_syscall : UserRegisters → StackState → Sys S → Outcome S
  handle_syscall r exec s = syscall_handle_interrupt (pushed r) exec s

  unfoldable pub has_returned : Outcome S → Bool
  has_returned (returns eax s) = true
  has_returned (schedules s) = false
  has_returned (snapshots s) = false
  has_returned (out_of_table s) = false

  -- The loop of `sys_wait`: `resumed` gives the state each time that the process is run, which is
  -- of the other processes' making. The result is the turn in which the loop returns.
  unfoldable pub wait_loop : (fuel : ℕ) → (resumed : ℕ → Sys S) → (turn : ℕ) → Option ℕ
  wait_loop zero resumed turn = none
  wait_loop (suc fuel) resumed turn =
      let rest = wait_loop fuel resumed (turn + 1) in
      if has_returned (wait_round k x (resumed turn)) then some turn else rest
