-- ===== src/Syscall/Keeps.antt =====
-- syscall.c: what a system call leaves as it was for the process that goes on.
use aenix.Base.{
  ℕ, zero, suc, ◌≡◌, refl, sym, ap, ◌∙◌, List, Option, none, some, leb, ◌==◌, Bool-cases, inl, inr,
  length, length-set, set,
}
use aenix.Vfs.{Vnode}
use aenix.Process.Data.{Ps, Fd}
use aenix.Process.Steps.{Calls}
use aenix.Syscall.{
  SyscallCalls, Sys, Outcome, returns, schedules, snapshots, out_of_table, read_from, write_to,
  execve_with, fork_with, continue_execve, sys_read, sys_write, sys_execve, sys_fork, sys_yield,
  sys_exit, sys_wait, wait_round, handlers,
}
use aenix.Syscall.Open.{entry_for, Opens, no_file, no_descriptor, not_opened, opens, sys_open-Opens}
use aenix.Syscall.Interrupt.{
  CpuState, StackState, UserRegisters, pushed, handle_syscall, update_user_mode_registers,
  store_result, syscall_handle_interrupt,
}

-- Where the call returns, the process is the one that made it, but for its descriptors, of which
-- there are as many.
abbrev pub Keeps : {S : Type 0} → Ps → Outcome S → Type 0
Keeps ps (returns eax s) =
    (s.ps ≡ record ps { file_descriptors = s.ps.file_descriptors })
    × (length s.ps.file_descriptors ≡ length ps.file_descriptors)
Keeps ps (schedules s) = Unit
Keeps ps (snapshots s) = Unit
Keeps ps (out_of_table s) = Unit

descriptors_only :
    (a b : Ps) (fds : List (Option Fd))
    → length fds ≡ length b.file_descriptors
    → a ≡ record b { file_descriptors = fds }
    → (a ≡ record b { file_descriptors = a.file_descriptors })
      × (length a.file_descriptors ≡ length b.file_descriptors)
descriptors_only a b fds len e =
    let same : a.file_descriptors ≡ fds = ap (λ (p : Ps). p.file_descriptors) e in
    (e ∙ ap (λ l. record b { file_descriptors = l }) (sym same), ap length same ∙ len)

module _ {S : Type 0} (k : Calls S) (x : SyscallCalls S) where
  read_from-Keeps :
      (entry : Option (Option Fd)) (buf count : ℕ) (s : Sys S)
      → Keeps s.ps (read_from k x entry buf count s)
  unfolding read_from
  read_from-Keeps none buf count s = tt
  read_from-Keeps (some none) buf count s = (refl, refl)
  read_from-Keeps (some (some fd)) buf count s = (refl, refl)

  write_to-Keeps :
      (entry : Option (Option Fd)) (str len : ℕ) (s : Sys S)
      → Keeps s.ps (write_to k x entry str len s)
  unfolding write_to
  write_to-Keeps none str len s = tt
  write_to-Keeps (some none) str len s = (refl, refl)
  write_to-Keeps (some (some fd)) str len s = (refl, refl)

  sys_read-Keeps : (stack : ℕ) (s : Sys S) → Keeps s.ps (sys_read k x stack s)
  unfolding sys_read
  sys_read-Keeps stack s = elim (Bool-cases (leb 64 (x.word_at stack s.rest))) [
    | inl e ↦ rw e (refl, refl)
    | inr e ↦ rw e (read_from-Keeps _ _ _ s)
  ]

  Opens-Keeps :
      {opened : Vnode → ℕ} {pointer : ℕ} {found : Option Vnode} {ps : Ps} {out : Outcome S}
      → Opens opened pointer found ps out
      → Keeps ps out
  Opens-Keeps {ps = ps} (no_file {s} e same) =
      descriptors_only s.ps ps ps.file_descriptors refl same
  Opens-Keeps {ps = ps} (no_descriptor {s} full same) =
      descriptors_only s.ps ps ps.file_descriptors refl same
  Opens-Keeps {ps = ps} (not_opened {s} vnode e error same) =
      descriptors_only s.ps ps ps.file_descriptors refl same
  Opens-Keeps {pointer = pointer} {ps = ps} (opens {s} fd vnode e fine is same) =
      let fds = set ps.file_descriptors fd (entry_for pointer vnode) in
      descriptors_only s.ps ps fds (length-set ps.file_descriptors fd _) same

  execve_with-Keeps : (ps : Ps) (r : Option (ℕ × Ps) × S) → Keeps ps (execve_with k x ps r)
  unfolding execve_with continue_execve
  execve_with-Keeps ps (none, s) = (refl, refl)
  execve_with-Keeps ps (some (at, new), s) = tt

  fork_with-Keeps :
      (ps : Ps) (pid : ℕ) (r : Option (ℕ × Ps) × S) → Keeps ps (fork_with k x ps pid r)
  unfolding fork_with
  fork_with-Keeps ps pid (none, s) = (refl, refl)
  fork_with-Keeps ps pid (some (at, new), s) = (refl, refl)

  wait_round-Keeps : (s : Sys S) → Keeps s.ps (wait_round k x s)
  unfolding wait_round
  wait_round-Keeps s = elim (Bool-cases (x.scheduler_has_any_child_terminated s.ps s.rest)) [
    | inl e ↦ rw e (refl, refl)
    | inr e ↦ rw e tt
  ]

  sys_wait-Keeps : (s : Sys S) → Keeps s.ps (sys_wait k x s)
  unfolding sys_wait
  sys_wait-Keeps s = elim (Bool-cases (x.scheduler_num_children s.ps.id s.rest == 0)) [
    | inl e ↦ rw e (refl, refl)
    | inr e ↦ rw e (wait_round-Keeps s)
  ]

  handlers-Keeps : (n stack : ℕ) (s : Sys S) → Keeps s.ps (handlers k x n stack s)
  unfolding handlers sys_write sys_execve sys_fork sys_yield sys_exit
  handlers-Keeps zero stack s = Opens-Keeps (sys_open-Opens k x stack s)
  handlers-Keeps (suc zero) stack s = sys_read-Keeps stack s
  handlers-Keeps (suc (suc zero)) stack s = write_to-Keeps _ _ _ s
  handlers-Keeps (suc (suc (suc zero))) stack s = execve_with-Keeps s.ps _
  handlers-Keeps (suc (suc (suc (suc zero)))) stack s = fork_with-Keeps s.ps _ _
  handlers-Keeps (suc (suc (suc (suc (suc zero))))) stack s = tt
  handlers-Keeps (suc (suc (suc (suc (suc (suc zero)))))) stack s = tt
  handlers-Keeps (suc (suc (suc (suc (suc (suc (suc n))))))) stack s = sys_wait-Keeps s

  -- The registers that the user goes on with are those of the interrupt, but for the result in
  -- eax; the process keeps its identity and directory, and the length of its table.
  abbrev pub Resumes : Ps → CpuState → StackState → Outcome S → Type 0
  Resumes ps cpu exec (returns eax s) =
      (s.ps.user_mode ≡ record {
        eax = eax;
        ebx = cpu.ebx;
        ecx = cpu.ecx;
        edx = cpu.edx;
        ebp = cpu.ebp;
        esi = cpu.esi;
        edi = cpu.edi;
        ss = exec.user_ss;
        esp = exec.user_esp;
        eflags = exec.eflags;
        cs = exec.cs;
        eip = exec.eip;
      })
      × (s.ps.id ≡ ps.id)
      × (s.ps.pdt ≡ ps.pdt)
      × (length s.ps.file_descriptors ≡ length ps.file_descriptors)
  Resumes ps cpu exec (schedules s) = Unit
  Resumes ps cpu exec (snapshots s) = Unit
  Resumes ps cpu exec (out_of_table s) = Unit

  store_result-Resumes :
      (ps : Ps) (cpu : CpuState) (exec : StackState) (out : Outcome S)
      → Keeps (update_user_mode_registers ps cpu exec) out
      → Resumes ps cpu exec (store_result out)
  unfolding store_result update_user_mode_registers
  store_result-Resumes ps cpu exec (returns eax s) (same, len) = (
    ap (λ (p : Ps). record p.user_mode { eax = eax }) same,
    ap (λ (p : Ps). p.id) same,
    ap (λ (p : Ps). p.pdt) same,
    len,
  )
  store_result-Resumes ps cpu exec (schedules s) keeps = tt
  store_result-Resumes ps cpu exec (snapshots s) keeps = tt
  store_result-Resumes ps cpu exec (out_of_table s) keeps = tt

  syscall_handle_interrupt-Resumes :
      (cpu : CpuState) (exec : StackState) (s : Sys S)
      → Resumes s.ps cpu exec (syscall_handle_interrupt k x cpu exec s)
  unfolding syscall_handle_interrupt update_user_mode_registers
  syscall_handle_interrupt-Resumes cpu exec s =
      elim (Bool-cases (leb 8 (x.word_at exec.user_esp s.rest))) [
        | inl bad ↦ rw bad (refl, refl, refl, refl)
        | inr good ↦ rw good (store_result-Resumes s.ps cpu exec _ (handlers-Keeps _ _ _))
      ]

  -- The user goes on with edi, esi, ebp and what the processor pushed as they were, with the result
  -- in eax, but with edx in ebx, ebx in ecx and the stack pointer of the kernel in edx.
  abbrev pub Mixes : Ps → UserRegisters → StackState → Outcome S → Type 0
  Mixes ps r exec (returns eax s) =
      (s.ps.user_mode ≡ record {
        eax = eax;
        ebx = r.edx;
        ecx = r.ebx;
        edx = r.esp;
        ebp = r.ebp;
        esi = r.esi;
        edi = r.edi;
        ss = exec.user_ss;
        esp = exec.user_esp;
        eflags = exec.eflags;
        cs = exec.cs;
        eip = exec.eip;
      })
      × (s.ps.id ≡ ps.id)
      × (s.ps.pdt ≡ ps.pdt)
      × (length s.ps.file_descriptors ≡ length ps.file_descriptors)
  Mixes ps r exec (schedules s) = Unit
  Mixes ps r exec (snapshots s) = Unit
  Mixes ps r exec (out_of_table s) = Unit

  Resumes-Mixes :
      (ps : Ps) (r : UserRegisters) (exec : StackState) (out : Outcome S)
      → Resumes ps (pushed r) exec out
      → Mixes ps r exec out
  unfolding pushed
  Resumes-Mixes ps r exec (returns eax s) resumes = resumes
  Resumes-Mixes ps r exec (schedules s) resumes = tt
  Resumes-Mixes ps r exec (snapshots s) resumes = tt
  Resumes-Mixes ps r exec (out_of_table s) resumes = tt

  -- After a system call that returns to the user, eax has the result, and edi, esi, ebp, the stack
  -- pointer, the flags, the segments and the place in the program are as they were; but ebx has what
  -- was in edx, ecx what was in ebx, and edx the stack pointer of the kernel. The id and the directory
  -- of the process, and the length of its table, are as they were.
  pub handle_syscall-Mixes :
      (r : UserRegisters) (exec : StackState) (s : Sys S)
      → Mixes s.ps r exec (handle_syscall k x r exec s)
  unfolding handle_syscall
  handle_syscall-Mixes r exec s =
      Resumes-Mixes s.ps r exec _ (syscall_handle_interrupt-Resumes (pushed r) exec s)
