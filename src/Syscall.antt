-- ===== src/Syscall.antt =====
-- syscall.c: the handlers of the system calls. The current process is part of the state; the rest
-- of the kernel is reached through the calls of process.c and those below. An int is given by its
-- 32 bits. What is logged is left out, and so is whether interrupts are enabled.
pub mod Interrupt
pub mod Descriptors
pub mod Open
pub mod Keeps
pub mod Fork
mod Examples
use aenix.Base.{
  ℕ, zero, suc, ◌+◌, Bool, true, false, List, [], ◌∷◌, Option, none, some, ltb, leb, ◌==◌,
  if◌then◌else◌, get_or, get_elem?, set, add32, not, length,
}
use aenix.CString.{Str}
use aenix.Vfs.{Vnode}
use aenix.Process.Data.{Registers, Fd, Ps, process_max_num_fd, sizeof_vnode}
use aenix.Process.Steps.{Calls}
use aenix.Process.{process_create_replacement, process_clone}

-- `word_at` and `string_at` read the memory of the user.
pub record SyscallCalls (S : Type 0) : Type 0 where
  pub word_at : (vaddr : ℕ) → S → ℕ
  pub string_at : (vaddr : ℕ) → S → Str
  pub vn_open : Vnode → S → ℕ × S
  pub vn_read : Vnode → (buf count : ℕ) → S → ℕ × S
  pub vfs_write : Vnode → (str len : ℕ) → S → ℕ × S
  pub scheduler_next_pid : S → ℕ
  pub scheduler_add_runnable_process : (at : ℕ) → Ps → S → S
  pub scheduler_replace_process : Ps → (at : ℕ) → Ps → S → S
  pub scheduler_terminate_process : Ps → S → S
  pub scheduler_num_children : (pid : ℕ) → S → ℕ
  pub scheduler_has_any_child_terminated : Ps → S → Bool

pub record Sys (S : Type 0) : Type 0 where
  pub ps : Ps
  pub rest : S

-- What a handler does: it returns to the user, it gives the processor to the scheduler for good,
-- or until the process is run again as a process of the kernel, or it reads a descriptor behind
-- the end of the table.
pub data Outcome (S : Type 0) : Type 0 where
  returns : (eax : ℕ) → Sys S → Outcome S
  schedules : Sys S → Outcome S
  snapshots : Sys S → Outcome S
  out_of_table : Sys S → Outcome S

abbrev pub num_syscalls : ℕ
num_syscalls = 8

-- -1
abbrev pub minus_one : ℕ
minus_one = 0xFFFF_FFFF

abbrev pub next_stack_item : ℕ → ℕ
next_stack_item stack = add32 stack 4

-- The first free descriptor from `i` on; `none` for -1.
unfoldable pub next_fd_loop : List (Option Fd) → (i : ℕ) → Option ℕ
next_fd_loop [] i = none
next_fd_loop (none ∷ fds) i = some i
next_fd_loop (some fd ∷ fds) i = next_fd_loop fds (i + 1)

unfoldable pub get_next_fd : List (Option Fd) → Option ℕ
get_next_fd fds = next_fd_loop fds 0

-- The child, ready to run: it returns 0 from the call.
unfoldable pub forked : Ps → Ps
forked ps =
    let user_mode = record ps.user_mode { eax = 0 } in
    record ps { user_mode = user_mode; current = user_mode }

module _ {S : Type 0} (k : Calls S) (x : SyscallCalls S) where
  -- What the table has for a descriptor: `none` is behind its end.
  read_from : Option (Option Fd) → (buf count : ℕ) → Sys S → Outcome S
  read_from none buf count s = out_of_table s
  read_from (some none) buf count s = returns minus_one s
  read_from (some (some fd)) buf count s =
      let (n, s') = x.vn_read fd.vnode buf count s.rest in returns n (record s { rest = s' })

  unfoldable pub sys_read : (stack : ℕ) → Sys S → Outcome S
  unfolding read_from
  sys_read stack s =
      let fd = x.word_at stack s.rest in
      let buf = x.word_at (next_stack_item stack) s.rest in
      let count = x.word_at (next_stack_item (next_stack_item stack)) s.rest in
      if leb process_max_num_fd fd
      then returns minus_one s
      else read_from (get_elem? s.ps.file_descriptors fd) buf count s

  write_to : Option (Option Fd) → (str len : ℕ) → Sys S → Outcome S
  write_to none str len s = out_of_table s
  write_to (some none) str len s = returns minus_one s
  write_to (some (some fd)) str len s =
      let (n, s') = x.vfs_write fd.vnode str len s.rest in returns n (record s { rest = s' })

  unfoldable pub sys_write : (stack : ℕ) → Sys S → Outcome S
  unfolding write_to
  sys_write stack s =
      let fd = x.word_at stack s.rest in
      let str = x.word_at (next_stack_item stack) s.rest in
      let len = x.word_at (next_stack_item (next_stack_item stack)) s.rest in
      write_to (get_elem? s.ps.file_descriptors fd) str len s

  -- The vnode has been found, and `kmalloc` gave `pointer` for it: a NULL there leaves the
  -- descriptor free.
  open_at : (pointer : ℕ) → Vnode → Option ℕ → Sys S → Outcome S
  open_at pointer vnode none s = returns minus_one (record s { rest = k.kfree pointer s.rest })
  open_at pointer vnode (some fd) s =
      let (error, s') = x.vn_open vnode s.rest in
      let entry =
        if pointer == 0 then none else some (record { pointer = pointer; vnode = vnode }) in
      if error == 0
      then returns fd (record {
        ps = record s.ps { file_descriptors = set s.ps.file_descriptors fd entry };
        rest = s';
      })
      else returns minus_one (record s { rest = k.kfree pointer s' })

  open_found : (pointer : ℕ) → Option Vnode → Sys S → Outcome S
  open_found pointer none s = returns minus_one s
  open_found pointer (some vnode) s = open_at pointer vnode (get_next_fd s.ps.file_descriptors) s

  unfoldable pub sys_open : (stack : ℕ) → Sys S → Outcome S
  unfolding open_found open_at
  sys_open stack s =
      let path = x.string_at (x.word_at stack s.rest) s.rest in
      let (pointer, s1) = k.kmalloc sizeof_vnode s.rest in
      let (found, s2) = k.vfs_lookup path s1 in open_found pointer found (record s { rest = s2 })

  unfoldable pub continue_execve : (at : ℕ) → (new : Ps) → Sys S → Outcome S
  continue_execve at new s =
      schedules (record s { rest = x.scheduler_replace_process s.ps at new s.rest })

  execve_with : Ps → Option (ℕ × Ps) × S → Outcome S
  execve_with ps (none, s) = returns minus_one (record { ps = ps; rest = s })
  execve_with ps (some (at, new), s) = continue_execve at new (record { ps = ps; rest = s })

  unfoldable pub sys_execve : (stack : ℕ) → Sys S → Outcome S
  unfolding execve_with
  sys_execve stack s =
      let path = x.string_at (x.word_at stack s.rest) s.rest in
      execve_with s.ps (process_create_replacement k s.ps path s.rest)

  fork_with : Ps → (new_pid : ℕ) → Option (ℕ × Ps) × S → Outcome S
  fork_with ps new_pid (none, s) = returns minus_one (record { ps = ps; rest = s })
  fork_with ps new_pid (some (at, new), s) =
      returns new_pid
        (record { ps = ps; rest = x.scheduler_add_runnable_process at (forked new) s })

  unfoldable pub sys_fork : Sys S → Outcome S
  unfolding fork_with
  sys_fork s =
      let new_pid = x.scheduler_next_pid s.rest in
      fork_with s.ps new_pid (process_clone k s.ps new_pid s.rest)

  unfoldable pub sys_yield : Sys S → Outcome S
  sys_yield s =
      let user_mode = record s.ps.user_mode { eax = 0 } in
      schedules (record s { ps = record s.ps { user_mode = user_mode; current = user_mode } })

  unfoldable pub sys_exit : Sys S → Outcome S
  sys_exit s = schedules (record s { rest = x.scheduler_terminate_process s.ps s.rest })

  -- The body of the loop, which is run again when the process is.
  unfoldable pub wait_round : Sys S → Outcome S
  wait_round s =
      if x.scheduler_has_any_child_terminated s.ps s.rest then returns 0 s else snapshots s

  unfoldable pub sys_wait : Sys S → Outcome S
  sys_wait s =
      if x.scheduler_num_children s.ps.id s.rest == 0 then returns minus_one s else wait_round s

  -- The table `handlers`, at a number below its length.
  unfoldable pub handlers : (syscall stack : ℕ) → Sys S → Outcome S
  handlers zero stack s = sys_open stack s
  handlers (suc zero) stack s = sys_read stack s
  handlers (suc (suc zero)) stack s = sys_write stack s
  handlers (suc (suc (suc zero))) stack s = sys_execve stack s
  handlers (suc (suc (suc (suc zero)))) stack s = sys_fork s
  handlers (suc (suc (suc (suc (suc zero))))) stack s = sys_yield s
  handlers (suc (suc (suc (suc (suc (suc zero)))))) stack s = sys_exit s
  handlers (suc (suc (suc (suc (suc (suc (suc n))))))) stack s = sys_wait s
