-- ===== src/Syscall/Examples.antt =====
-- The theorems on syscall.c at a small machine, whose memory has at each address that address.
use aenix.Base.{
  ℕ, ◌≡◌, ◌<◌, ◌≤◌, ◌⊎◌, ◌↔◌, refl, List, [], ◌∷◌, Option, none, some, ◌==◌, length, replicate,
}
use aenix.Process.Data.{Ps, Fd, process_init}
use aenix.Process.Frames.{Counted, counted}
use aenix.Process.Machine.{Machine, machine, booted}
use aenix.Syscall.Descriptors.{IsOpen, IsFirstFree, Overruns, get_next_fd-first, sys_write-Overruns}
use aenix.Syscall.Open.{Opens, sys_open-Opens}
use aenix.Syscall.Keeps.{Mixes, handle_syscall-Mixes}
use aenix.Syscall.Interrupt.{UserRegisters, StackState, handle_syscall}
use aenix.Syscall.{SyscallCalls, Sys, get_next_fd, sys_write, sys_open}

abbrev calls : SyscallCalls (Counted Machine)
calls = record {
  word_at = λ v c. v;
  string_at = λ v c. [];
  vn_open = λ node c. (0, c);
  vn_read = λ node buf n c. (n, c);
  vfs_write = λ node str n c. (n, c);
  scheduler_next_pid = λ c. 2;
  scheduler_add_runnable_process = λ at ps c. c;
  scheduler_replace_process = λ old at new c. c;
  scheduler_terminate_process = λ ps c. c;
  scheduler_num_children = λ pid c. 1;
  scheduler_has_any_child_terminated = λ ps c. c.state.maps == 0;
}

abbrev ps : Ps
ps = record (process_init 1) {
  file_descriptors =
      some (record { pointer = 7; vnode = record { v_op = 1; v_data = 9 } }) ∷ replicate 63 none;
  code_paddrs = record { ele = 5; paddr = 100; count = 2 } ∷ [];
}

-- The processor with `maps` left in the machine.
abbrev sys : (maps : ℕ) → Sys (Counted Machine)
sys maps = record { ps = ps; rest = booted maps }

abbrev two_open : List (Option Fd)
two_open =
    some (record { pointer = 7; vnode = record { v_op = 1; v_data = 9 } })
    ∷ some (record { pointer = 8; vnode = record { v_op = 1; v_data = 9 } })
    ∷ none
    ∷ []

get_next_fd-first_example :
    ((get_next_fd two_open ≡ none) × ((j : ℕ) → j < length two_open → IsOpen two_open j))
    ⊎ ((i : ℕ) × (get_next_fd two_open ≡ some i) × IsFirstFree two_open i)
get_next_fd-first_example = get_next_fd-first two_open

sys_write-Overruns_example : Overruns (sys_write (counted machine) calls 70 (sys 3)) ↔ (64 ≤ 70)
sys_write-Overruns_example = sys_write-Overruns (counted machine) calls 70 (sys 3) refl

sys_open-Opens_example :
    Opens
      (λ v. 0)
      1
      (some (record { v_op = 1; v_data = 1 }))
      ps
      (sys_open (counted machine) calls 0 (sys 3))
sys_open-Opens_example = sys_open-Opens (counted machine) calls 0 (sys 3)

abbrev registers : UserRegisters
registers = record { edi = 1; esi = 2; ebp = 3; edx = 4; ecx = 5; ebx = 6; eax = 7; esp = 8 }

-- `user_esp` is 1, where the number of `sys_read` is.
abbrev exec : StackState
exec = record { eip = 9; cs = 0x1B; eflags = 0x202; user_esp = 1; user_ss = 0x23 }

handle_syscall-Mixes_example :
    Mixes
      (counted machine)
      calls
      ps
      registers
      exec
      (handle_syscall (counted machine) calls registers exec (sys 3))
handle_syscall-Mixes_example = handle_syscall-Mixes (counted machine) calls registers exec (sys 3)
