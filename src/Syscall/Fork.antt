-- ===== src/Syscall/Fork.antt =====
-- syscall.c: what `sys_fork` gives to the scheduler.
use aenix.Base.{ℕ, ◌≡◌, ◌≢◌}
use aenix.Process.Data.{Ps}
use aenix.Process.Steps.{Calls}
use aenix.Process.Ends.{Ends}
use aenix.Process.Frames.{Counted, Net, none_at, owned}
use aenix.Process.CopyTrace.{cloned_log}
use aenix.Process.Clone.{Unbalanced}
use aenix.Syscall.{SyscallCalls, Sys, Outcome, returns, minus_one}

-- The child goes on as the parent does, but with 0 as the result of the call.
pub record IsForked (parent : Ps) (pid : ℕ) (ps : Ps) : Type 0 where
  pub has_id : ps.id ≡ pid
  pub parent_id : ps.parent_id ≡ parent.id
  pub user_mode : ps.user_mode ≡ record parent.user_mode { eax = 0 }
  pub current : ps.current ≡ ps.user_mode

module _ {S : Type 0} (k : Calls S) (x : SyscallCalls (Counted S)) where
  -- The parent returns the new pid, and the scheduler has the child, or the parent returns -1.
  pub data Forks (s : Sys (Counted S)) : Outcome (Counted S) → Type 0 where
    forks :
        (at : ℕ) (child : Ps) (c : Counted S)
        → at ≢ 0
        → IsForked s.ps (x.scheduler_next_pid s.rest) child
        → Net s.rest c (owned child) none_at
        → c.log ≡ cloned_log s.ps s.rest.log
        → Forks s (
            returns
              (x.scheduler_next_pid s.rest)
              (record { ps = s.ps; rest = x.scheduler_add_runnable_process at child c }))
    fails :
        (c : Counted S)
        → Unbalanced k s.rest c
        → Forks s (returns minus_one (record { ps = s.ps; rest = c }))
