-- ===== src/Kmain/Safety.antt =====
-- kmain.c: interrupts stay off until all parts are set up, and then the first process starts.

use aenix.Base.{◌≡◌, ◌≢◌, ◌⊎◌, Bool}
use aenix.Kmain.{KmainCalls}
use aenix.Kmain.Setup.{KeepsInterrupts}

module _ {S : Type 0} (k : KmainCalls S) (on : S → Bool) (keeps : KeepsInterrupts k on) where
  -- The first process is made, enters the list of the scheduler and is scheduled, or the failure is
  -- reported.
  abbrev pub Starts : S → S → Type 0
  Starts s s' =
      let next = k.scheduler_next_pid s in
      let init = k.process_create "/bin/init" next.0 next.1 in
      ((init.0 ≢ 0) × (s' ≡ k.scheduler_schedule (k.scheduler_add_runnable_process init.0 init.1)))
      ⊎ ((init.0 ≡ 0) × (s' ≡ k.printf "ERROR: Could not create init!\n" init.1))
