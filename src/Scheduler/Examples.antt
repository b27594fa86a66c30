-- ===== src/Scheduler/Examples.antt =====
-- Small lists of processes that the theorems on scheduler.c are applied to.
use aenix.Base.{
  ℕ, ◌-◌, ◌<◌, ◌≡◌, refl, true, false, [], ◌∷◌, none, some, arith, ◌==◌, if◌then◌else◌,
}
use aenix.Scheduler.Lists.{Procs, Heap, null, scheduler_remove_process}
use aenix.Scheduler.Chain.{Returns, Cells, cell, has, IsPsList, SameOutside}
use aenix.Scheduler.Queue.{scheduler_rotates}
use aenix.Scheduler.Remove.{any_matches, scheduler_remove_process-removes}
use aenix.Scheduler.Pids.{scheduler_next_pid_fresh}
use aenix.Process.Data.{Ps, process_init}
use aenix.Syscall.Interrupt.{CpuState, StackState}
use aenix.Scheduler.Switch.{
  scheduler_schedule, scheduler_schedule_on_intterupt, run_process_in_user_mode, interrupted,
  scheduler_schedule-resumes,
}
use aenix.Io.{outb}
use aenix.Ports.{pit_set_interval, pit_divider}
use aenix.Interrupt.{register_interrupt_handler}
use aenix.Scheduler.Init.{scheduler_init}
use aenix.Scheduler.Terminate.{scheduler_terminate_process-moves}
use aenix.Scheduler.{
  Scheduler, scheduler_get_and_rotate_runnable_process, scheduler_next_pid,
  scheduler_terminate_process,
}

-- The process at 500 has id 1, the one at 600 has id 2 and the first as its parent, and so on.
abbrev procs : Procs
procs ps = record { id = ps - 500; parent_id = ps - 501 }

abbrev heap : Heap
heap p =
    if p == 10
    then some (cell 20 501)
    else if p == 20
    then some (cell 30 502)
    else if p == 30
    then some (cell null 503)
    else if p == 40
    then some (cell null 504)
    else none

-- Three runnable processes and a terminated one.
abbrev three : Scheduler
three = record {
  runnable_pss = record { start = 10; end = 30 };
  zombie_pss = record { start = 40; end = 40 };
  heap = heap;
  ms = 0;
}

abbrev cells : Cells
cells = (10, 501) ∷ (20, 502) ∷ (30, 503) ∷ []

abbrev zombies : Cells
zombies = (40, 504) ∷ []

three-IsPsList : IsPsList heap (record { start = 10; end = 30 }) cells
three-IsPsList = record {
  start = refl;
  end = refl;
  chain = (ground arith, refl, refl, (ground arith, refl, refl, (ground arith, refl, refl, tt)));
}

zombies-IsPsList : IsPsList heap (record { start = 40; end = 40 }) zombies
zombies-IsPsList = record { start = refl; end = refl; chain = (ground arith, refl, refl, tt) }

zombies-apart : (b : ℕ) → has b zombies ≡ true → has b cells ≡ false
zombies-apart b i = let same : b ≡ 40 = ground arith in rw same refl

scheduler_rotates_example :
    Returns
      (λ (run, s').
        IsPsList s'.heap s'.runnable_pss ((20, 502) ∷ (30, 503) ∷ (10, 501) ∷ [])
        × (run ≡ 502)
        × (s'.zombie_pss ≡ three.zombie_pss)
        × SameOutside cells heap s'.heap)
      (scheduler_get_and_rotate_runnable_process three)
scheduler_rotates_example = scheduler_rotates three 10 501 three-IsPsList (ground arith)

scheduler_remove_process-removes_example :
    Returns
      (λ r.
        (r.removed ≡ some 502)
        × IsPsList r.heap r.pss ((10, 501) ∷ (30, 503) ∷ [])
        × (r.heap 20 ≡ none)
        × SameOutside cells heap r.heap)
      (scheduler_remove_process 4 procs 2 three.runnable_pss heap)
scheduler_remove_process-removes_example =
    scheduler_remove_process-removes 4 procs 2 ((10, 501) ∷ []) 20 502 ((30, 503) ∷ [])
      three-IsPsList refl refl (λ e. ground arith) (omega arith)

scheduler_next_pid_fresh_example :
    Returns
      (λ pid.
        (0 < pid) × (any_matches procs pid cells ≡ false) × (any_matches procs pid zombies ≡ false))
      (scheduler_next_pid 4 procs three)
scheduler_next_pid_fresh_example =
    scheduler_next_pid_fresh 4 procs three cells zombies three-IsPsList zombies-IsPsList
      (omega arith) (omega arith) (omega arith, (omega arith, (omega arith, tt))) (omega arith, tt)

scheduler_terminate_process-moves_example :
    Returns
      (λ s'.
        IsPsList s'.heap s'.runnable_pss ((10, 501) ∷ (30, 503) ∷ [])
        × IsPsList s'.heap s'.zombie_pss ((40, 504) ∷ (20, 502) ∷ [])
        × (s'.ms ≡ 0))
      (scheduler_terminate_process 4 20 procs three 502)
scheduler_terminate_process-moves_example =
    scheduler_terminate_process-moves 4 20 procs three ((10, 501) ∷ []) 20 502 ((30, 503) ∷ [])
      zombies three-IsPsList zombies-IsPsList zombies-apart refl (ground arith) (λ e. ground arith)
      (ground arith) refl refl (omega arith)

abbrev cpu : CpuState
cpu = record { edi = 1; esi = 2; ebp = 3; edx = 4; ecx = 5; ebx = 6; eax = 7; esp = 0xC010_0000 }

abbrev stack : StackState
stack = record { eip = 9; cs = 0x1B; eflags = 0x202; user_esp = 0xBFFF_FF00; user_ss = 0x23 }

abbrev interrupted_ps : Ps
interrupted_ps = record (process_init 4) {
  pdt = 0xC020_0000;
  kernel_stack_start_vaddr = 0xC030_0FFC;
}

scheduler_schedule-resumes_example :
    (scheduler_schedule (some (scheduler_schedule_on_intterupt interrupted_ps cpu stack))
      ≡ some (record {
        ss0 = 0x10;
        esp0 = 0xC030_0FFC;
        pdt = 0xC020_0000;
        pdt_paddr = interrupted_ps.pdt_paddr;
        mode = run_process_in_user_mode (interrupted cpu stack 0xBFFF_FF00 0x23);
      }))
    × ((scheduler_schedule_on_intterupt interrupted_ps cpu stack).user_mode
        ≡ interrupted cpu stack 0xBFFF_FF00 0x23)
scheduler_schedule-resumes_example = scheduler_schedule-resumes interrupted_ps cpu stack false refl

timer_starts : scheduler_init 0x4000 (λ n. none) ≡ (
  some (outb 0x40 0x52 ∷ outb 0x40 0x09 ∷ []),
  (0, λ n. if n == 0x20 then some 0x4000 else none),
)
unfolding scheduler_init pit_set_interval pit_divider register_interrupt_handler
timer_starts = refl
