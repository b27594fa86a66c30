-- ===== src/Scheduler.antt =====
-- scheduler.c: the runnable and the terminated processes. The lists of processes are cells on a
-- heap that the ends of a list point into; a process is its pointer, and `Procs` gives what the
-- fields that are read here hold. What `kmalloc` returns is an argument, and so is the fuel of the
-- loops, for which one round more than the list has cells is enough.
pub mod Lists
pub mod Chain
pub mod Queue
pub mod Unlink
pub mod Remove
pub mod Pids
pub mod Terminate
pub mod Switch
mod Init
mod Examples
use aenix.Base.{ℕ, ◌+◌, ◌*◌, Bool, true, false, Option, none, some, leb, ◌==◌, if◌then◌else◌, add32}
use aenix.Math.{maxu}
use aenix.Io.{Outs}
use aenix.Pic.{pic_acknowledge}
use Lists.{
  Heap, PsList, Run, ok, fault, and_then, found, null, load, set_next, scheduler_add_process,
  scheduler_remove_process, max_id_in_ps_list, scheduler_count_children_in_list, terminated_loop,
  Procs,
}

pub record Scheduler : Type 0 where
  pub runnable_pss : PsList
  pub zombie_pss : PsList
  pub heap : Heap
  pub ms : ℕ

pub scheduler_next_pid : (fuel : ℕ) → Procs → Scheduler → Run ℕ
scheduler_next_pid fuel procs s =
    and_then (max_id_in_ps_list fuel procs s.runnable_pss s.heap) λ runnable.
      and_then (max_id_in_ps_list fuel procs s.zombie_pss s.heap)
        λ zombie. ok (add32 (maxu runnable zombie) 1)

-- The pointer of the process at the head of the list, or NULL.
pub scheduler_get_current_process : Scheduler → Run ℕ
scheduler_get_current_process s =
    if s.runnable_pss.start == null
    then ok null
    else and_then (load s.heap s.runnable_pss.start) λ e. ok e.ps

pub scheduler_add_runnable_process : (ele : ℕ) → Scheduler → ℕ → Run (Bool × Scheduler)
scheduler_add_runnable_process ele s ps =
    and_then (scheduler_add_process ele s.runnable_pss s.heap ps)
      λ a. ok (a.done, record s { runnable_pss = a.pss; heap = a.heap })

-- The caller's `process_delete_resources(ps)` stands between the two changes of the lists.
pub scheduler_terminate_process : (fuel ele : ℕ) → Procs → Scheduler → ℕ → Run Scheduler
scheduler_terminate_process fuel ele procs s ps =
    and_then (scheduler_remove_process fuel procs (procs ps).id s.runnable_pss s.heap) λ r.
      and_then (scheduler_add_process ele s.zombie_pss r.heap ps)
        λ a. ok (record s { runnable_pss = r.pss; zombie_pss = a.pss; heap = a.heap })

pub scheduler_has_any_child_terminated : (fuel : ℕ) → Procs → Scheduler → (parent : ℕ) → Run Bool
scheduler_has_any_child_terminated fuel procs s parent =
    terminated_loop fuel procs (procs parent).id s.heap s.zombie_pss.start

pub scheduler_num_children : (fuel : ℕ) → Procs → Scheduler → (pid : ℕ) → Run ℕ
scheduler_num_children fuel procs s pid =
    and_then (scheduler_count_children_in_list fuel procs pid s.zombie_pss s.heap) λ zombies.
      and_then (scheduler_count_children_in_list fuel procs pid s.runnable_pss s.heap)
        λ running. ok (add32 zombies running)

-- The result is the state with the process that was deleted, or `none` for -1.
pub data Replaced : Type 0 where
  not_found : Replaced
  replaced : (added : Bool) (deleted : ℕ) → Scheduler → Replaced

replace_removed : (ele : ℕ) → Scheduler → Lists.Removed → ℕ → Option ℕ → Run Replaced
replace_removed ele s r new none = ok not_found
replace_removed ele s r new (some old) =
    and_then (scheduler_add_process ele r.pss r.heap new)
      λ a. ok (replaced a.done old (record s { runnable_pss = a.pss; heap = a.heap }))

pub scheduler_replace_process : (fuel ele : ℕ) → Procs → Scheduler → (old new : ℕ) → Run Replaced
unfolding replace_removed
scheduler_replace_process fuel ele procs s old new =
    and_then (scheduler_remove_process fuel procs (procs old).id s.runnable_pss s.heap)
      λ r. replace_removed ele s r new r.removed

-- The head of the list, which is not the only cell, goes to the end.
rotate : Scheduler → (start next : ℕ) → Run Scheduler
rotate s start next = and_then (set_next s.heap start null) λ h.
    and_then (set_next h s.runnable_pss.end start)
      λ h'. ok (record s { runnable_pss = record { start = next; end = start }; heap = h' })

-- The pointer of the process to run next, or NULL.
pub scheduler_get_and_rotate_runnable_process : Scheduler → Run (ℕ × Scheduler)
unfolding rotate
scheduler_get_and_rotate_runnable_process s =
    if s.runnable_pss.start == null
    then ok (null, s)
    else and_then (load s.heap s.runnable_pss.start) λ e.
      if e.ps == null
      then ok (null, s)
      else and_then (if e.next == null then ok s else rotate s s.runnable_pss.start e.next)
          λ s'. and_then (load s'.heap s'.runnable_pss.start) λ e'. ok (e'.ps, s')

abbrev pub scheduler_pit_interval : ℕ
scheduler_pit_interval = 2

abbrev pub scheduler_time_slice : ℕ
scheduler_time_slice = 5 * scheduler_pit_interval

-- True where the time slice is over, and `scheduler_schedule_on_intterupt` follows.
pub scheduler_handle_pit_interrupt : Scheduler → Bool × Scheduler
scheduler_handle_pit_interrupt s =
    let ms = add32 s.ms scheduler_pit_interval in
    if leb scheduler_time_slice ms
    then (true, record s { ms = 0 })
    else (false, record s { ms = ms })
