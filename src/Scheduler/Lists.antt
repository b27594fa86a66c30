-- ===== src/Scheduler/Lists.antt =====
-- scheduler.c: adding to a list of processes, removing from it, and walking along it.
use aenix.Base.{
  ℕ, zero, suc, Bool, true, false, not, ◌&&◌, Option, none, some, leb, ◌==◌, if◌then◌else◌, add32,
}

abbrev pub null : ℕ
null = 0

pub record PsListEle : Type 0 where
  pub next : ℕ
  pub ps : ℕ

pub record PsList : Type 0 where
  pub start : ℕ
  pub end : ℕ

abbrev pub Heap : Type 0
Heap = ℕ → Option PsListEle

-- The fields of `ps_t` that the lists are searched by.
pub record Ps : Type 0 where
  pub id : ℕ
  pub parent_id : ℕ

abbrev pub Procs : Type 0
Procs = ℕ → Ps

-- `fault` is an access through NULL or to a cell that is not allocated.
pub data Run {ℓ} (A : Type ℓ) : Type ℓ where
  ok : A → Run A
  fault : Run A
  out_of_fuel : Run A

abbrev pub and_then {ℓ κ} : {A : Type ℓ} {B : Type κ} → Run A → (A → Run B) → Run B
and_then (ok a) k = k a
and_then fault k = fault
and_then out_of_fuel k = out_of_fuel

abbrev pub write : Heap → ℕ → Option PsListEle → Heap
write h p c a = if a == p then c else h a

abbrev pub found : Option PsListEle → Run PsListEle
found none = fault
found (some e) = ok e

unfoldable pub load : Heap → ℕ → Run PsListEle
load h p = if p == null then fault else found (h p)

-- `p->next = q`
unfoldable pub set_next : Heap → ℕ → ℕ → Run Heap
set_next h p q = and_then (load h p) λ e. ok (write h p (some (record e { next = q })))

pub record Added : Type 0 where
  pub done : Bool
  pub pss : PsList
  pub heap : Heap

-- `ele` is what `kmalloc` returns.
unfoldable pub scheduler_add_process : (ele : ℕ) → PsList → Heap → ℕ → Run Added
scheduler_add_process ele pss h ps =
    if ele == null
    then ok (record { done = false; pss = pss; heap = h })
    else let h' = write h ele (some (record { next = null; ps = ps })) in
      if pss.start == null
      then ok (record { done = true; pss = record { start = ele; end = ele }; heap = h' })
      else and_then (set_next h' pss.end ele)
          λ h''. ok (record { done = true; pss = record pss { end = ele }; heap = h'' })

-- `removed` is the process of the cell that was unlinked.
pub record Removed : Type 0 where
  pub removed : Option ℕ
  pub pss : PsList
  pub heap : Heap

-- `prev->next = next`, or the start of the list.
unfoldable pub bypass : PsList → Heap → (prev next : ℕ) → Run (PsList × Heap)
bypass pss h prev next =
    if prev == null
    then ok (record pss { start = next }, h)
    else and_then (set_next h prev next) λ h'. ok (pss, h')

-- The end of the list, where the removed cell was the last.
unfoldable pub trim : PsList → Heap → (prev current : ℕ) → Run (PsList × Heap)
trim pss h prev current =
    if pss.end == current
    then (and_then (set_next h prev null) λ h'. ok (record pss { end = prev }, h'))
    else ok (pss, h)

-- The cell is freed. The caller deletes the process, where it `should_delete`.
unfoldable pub unlink : PsList → Heap → (prev current : ℕ) → PsListEle → Run Removed
unlink pss h prev current e = and_then (bypass pss h prev e.next) λ (pss', h').
    and_then (trim pss' h' prev current) λ (pss'', h'').
      ok (record { removed = some e.ps; pss = pss''; heap = write h'' current none })

unfoldable pub has_id : Procs → ℕ → PsListEle → Bool
has_id procs pid e = not (e.ps == null) && ((procs e.ps).id == pid)

unfoldable pub remove_loop :
    ℕ → Procs → (pid : ℕ) → PsList → Heap → (prev current : ℕ) → Run Removed
remove_loop zero procs pid pss h prev current = out_of_fuel
remove_loop (suc fuel) procs pid pss h prev current =
    let rest = λ (next : ℕ). remove_loop fuel procs pid pss h current next in
    if current == null
    then ok (record { removed = none; pss = pss; heap = h })
    else and_then (load h current)
        λ e. if has_id procs pid e then unlink pss h prev current e else rest e.next

unfoldable pub scheduler_remove_process :
    (fuel : ℕ) → Procs → (pid : ℕ) → PsList → Heap → Run Removed
scheduler_remove_process fuel procs pid pss h = remove_loop fuel procs pid pss h null pss.start

-- The loops that visit every cell, with a value that changes by `visit`.
unfoldable pub walk {ℓ} : {A : Type ℓ} → ℕ → (ℕ → A → A) → Heap → ℕ → A → Run A
walk zero visit h p a = out_of_fuel
walk (suc fuel) visit h p a =
    if p == null then ok a else and_then (load h p) λ e. walk fuel visit h e.next (visit e.ps a)

abbrev pub max_id : Procs → ℕ → ℕ → ℕ
max_id procs ps max = if not (ps == null) && leb max (procs ps).id then (procs ps).id else max

unfoldable pub max_id_in_ps_list : (fuel : ℕ) → Procs → PsList → Heap → Run ℕ
max_id_in_ps_list fuel procs pss h = walk fuel (max_id procs) h pss.start 0

abbrev pub count_child : Procs → ℕ → ℕ → ℕ → ℕ
count_child procs pid ps num = if (procs ps).parent_id == pid then add32 num 1 else num

unfoldable pub scheduler_count_children_in_list :
    (fuel : ℕ) → Procs → (pid : ℕ) → PsList → Heap → Run ℕ
scheduler_count_children_in_list fuel procs pid pss h =
    walk fuel (count_child procs pid) h pss.start 0

unfoldable pub terminated_loop : ℕ → Procs → (pid : ℕ) → Heap → ℕ → Run Bool
terminated_loop zero procs pid h e = out_of_fuel
terminated_loop (suc fuel) procs pid h e =
    if e == null
    then ok false
    else and_then (load h e) λ c.
      let rest = terminated_loop fuel procs pid h c.next in
      if (procs c.ps).parent_id == pid then ok true else rest
