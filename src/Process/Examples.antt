-- ===== src/Process/Examples.antt =====
-- The theorems on process.c at a small machine.
use aenix.Base.{ℕ, ◌+◌, ◌*◌, ◌≡◌, refl, [], ◌∷◌, Option, none, some, replicate}
use aenix.Math.{div_ceil}
use aenix.Process.Data.{Ps, PaddrEle, process_init}
use aenix.Process.Machine.{Machine, machine, booted}
use aenix.Process.Steps.{handle, ◌>>=◌, nonzero, unless, run}
use aenix.Process.Ends.{Ends}
use aenix.Process.Frames.{copies, Counted, counted, at, owned}
use aenix.Process.Load.{
  process_load_pdt, process_load_code, process_load_stack, process_load_kernel_stack,
  delete_paddr_list, process_delete_resources,
}
use aenix.Process.Copy.{copy_frames, map_frames, process_copy_paddr_list}
use aenix.Process.Delete.{freed_with, process_delete_resources-Frees}
use aenix.Process.Lists.{process_copy_paddr_list-twice}
use aenix.Process.{process_create, or_delete}

abbrev owned_frames : Option (ℕ × Ps) × Counted Machine → Option (ℕ × ℕ)
owned_frames (none, c) = none
owned_frames (some (a, ps), c) = some (owned ps 1, c.taken 1)

abbrev c0 : Counted Machine
c0 = booted 3

-- Where both mappings succeed a process is made, and its two frames of code are taken.
process_create_runs : owned_frames (process_create (counted machine) [] 1 c0) ≡ some (2, 2)
unfolding process_create or_delete process_init process_load_pdt process_load_code
    process_load_stack process_load_kernel_stack handle ◌>>=◌ nonzero unless run div_ceil
process_create_runs = refl

abbrev parent : Ps
parent = record (process_init 1) {
  file_descriptors =
      some (record { pointer = 7; vnode = record { v_op = 1; v_data = 9 } }) ∷ replicate 63 none;
  code_paddrs = record { ele = 5; paddr = 100; count = 2 } ∷ [];
  stack_paddrs = record { ele = 6; paddr = 102; count = 1 } ∷ [];
}

process_delete_resources-Frees_example :
    ((process_delete_resources (counted machine) parent c0).taken 100 ≡ c0.taken 100)
    × ((process_delete_resources (counted machine) parent c0).freed 100
        ≡ c0.freed 100 + freed_with parent 100)
process_delete_resources-Frees_example = process_delete_resources-Frees machine parent c0 100

-- The mapping fails.
abbrev code : PaddrEle
code = record { ele = 5; paddr = 100; count = 2 }

abbrev copy : PaddrEle
copy = record { ele = 1; paddr = 1; count = 2 }

abbrev took : Counted Machine
took = record {
  state = record { frame = 3; block = 13; page = 2; maps = 0 };
  taken = λ p. 0 + at 1 2 p;
  freed = λ p. 0;
  log = copies 0 0x2000 ∷ [];
}

abbrev gave : Counted Machine
gave = record took { freed = λ p. 0 + at 1 2 p }

abbrev deleted : Counted Machine
deleted =
    let r = process_copy_paddr_list (counted machine) 9 0 (code ∷ []) (booted 0) in
    (delete_paddr_list (counted machine) r.0.1 r.1).1

process_copy_paddr_list-twice_example :
    (deleted.taken 1 ≡ took.taken 1) × (deleted.freed 1 ≡ took.freed 1 + 2 * at 1 2 1)
unfolding copy_frames map_frames handle ◌>>=◌ nonzero unless run
process_copy_paddr_list-twice_example =
    process_copy_paddr_list-twice machine 9 0 code [] copy (booted 0) took gave refl refl 1
