-- ===== src/Process/Copy.antt =====
-- process.c: copying the descriptors and the memory of a process.
use aenix.Base.{ℕ, Bool, true, false, List, [], ◌∷◌, Option, none, some, ltb, add32, mul32}
use aenix.Pfa.{four_kb}
use aenix.Process.Data.{PaddrEle, Fd, sizeof_paddr_ele, sizeof_vnode}
use aenix.Process.Steps.{Calls, Action, handle, ◌>>=◌, ◌>>◌, pure, run, nonzero, unless}

module _ {S : Type 0} (k : Calls S) where
  unfoldable pub copy_fd : Fd → Action S Fd
  copy_fd fd = do
    pointer ← nonzero (k.kmalloc sizeof_vnode)
    pure (record { pointer = pointer; vnode = fd.vnode })

  -- The descriptors of the new process, of which those behind a failure stay as they are; `true`
  -- for -1.
  unfoldable pub process_copy_file_descriptors :
      (from to : List (Option Fd)) → S → (Bool × List (Option Fd)) × S
  process_copy_file_descriptors [] to s = ((false, to), s)
  process_copy_file_descriptors (fd ∷ from) [] s = ((false, []), s)
  process_copy_file_descriptors (none ∷ from) (old ∷ to) s =
      let ((error, rest), s') = process_copy_file_descriptors from to s in ((error, old ∷ rest), s')
  process_copy_file_descriptors (some fd ∷ from) (old ∷ to) s =
      handle (copy_fd fd s)
        (λ new s1.
          let ((error, rest), s') = process_copy_file_descriptors from to s1 in
          ((error, some new ∷ rest), s'))
        (λ s1. ((true, old ∷ to), s1))

  -- A round of the loop until the new element is in the list.
  unfoldable pub copy_frames : (vaddr count : ℕ) → Action S PaddrEle
  copy_frames vaddr count = do
    paddr ← nonzero (k.pfa_allocate count)
    let bytes = mul32 count four_kb
    kernel_vaddr ← λ s.
        handle (nonzero (k.pdt_kernel_find_next_vaddr bytes) s) pure
          (λ s'. (none, k.pfa_free_cont paddr count s'))
    unless (k.pdt_map_kernel_memory paddr kernel_vaddr bytes 1 0) (λ mapped. ltb mapped bytes)
        (λ s. k.pfa_free_cont paddr count (k.pdt_unmap_kernel_memory kernel_vaddr bytes s))
    run (k.memcpy kernel_vaddr vaddr bytes)
    run (k.pdt_unmap_kernel_memory kernel_vaddr bytes)
    ele ← λ s.
        handle (nonzero (k.kmalloc sizeof_paddr_ele) s) pure
          (λ s'. (none, k.pfa_free_cont paddr count s'))
    pure (record { ele = ele; paddr = paddr; count = count })

  -- The rest of the round: the element stays in the list where this fails.
  unfoldable pub map_frames : (pdt vaddr : ℕ) → PaddrEle → Action S (Unit {0})
  map_frames pdt vaddr e =
      let bytes = mul32 e.count four_kb in
      unless (k.pdt_map_memory pdt e.paddr vaddr bytes 1 3) (λ mapped. ltb mapped bytes)
        (λ s. k.pfa_free_cont e.paddr e.count (k.kfree e.ele s))

  -- The list `to`, which is empty at the calls, as it is at the end, and `true` for -1.
  unfoldable pub process_copy_paddr_list :
      (pdt vaddr : ℕ) → (from : List PaddrEle) → S → (Bool × List PaddrEle) × S
  process_copy_paddr_list pdt vaddr [] s = ((false, []), s)
  process_copy_paddr_list pdt vaddr (p ∷ from) s =
      handle (copy_frames vaddr p.count s)
        (λ pe s1.
          handle (map_frames pdt vaddr pe s1)
            (λ unit s2.
              let ((error, to), s') =
                process_copy_paddr_list pdt (add32 vaddr (mul32 p.count four_kb)) from s2 in
              ((error, pe ∷ to), s'))
            (λ s2. ((true, pe ∷ []), s2)))
        (λ s1. ((true, []), s1))
