-- ===== src/Process/CopyTrace.antt =====
-- process.c: the memory that is copied for a process, and the file that is read to replace one.
use aenix.Base.{
  ℕ, ◌≡◌, refl, ap, ◌∙◌, Bool, true, false, List, [], ◌∷◌, Option, none, some, ◌⊎◌, inl, inr, arith,
  add32, mul32,
}
use aenix.CString.{Str}
use aenix.Process.Data.{Ps, PaddrEle, Fd, sizeof_ps}
use aenix.Process.Steps.{Calls, handle, nonzero, pure}
use aenix.Process.Ends.{Ends, success, failure, Ends-handle, Ends-bind, Ends-nonzero, Ends-run}
use aenix.Process.Frames.{Event, copies, Counted, counted}
use aenix.Process.Copy.{
  copy_fd, process_copy_file_descriptors, copy_frames, map_frames, process_copy_paddr_list,
}
use aenix.Process.{
  process_clone, or_delete_list, with_descriptors, clone_init, process_create_replacement,
}
use aenix.Process.Trace.{
  IsLoaded, Fails, HasLog, nonzero-HasLog, unless-HasLog, process_load_pdt-KeepsCode,
  process_load_kernel_stack-KeepsCode, or_delete-Trace, process_create-IsLoaded,
}

-- The log after the frames of a list were copied from `vaddr` on, each run from where the one before
-- it ends.
abbrev pub copied_log : (vaddr : ℕ) → List PaddrEle → List Event → List Event
copied_log vaddr [] log = log
copied_log vaddr (p ∷ ps) log =
    let bytes = mul32 p.count 0x1000 in copied_log (add32 vaddr bytes) ps (copies vaddr bytes ∷ log)

-- The log after the code and the stack of a process were copied.
abbrev pub cloned_log : Ps → List Event → List Event
cloned_log parent log =
    copied_log parent.stack_start_vaddr parent.stack_paddrs
      (copied_log parent.code_start_vaddr parent.code_paddrs log)

module _ {S : Type 0} (k : Calls S) where
  -- The copy of a list copies all of its frames, where it does not break.
  abbrev pub IsCopied :
      (vaddr : ℕ) → List PaddrEle → Counted S → (Bool × List PaddrEle) × Counted S → Type 0
  IsCopied vaddr from c r = (r.0.0 ≡ true) ⊎ (r.1.log ≡ copied_log vaddr from c.log)

  or_free-HasLog :
      (l : List Event) (paddr n : ℕ) (f : Counted S → ℕ × Counted S) (c : Counted S)
      → (f c).1.log ≡ l
      → Ends
          (HasLog l)
          Fails
          (handle (nonzero f c) pure (λ s'. (none, (counted k).pfa_free_cont paddr n s')))
  or_free-HasLog l paddr n f c e =
      Ends-handle (Ends (HasLog l) Fails) pure _ (nonzero-HasLog k l f c e) (λ a c' e'. success e')
        (λ c' q. failure tt)

  copy_frames-Copies :
      (vaddr count : ℕ) (c : Counted S)
      → Ends
          (HasLog (copies vaddr (mul32 count 0x1000) ∷ c.log))
          Fails
          (copy_frames (counted k) vaddr count c)
  unfolding copy_frames
  copy_frames-Copies vaddr count c =
      let l = copies vaddr (mul32 count 0x1000) ∷ c.log in
      Ends-bind _ _ _ (nonzero-HasLog k c.log _ c refl) λ paddr c1 e1.
        Ends-bind _ _ _ (or_free-HasLog _ _ _ _ c1 e1) λ kernel_vaddr c2 e2.
          Ends-bind _ _ _ (unless-HasLog k _ _ _ _ c2 e2) λ u c3 e3.
            Ends-bind _ _ _
              (Ends-run (HasLog l) Fails _ c3 (ap (λ l. copies vaddr (mul32 count 0x1000) ∷ l) e3))
              λ u' c4 e4.
                Ends-bind _ _ _ (Ends-run (HasLog l) Fails _ c4 e4) λ u'' c5 e5.
                  Ends-bind _ _ _ (or_free-HasLog l _ _ _ c5 e5) λ ele c6 e6. success e6

  pub process_copy_paddr_list-Log :
      (pdt vaddr : ℕ) (from : List PaddrEle) (c : Counted S)
      → IsCopied vaddr from c (process_copy_paddr_list (counted k) pdt vaddr from c)
  unfolding process_copy_paddr_list map_frames
  process_copy_paddr_list-Log pdt vaddr [] c = inr refl
  process_copy_paddr_list-Log pdt vaddr (p ∷ from) c =
      Ends-handle (IsCopied vaddr (p ∷ from) c) _ _ (copy_frames-Copies vaddr p.count c)
        (λ e c1 e1.
          Ends-handle (IsCopied vaddr (p ∷ from) c) _ _
            (unless-HasLog k (copies vaddr (mul32 p.count 0x1000) ∷ c.log) _ _ _ c1 e1)
            (λ u c2 e2.
              let next = add32 vaddr (mul32 p.count 0x1000) in
              elim (process_copy_paddr_list-Log pdt next from c2) [
                | inl broken ↦ inl broken
                | inr same ↦ inr (same ∙ ap (copied_log next from) e2)
              ])
            (λ c2 q. inl refl))
        (λ c1 q. inl refl)

  or_delete_list-Trace :
      (R : ℕ × Ps → Counted S → Type 0) (at vaddr : ℕ) (with_list : List PaddrEle → Ps)
      (from : List PaddrEle) (c : Counted S) (next : Ps → Counted S → Option (ℕ × Ps) × Counted S)
      (r : (Bool × List PaddrEle) × Counted S)
      → IsCopied vaddr from c r
      → ((l : List PaddrEle) (c' : Counted S)
          → c'.log ≡ copied_log vaddr from c.log
          → Ends R Fails (next (with_list l) c'))
      → Ends R Fails (or_delete_list (counted k) at with_list r next)
  unfolding or_delete_list
  or_delete_list-Trace R at vaddr with_list from c next ((true, l), c') copied step = failure tt
  or_delete_list-Trace R at vaddr with_list from c next ((false, l), c') (inl e) step =
      ground (arith, e)
  or_delete_list-Trace R at vaddr with_list from c next ((false, l), c') (inr e) step = step l c' e

  copy_fds-HasLog :
      (from to : List (Option Fd)) (c : Counted S)
      → (process_copy_file_descriptors (counted k) from to c).1.log ≡ c.log
  unfolding process_copy_file_descriptors copy_fd
  copy_fds-HasLog [] to c = refl
  copy_fds-HasLog (fd ∷ from) [] c = refl
  copy_fds-HasLog (none ∷ from) (old ∷ to) c = copy_fds-HasLog from to c
  copy_fds-HasLog (some fd ∷ from) (old ∷ to) c =
      Ends-handle (λ (r : (Bool × List (Option Fd)) × Counted S). r.1.log ≡ c.log) _ _
        (Ends-bind {Q = λ c1. c1.log ≡ c.log} _ _ _
          (Ends-nonzero (λ a c1. c1.log ≡ c.log) (λ c1. c1.log ≡ c.log) _ c (λ ne. refl)
            (λ z. refl))
          λ pointer c1 e1. success e1)
        (λ new c1 e1. copy_fds-HasLog from to c1 ∙ e1) (λ c1 e1. e1)

  with_descriptors-Trace :
      (R : ℕ × Ps → Counted S → Type 0) (at : ℕ) (ps : Ps)
      (r : (Bool × List (Option Fd)) × Counted S)
      → ((fds : List (Option Fd)) → R (at, record ps { file_descriptors = fds }) r.1)
      → Ends R Fails (with_descriptors (counted k) at ps r)
  unfolding with_descriptors
  with_descriptors-Trace R at ps ((true, fds), c) holds = failure tt
  with_descriptors-Trace R at ps ((false, fds), c) holds = success (holds fds)

  pub process_clone-Log :
      (parent : Ps) (id : ℕ) (c : Counted S)
      → Ends
          (λ r c'. c'.log ≡ cloned_log parent c.log)
          Fails
          (process_clone (counted k) parent id c)
  unfolding process_clone
  process_clone-Log parent id c =
      let R : ℕ × Ps → Counted S → Type 0 = λ r c'. c'.log ≡ cloned_log parent c.log in
      let code = copied_log parent.code_start_vaddr parent.code_paddrs in
      let stack = copied_log parent.stack_start_vaddr parent.stack_paddrs in
      Ends-handle (Ends R Fails) _ _ (nonzero-HasLog k c.log ((counted k).kmalloc sizeof_ps) c refl)
        (λ at c0 e0.
          or_delete-Trace k R _ at _ _ (process_load_pdt-KeepsCode k (clone_init parent id) c0)
            λ ps1 c1 (same1, e1).
              or_delete_list-Trace R at parent.code_start_vaddr _ parent.code_paddrs c1 _ _
                (process_copy_paddr_list-Log _ _ _ c1)
                λ l c2 e2.
                  or_delete_list-Trace R at parent.stack_start_vaddr _ parent.stack_paddrs c2 _ _
                    (process_copy_paddr_list-Log _ _ _ c2)
                    λ l' c3 e3.
                      or_delete-Trace k R _ at _ _ (process_load_kernel_stack-KeepsCode k _ c3)
                        λ ps4 c4 (same4, e4). with_descriptors-Trace R at ps4 _ (λ fds.
                          copy_fds-HasLog _ _ c4 ∙ e4 ∙ e3 ∙ ap stack (e2 ∙ ap code (e1 ∙ e0))))
        (λ c0 q. failure tt)

  pub process_create_replacement-IsLoaded :
      (parent : Ps) (path : Str) (c : Counted S)
      → Ends
          (λ r c'. IsLoaded path c r.1 c')
          Fails
          (process_create_replacement (counted k) parent path c)
  unfolding process_create_replacement
  process_create_replacement-IsLoaded parent path c =
      Ends-bind _ _ _ (process_create-IsLoaded k path parent.id c)
        λ (at, child) c1 (node, size, count, e).
          with_descriptors-Trace (λ r c'. IsLoaded path c r.1 c') at _ _
            (λ fds. (node, size, count, copy_fds-HasLog _ _ c1 ∙ e))
