-- ===== src/Process/Delete.antt =====
-- process.c: what deleting a process gives back.
use aenix.Base.{
  ℕ, ◌+◌, ◌≡◌, refl, List, [], ◌∷◌, Option, ◌==◌, if◌then◌else◌, arith, ◌∙◌, Bool-cases, inl, inr,
  add32,
}
use aenix.Process.Data.{Ps, PaddrEle}
use aenix.Process.Steps.{Calls}
use aenix.Process.Ends.{Ends, failure, Ends-handle}
use aenix.Process.Frames.{Counted, counted, Net, at, none_at, frames_of}
use aenix.Process.Load.{
  delete_paddr_loop, delete_paddr_list, delete_pdt, delete_kernel_stack, process_delete_resources,
}
use aenix.Process.Parts.{Leaks}
use aenix.Process.{process_delete_and_free, or_delete}

-- The frames that are given back: those of the kernel's stack only where its address is set.
abbrev pub freed_with : Ps → ℕ → ℕ
freed_with ps p =
    (if ps.kernel_stack_start_vaddr == 0 then 0 else frames_of ps.kernel_stack_paddrs p)
    + frames_of ps.code_paddrs p
    + frames_of ps.stack_paddrs p

module _ {S : Type 0} (k : Calls S) where
  -- From `c` to `c'` the frames `o` are given back, and none are taken.
  abbrev pub Frees : Counted S → Counted S → (ℕ → ℕ) → Type 0
  Frees c c' o = (p : ℕ) → (c'.taken p ≡ c.taken p) × (c'.freed p ≡ c.freed p + o p)

  delete_paddr_loop-Frees :
      (es : List PaddrEle) (size : ℕ) (c : Counted S)
      → Frees c (delete_paddr_loop (counted k) es size c).1 (frames_of es)
  unfolding delete_paddr_loop
  delete_paddr_loop-Frees [] size c p = (refl, omega arith)
  delete_paddr_loop-Frees (e ∷ es) size c p =
      let gone : Counted S = record {
        state = k.kfree e.ele (k.pfa_free_cont e.paddr e.count c.state);
        taken = c.taken;
        freed = λ q. c.freed q + at e.paddr e.count q;
        log = c.log;
      } in
      let (same, more) = delete_paddr_loop-Frees es (add32 size e.count) gone p in
      (same, omega (arith, more))

  pub delete_paddr_list-Frees :
      (es : List PaddrEle) (c : Counted S)
      → Frees c (delete_paddr_list (counted k) es c).1 (frames_of es)
  unfolding delete_paddr_list
  delete_paddr_list-Frees es c = delete_paddr_loop-Frees es 0 c

  delete_pdt-Frees : (ps : Ps) (c : Counted S) → Frees c (delete_pdt (counted k) ps c) none_at
  unfolding delete_pdt
  delete_pdt-Frees ps c p = elim (Bool-cases (ps.pdt == 0)) [
    | inl e ↦ rw e (refl, omega arith)
    | inr e ↦ rw e (refl, omega arith)
  ]

  delete_kernel_stack-Frees :
      (ps : Ps) (c : Counted S)
      → Frees c
          (delete_kernel_stack (counted k) ps c)
          (λ p. if ps.kernel_stack_start_vaddr == 0 then 0 else frames_of ps.kernel_stack_paddrs p)
  unfolding delete_kernel_stack
  delete_kernel_stack-Frees ps c p = elim (Bool-cases (ps.kernel_stack_start_vaddr == 0)) [
    | inl e ↦ rw e (refl, omega arith)
    | inr e ↦ rw e (delete_paddr_list-Frees ps.kernel_stack_paddrs c p)
  ]

  -- `process_delete_resources` gives back each run of frames in the lists of the process once,
  -- those of the kernel's stack only where its address is set, and takes none.
  pub process_delete_resources-Frees :
      (ps : Ps) (c : Counted S)
      → Frees c (process_delete_resources (counted k) ps c) (freed_with ps)
  unfolding process_delete_resources
  process_delete_resources-Frees ps c p =
      let c1 = delete_pdt (counted k) ps c in
      let c2 = delete_kernel_stack (counted k) ps c1 in
      let c3 = (delete_paddr_list (counted k) ps.code_paddrs c2).1 in
      let (t1, f1) = delete_pdt-Frees ps c p in
      let (t2, f2) = delete_kernel_stack-Frees ps c1 p in
      let (t3, f3) = delete_paddr_list-Frees ps.code_paddrs c2 p in
      let (t4, f4) = delete_paddr_list-Frees ps.stack_paddrs c3 p in
      (t4 ∙ t3 ∙ t2 ∙ t1, omega (arith, f1, f2, f3, f4))

  -- A step that fails leaves what it leaks, as the process that is deleted owns the rest.
  pub or_delete-Ends :
      {P : Ps → Counted S → Type 0} {R : ℕ × Ps → Counted S → Type 0} {Q : Counted S → Type 0}
      (at' : ℕ) (ps : Ps) (r : Option Ps × Counted S) (c0 c1 : Counted S)
      (next : Ps → Counted S → Option (ℕ × Ps) × Counted S)
      → ((c : Counted S) → Leaks k c0 c → Q c)
      → Net c0 c1 (freed_with ps) none_at
      → Ends P (Leaks k c1) r
      → ((ps' : Ps) (c : Counted S) → P ps' c → Ends R Q (next ps' c))
      → Ends R Q (or_delete (counted k) at' ps r next)
  unfolding or_delete process_delete_and_free
  or_delete-Ends {R} {Q} at' ps r c0 c1 next leaks net e step =
      Ends-handle (Ends R Q) next _ e step λ c (q, n, net'). failure (
        leaks _ (
          q,
          n,
          λ p.
              let (t, f) = process_delete_resources-Frees ps c p in
              omega (arith, net p, net' p, t, f),
        ))
