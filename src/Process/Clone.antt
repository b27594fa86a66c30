-- ===== src/Process/Clone.antt =====
-- process.c: cloning a process.
use aenix.Base.{
  ℕ, ◌≡◌, ◌≢◌, ◌⊎◌, inl, inr, ap, Bool, List, [], ◌∷◌, Option, ◌==◌, arith, Bool-cases,
}
use aenix.Process.Data.{Ps, PaddrEle, Fd}
use aenix.Process.Steps.{Calls}
use aenix.Process.Ends.{Ends, success, failure}
use aenix.Process.Frames.{Counted, counted, Net, at, none_at, frames_of, owned}
use aenix.Process.Descriptors.{SameFds, CopiesFds, copied_fds, broken_fds}
use aenix.Process.Parts.{Leaks}
use aenix.Process.Delete.{process_delete_resources-Frees}
use aenix.Process.Lists.{counts}
use aenix.Process.{with_descriptors, process_delete_and_free}

-- A process with the parent's registers, descriptors and lengths of runs, and a stack of its own for
-- the kernel.
pub record IsClone (parent : Ps) (id : ℕ) (ps : Ps) : Type 0 where
  pub has_id : ps.id ≡ id
  pub parent_id : ps.parent_id ≡ parent.id
  pub pdt : ps.pdt ≢ 0
  pub user_mode : ps.user_mode ≡ parent.user_mode
  pub start :
      (ps.code_start_vaddr ≡ parent.code_start_vaddr)
      × (ps.stack_start_vaddr ≡ parent.stack_start_vaddr)
  pub code : counts ps.code_paddrs ≡ counts parent.code_paddrs
  pub stack : counts ps.stack_paddrs ≡ counts parent.stack_paddrs
  pub kernel_stack : PaddrEle
  pub kernel_stack_paddrs : ps.kernel_stack_paddrs ≡ kernel_stack ∷ []
  pub kernel_stack_count : kernel_stack.count ≡ 1
  pub file_descriptors : SameFds parent.file_descriptors ps.file_descriptors

module _ {S : Type 0} (k : Calls S) where
  -- At most one run of frames is taken and neither owned nor given back, or given back twice.
  abbrev pub Unbalanced : Counted S → Counted S → Type 0
  Unbalanced c0 c = (q : ℕ) × (n : ℕ) × (Net c0 c (at q n) none_at ⊎ Net c0 c none_at (at q n))

  -- The last step: the frames of the stack for the kernel, which is there, may leak.
  pub with_descriptors-Ends :
      (R : ℕ × Ps → Counted S → Type 0) (Q : Counted S → Type 0) (at' : ℕ) (ps : Ps) (e : PaddrEle)
      (from : List (Option Fd)) {r : (Bool × List (Option Fd)) × Counted S} (c0 c1 : Counted S)
      → ((c : Counted S) → Leaks k c0 c → Q c)
      → ps.kernel_stack_paddrs ≡ e ∷ []
      → Net c0 c1 (owned ps) none_at
      → CopiesFds k c1 from r
      → ((fds : List (Option Fd)) (c : Counted S)
          → SameFds from fds
          → Net c0 c (owned ps) none_at
          → R (at', record ps { file_descriptors = fds }) c)
      → Ends R Q (with_descriptors (counted k) at' ps r)
  unfolding with_descriptors process_delete_and_free
  with_descriptors-Ends R Q at' ps e from c0 c1 leaks stack net
        (copied_fds {to = fds} {c' = c} same net') step =
      success (step fds c same (λ p. omega (arith, net p, net' p)))
  with_descriptors-Ends R Q at' ps e from c0 c1 leaks stack net
        (broken_fds {to = fds} {c' = c} net') step =
      elim (Bool-cases (ps.kernel_stack_start_vaddr == 0)) [
        | inl z ↦ failure (
            leaks _ (
              e.paddr,
              e.count,
              (λ p.
                  let (t, f) =
                    process_delete_resources-Frees k (record ps { file_descriptors = fds }) c p in
                  ground (arith, net p, net' p, ap (λ l. frames_of l p) stack, t, f, z)),
            ))
        | inr nz ↦ failure (
            leaks _ (
              0,
              0,
              (λ p.
                  let (t, f) =
                    process_delete_resources-Frees k (record ps { file_descriptors = fds }) c p in
                  ground (arith, net p, net' p, t, f, nz)),
            ))
      ]
