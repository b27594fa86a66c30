-- ===== src/Process/Descriptors.antt =====
-- process.c: copying the file descriptors of a process.
use aenix.Base.{
  ◌≡◌, ◌≢◌, refl, Bool, true, false, List, [], ◌∷◌, Option, none, some, arith, replicate, length,
}
use aenix.Process.Data.{Fd}
use aenix.Process.Steps.{Calls}
use aenix.Process.Ends.{Ends, success, Ends-handle, Ends-bind, Ends-nonzero}
use aenix.Process.Frames.{Counted, counted, Net, none_at}
use aenix.Process.Copy.{copy_fd, process_copy_file_descriptors}

-- Each open descriptor has a new pointer, to a copy of the vnode.
abbrev pub SameFds : List (Option Fd) → List (Option Fd) → Type 0
SameFds [] [] = Unit
SameFds [] (new ∷ to) = ⊥
SameFds (fd ∷ from) [] = ⊥
SameFds (none ∷ from) (none ∷ to) = SameFds from to
SameFds (none ∷ from) (some new ∷ to) = ⊥
SameFds (some fd ∷ from) (none ∷ to) = ⊥
SameFds (some fd ∷ from) (some new ∷ to) =
    (new.pointer ≢ 0) × (new.vnode ≡ fd.vnode) × SameFds from to

module _ {S : Type 0} (k : Calls S) where
  pub data CopiesFds (c : Counted S) (from : List (Option Fd))
      : (Bool × List (Option Fd)) × Counted S → Type 0 where
    copied_fds :
        {to : List (Option Fd)} {c' : Counted S}
        → SameFds from to
        → Net c c' none_at none_at
        → CopiesFds c from ((false, to), c')
    broken_fds :
        {to : List (Option Fd)} {c' : Counted S}
        → Net c c' none_at none_at
        → CopiesFds c from ((true, to), c')

  copy_fd-Ends :
      (fd : Fd) (c : Counted S)
      → Ends
          (λ new c'. (new.pointer ≢ 0) × (new.vnode ≡ fd.vnode) × Net c c' none_at none_at)
          (λ c'. Net c c' none_at none_at)
          (copy_fd (counted k) fd c)
  unfolding copy_fd
  copy_fd-Ends fd c =
      Ends-bind _ _ _
        (Ends-nonzero (λ a c'. (a ≢ 0) × Net c c' none_at none_at) _ _ c (λ ne. (ne, λ p. refl))
          (λ e p. refl))
        λ a c' (ne, net). success (ne, refl, net)

  pub process_copy_file_descriptors-CopiesFds :
      (from : List (Option Fd)) (c : Counted S)
      → CopiesFds c from
          (process_copy_file_descriptors (counted k) from (replicate (length from) none) c)
  unfolding process_copy_file_descriptors
  process_copy_file_descriptors-CopiesFds [] c = copied_fds tt (λ p. refl)
  process_copy_file_descriptors-CopiesFds (none ∷ from) c =
      none_more (process_copy_file_descriptors-CopiesFds from c)
    where
      none_more :
          {r : (Bool × List (Option Fd)) × Counted S}
          → CopiesFds c from r
          → CopiesFds c (none ∷ from) ((r.0.0, none ∷ r.0.1), r.1)
      none_more (copied_fds same net) = copied_fds same net
      none_more (broken_fds net) = broken_fds net
  process_copy_file_descriptors-CopiesFds (some fd ∷ from) c =
      Ends-handle (CopiesFds c (some fd ∷ from)) _ _ (copy_fd-Ends fd c)
        (λ new c1 (ne, same, net).
          some_more new c1 ne same net (process_copy_file_descriptors-CopiesFds from c1))
        (λ c1 net. broken_fds net)
    where
      some_more :
          (new : Fd) (c1 : Counted S) {r : (Bool × List (Option Fd)) × Counted S}
          → new.pointer ≢ 0
          → new.vnode ≡ fd.vnode
          → Net c c1 none_at none_at
          → CopiesFds c1 from r
          → CopiesFds c (some fd ∷ from) ((r.0.0, some new ∷ r.0.1), r.1)
      some_more new c1 ne same net (copied_fds fds net') =
          copied_fds (ne, same, fds) (λ p. omega (arith, net p, net' p))
      some_more new c1 ne same net (broken_fds net') =
          broken_fds (λ p. omega (arith, net p, net' p))
