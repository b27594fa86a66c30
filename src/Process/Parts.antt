-- ===== src/Process/Parts.antt =====
-- process.c: what loading a part of a process takes, and what a failure leaves taken.
use aenix.Base.{
  ℕ, ◌≡◌, ◌≢◌, refl, [], ◌∷◌, Option, ◌==◌, ◌||◌, Bool, true, false, arith, inl, inr, Bool-cases,
}
use aenix.Math.{div_ceil}
use aenix.CString.{Str}
use aenix.Process.Data.{Ps, PaddrEle, proc_initial_stack_vaddr, proc_initial_esp}
use aenix.Process.Steps.{Calls, nonzero, unless}
use aenix.Process.Ends.{
  Ends, success, failure, Ends-bind, Ends-nonzero, Ends-unless, Ends-mono, Ends-any, Ends-run,
}
use aenix.Process.Frames.{Counted, counted, Net, at, none_at}
use aenix.Process.Load.{
  process_load_code, process_load_stack, process_load_kernel_stack, process_load_pdt,
}

module _ {S : Type 0} (k : Calls S) where
  -- `pfa_allocate` gives `n` frames, or nothing.
  pub allocate-Ends :
      (n : ℕ) (c : Counted S)
      → Ends
          (λ paddr c'. (paddr ≢ 0) × Net c c' (at paddr n) none_at)
          (λ c'. Net c c' none_at none_at)
          (nonzero ((counted k).pfa_allocate n) c)
  allocate-Ends n c =
      Ends-nonzero _ _ ((counted k).pfa_allocate n) c
        (λ ne. (
          ne,
          λ p.
              let some_frames : ((k.pfa_allocate n c.state).0 == 0) ≡ false = ground (arith, ne) in
              rw some_frames (omega arith),
        ))
        (λ e p.
          let no_frames : ((k.pfa_allocate n c.state).0 == 0) ≡ true = ground arith in
          rw no_frames refl)

  -- At most one run of frames is taken and neither owned nor given back.
  abbrev pub Leaks : Counted S → Counted S → Type 0
  Leaks c0 c = (q : ℕ) × (n : ℕ) × Net c0 c (at q n) none_at

  no_leak : (c0 c : Counted S) → Net c0 c none_at none_at → Leaks c0 c
  no_leak c0 c net = (0, 0, λ p. ground (arith, net p))

  -- A step that takes no frames, behind the one that took `n` of them at `paddr`: what it returns
  -- is of no account.
  module _ (c0 : Counted S) (paddr n : ℕ) where
    abbrev Holds : {A : Type 0} → A → Counted S → Type 0
    Holds a c = Net c0 c (at paddr n) none_at

    -- `keep` and `clean` are calls of others than `pfa_allocate` and `pfa_free_cont`.
    nonzero-Holds :
        (f : Counted S → ℕ × Counted S) (c : Counted S)
        → Net c0 (f c).1 (at paddr n) none_at
        → Ends Holds (Leaks c0) (nonzero f c)
    nonzero-Holds f c net = Ends-nonzero _ _ f c (λ ne. net) (λ e. (paddr, n, net))

    unless-Holds :
        (f : Counted S → ℕ × Counted S) (bad : ℕ → Bool) (clean : Counted S → Counted S)
        (c : Counted S)
        → Net c0 (f c).1 (at paddr n) none_at
        → Net c0 (clean (f c).1) (at paddr n) none_at
        → Ends Holds (Leaks c0) (unless f bad clean c)
    unless-Holds f bad clean c net net' =
        Ends-unless _ _ f bad clean c (λ e. net) (λ e. (paddr, n, net'))

  unowned :
      {A : Type 0} (c0 : Counted S) (r : Option A × Counted S)
      → Net c0 r.1 none_at none_at
      → Ends (λ a c. Net c0 c none_at none_at) (Leaks c0) r
  unowned c0 r net =
      Ends-mono (Ends-any (λ c. Net c0 c none_at none_at) r net) (λ a c p. p) λ c q. no_leak c0 c q

  allocate_after :
      (c0 c : Counted S) (n : ℕ)
      → Net c0 c none_at none_at
      → Ends
          (λ paddr c'. (paddr ≢ 0) × Net c0 c' (at paddr n) none_at)
          (Leaks c0)
          (nonzero ((counted k).pfa_allocate n) c)
  allocate_after c0 c n net =
      Ends-mono (allocate-Ends n c) (λ paddr c' (ne, net'). (ne, λ p. omega (arith, net p, net' p)))
        (λ c' net'. no_leak c0 c' (λ p. omega (arith, net p, net' p)))

  module _ (ps : Ps) (c : Counted S) where
    pub process_load_stack-Ends :
        Ends
          (λ ps' c'.
            (e : PaddrEle) × (ps' ≡ record ps {
              stack_paddrs = e ∷ [];
              stack_start_vaddr = proc_initial_stack_vaddr;
              user_mode = record ps.user_mode { esp = proc_initial_esp };
            })
            × (e.paddr ≢ 0)
            × (e.count ≡ 1)
            × Net c c' (at e.paddr e.count) none_at)
          (Leaks c)
          (process_load_stack (counted k) ps c)
    unfolding process_load_stack div_ceil
    process_load_stack-Ends =
        Ends-bind _ _ _ (allocate_after c c 1 (λ p. refl)) λ paddr c1 (ne, net).
          Ends-bind _ _ _ (unless-Holds c paddr 1 _ _ _ c1 net net) λ u c2 net2.
            Ends-bind _ _ _ (nonzero-Holds c paddr 1 _ c2 net2)
              λ ele c3 net3. success (_, refl, ne, refl, net3)

    pub process_load_kernel_stack-Ends :
        Ends
          (λ ps' c'.
            (e : PaddrEle) × (start : ℕ) × (ps'
              ≡ record ps { kernel_stack_paddrs = e ∷ []; kernel_stack_start_vaddr = start })
            × (e.paddr ≢ 0)
            × (e.count ≡ 1)
            × Net c c' (at e.paddr e.count) none_at)
          (Leaks c)
          (process_load_kernel_stack (counted k) ps c)
    unfolding process_load_kernel_stack div_ceil
    process_load_kernel_stack-Ends =
        Ends-bind _ _ _ (allocate_after c c 1 (λ p. refl)) λ paddr c1 (ne, net).
          Ends-bind _ _ _ (nonzero-Holds c paddr 1 _ c1 net) λ vaddr c2 net2.
            Ends-bind _ _ _ (unless-Holds c paddr 1 _ _ _ c2 net2 net2) λ u c3 net3.
              Ends-bind _ _ _ (nonzero-Holds c paddr 1 _ c3 net3)
                λ ele c4 net4. success (_, _, refl, ne, refl, net4)

    pub process_load_pdt-Ends :
        Ends
          (λ ps' c'.
            (pdt : ℕ) × (paddr : ℕ) × (ps' ≡ record ps { pdt = pdt; pdt_paddr = paddr })
            × (pdt ≢ 0)
            × (paddr ≢ 0)
            × Net c c' none_at none_at)
          (Leaks c)
          (process_load_pdt (counted k) ps c)
    unfolding process_load_pdt
    process_load_pdt-Ends =
        let r = (k.pdt_create c.state).0 in
        let c' : Counted S = record c { state = (k.pdt_create c.state).1 } in
        elim (Bool-cases ((r.0 == 0) || (r.1 == 0))) [
          | inl e ↦ rw e (failure (no_leak c c' (λ p. refl)))
          | inr e ↦
              let has_pdt : r.0 ≢ 0 = λ z. ground (arith, z, e) in
              let has_paddr : r.1 ≢ 0 = λ z. ground (arith, z, e) in
              rw e (success (r.0, r.1, refl, has_pdt, has_paddr, λ p. refl))
        ]

    -- `size` is that of the file.
    pub process_load_code-Ends :
        (path : Str) (vaddr : ℕ)
        → Ends
            (λ ps' c'.
              (e : PaddrEle) × (size : ℕ) × (ps' ≡ record ps {
                code_paddrs = e ∷ [];
                user_mode = record ps.user_mode { eip = vaddr };
                code_start_vaddr = vaddr;
              })
              × (e.paddr ≢ 0)
              × (e.count ≡ div_ceil size 0x1000)
              × Net c c' (at e.paddr e.count) none_at)
            (Leaks c)
            (process_load_code (counted k) ps path vaddr c)
    unfolding process_load_code
    process_load_code-Ends path vaddr =
        Ends-bind _ _ _ (unowned c ((counted k).vfs_lookup path c) (λ p. refl)) λ node c1 net1.
          Ends-bind _ _ _ (unowned c ((counted k).vfs_getattr node c1) net1) λ size c2 net2.
            Ends-bind _ _ _ (allocate_after c c2 (div_ceil size 0x1000) net2) λ paddr c3 (ne, net3).
              Ends-bind _ _ _ (nonzero-Holds c paddr _ _ c3 net3) λ kernel_vaddr c4 net4.
                Ends-bind _ _ _ (unless-Holds c paddr _ _ _ _ c4 net4 net4) λ u c5 net5.
                  Ends-bind _ _ _ (unless-Holds c paddr _ _ _ _ c5 net5 net5) λ u' c6 net6.
                    Ends-bind _ _ _ (Ends-run (Holds c paddr _) (Leaks c) _ c6 net6) λ u'' c7 net7.
                      Ends-bind _ _ _ (unless-Holds c paddr _ _ _ _ c7 net7 net7) λ u3 c8 net8.
                        Ends-bind _ _ _ (nonzero-Holds c paddr _ _ c8 net8)
                          λ ele c9 net9. success (_, size, refl, ne, refl, net9)
