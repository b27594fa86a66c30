-- ===== src/Process/Trace.antt =====
-- process.c: the file that is read for a process.
use aenix.Base.{
  ℕ, ◌≡◌, refl, ap, ◌∙◌, Bool, List, [], ◌∷◌, Option, none, some, ◌==◌, ◌||◌, inl, inr, arith,
  Bool-cases, map,
}
use aenix.Math.{div_ceil}
use aenix.CString.{Str}
use aenix.Vfs.{Vnode}
use aenix.Process.Data.{Ps, PaddrEle, sizeof_ps, process_init}
use aenix.Process.Steps.{Calls, nonzero, unless}
use aenix.Process.Ends.{
  Ends, success, failure, Ends-handle, Ends-bind, Ends-nonzero, Ends-unless, Ends-run,
}
use aenix.Process.Frames.{Event, looks, reads, Counted, counted}
use aenix.Process.Load.{
  process_load_code, process_load_stack, process_load_kernel_stack, process_load_pdt,
}
use aenix.Process.{process_create, or_delete}

-- The file at `path` was found and all of it was read, and the code has as many frames as it needs.
abbrev pub IsLoaded : {S : Type 0} → Str → (c : Counted S) → Ps → (c' : Counted S) → Type 0
IsLoaded path c ps c' =
    (node : Vnode) × (size : ℕ) × (map (λ (e : PaddrEle). e.count) ps.code_paddrs
      ≡ div_ceil size 0x1000 ∷ [])
    × (c'.log ≡ reads node size size ∷ looks path (some node) ∷ c.log)

abbrev pub Fails : {S : Type 0} → Counted S → Type 0
Fails c = Unit {0}

-- The log is `l`.
abbrev pub HasLog : {S A : Type 0} → List Event → A → Counted S → Type 0
HasLog l a c = c.log ≡ l

module _ {S : Type 0} (k : Calls S) where
  any-HasLog :
      {A : Type 0} (l : List Event) (r : Option A × Counted S)
      → r.1.log ≡ l
      → Ends (HasLog l) Fails r
  any-HasLog l (some a, c) e = success e
  any-HasLog l (none, c) e = failure tt

  pub nonzero-HasLog :
      (l : List Event) (f : Counted S → ℕ × Counted S) (c : Counted S)
      → (f c).1.log ≡ l
      → Ends (HasLog l) Fails (nonzero f c)
  nonzero-HasLog l f c e = Ends-nonzero _ _ f c (λ ne. e) (λ z. tt)

  pub unless-HasLog :
      (l : List Event) (f : Counted S → ℕ × Counted S) (bad : ℕ → Bool)
      (clean : Counted S → Counted S) (c : Counted S)
      → (f c).1.log ≡ l
      → Ends (HasLog l) Fails (unless f bad clean c)
  unless-HasLog l f bad clean c e = Ends-unless _ _ f bad clean c (λ fine. e) (λ b. tt)

  looked :
      (path : Str) (r : Option Vnode × S) (c : Counted S)
      → Ends
          (λ node c1. c1.log ≡ looks path (some node) ∷ c.log)
          Fails
          (r.0, record c { state = r.1; log = looks path r.0 ∷ c.log })
  looked path (some node, s) c = success refl
  looked path (none, s) c = failure tt

  module _ (ps : Ps) (c : Counted S) where
    process_load_code-IsLoaded :
        (path : Str) (vaddr : ℕ)
        → Ends
            (λ ps' c'. IsLoaded path c ps' c')
            Fails
            (process_load_code (counted k) ps path vaddr c)
    unfolding process_load_code
    process_load_code-IsLoaded path vaddr =
        Ends-bind _ _ _ (looked path (k.vfs_lookup path c.state) c) λ node c1 e1.
          Ends-bind _ _ _ (any-HasLog _ ((counted k).vfs_getattr node c1) e1) λ size c2 e2.
            Ends-bind _ _ _ (nonzero-HasLog _ _ c2 e2) λ paddr c3 e3.
              Ends-bind _ _ _ (nonzero-HasLog _ _ c3 e3) λ kernel_vaddr c4 e4.
                Ends-bind _ _ _ (unless-HasLog _ _ _ _ c4 e4) λ u c5 e5.
                  Ends-bind _ _ _
                    (Ends-unless (HasLog (reads node size size ∷ looks path (some node) ∷ c.log))
                      Fails _ _ _ c5
                      (λ all.
                        let whole : (k.vfs_read node kernel_vaddr size c5.state).0 ≡ size =
                          ground (arith, all) in
                        ap (λ n. reads node size n ∷ c5.log) whole
                        ∙ ap (λ l. reads node size size ∷ l) e5)
                      (λ b. tt))
                    λ u' c6 e6. Ends-bind _ _ _ (Ends-run (HasLog _) Fails _ c6 e6) λ u2 c7 e7.
                      Ends-bind _ _ _ (unless-HasLog _ _ _ _ c7 e7) λ u3 c8 e8.
                        Ends-bind _ _ _ (nonzero-HasLog _ _ c8 e8)
                          λ ele c9 e9. success (node, size, refl, e9)

    -- The other parts are made without reading or copying.
    abbrev pub KeepsCode : Ps → Counted S → Type 0
    KeepsCode ps' c' = (ps'.code_paddrs ≡ ps.code_paddrs) × (c'.log ≡ c.log)

    process_load_stack-KeepsCode : Ends KeepsCode Fails (process_load_stack (counted k) ps c)
    unfolding process_load_stack
    process_load_stack-KeepsCode = Ends-bind _ _ _ (nonzero-HasLog c.log _ c refl) λ paddr c1 e1.
        Ends-bind _ _ _ (unless-HasLog _ _ _ _ c1 e1)
          λ u c2 e2. Ends-bind _ _ _ (nonzero-HasLog _ _ c2 e2) λ ele c3 e3. success (refl, e3)

    pub process_load_kernel_stack-KeepsCode :
        Ends KeepsCode Fails (process_load_kernel_stack (counted k) ps c)
    unfolding process_load_kernel_stack
    process_load_kernel_stack-KeepsCode =
        Ends-bind _ _ _ (nonzero-HasLog c.log _ c refl) λ paddr c1 e1.
          Ends-bind _ _ _ (nonzero-HasLog _ _ c1 e1) λ vaddr c2 e2.
            Ends-bind _ _ _ (unless-HasLog _ _ _ _ c2 e2)
              λ u c3 e3. Ends-bind _ _ _ (nonzero-HasLog _ _ c3 e3) λ ele c4 e4. success (refl, e4)

    pub process_load_pdt-KeepsCode : Ends KeepsCode Fails (process_load_pdt (counted k) ps c)
    unfolding process_load_pdt
    process_load_pdt-KeepsCode =
        let r = (k.pdt_create c.state).0 in
        elim (Bool-cases ((r.0 == 0) || (r.1 == 0))) [
          | inl e ↦ rw e (failure tt)
          | inr e ↦ rw e (success (refl, refl))
        ]

  pub or_delete-Trace :
      (R : ℕ × Ps → Counted S → Type 0) (P : Ps → Counted S → Type 0) (at : ℕ) (ps : Ps)
      (next : Ps → Counted S → Option (ℕ × Ps) × Counted S) {r : Option Ps × Counted S}
      → Ends P Fails r
      → ((ps' : Ps) (c : Counted S) → P ps' c → Ends R Fails (next ps' c))
      → Ends R Fails (or_delete (counted k) at ps r next)
  unfolding or_delete
  or_delete-Trace R P at ps next ends step =
      Ends-handle (Ends R Fails) next _ ends step (λ c q. failure tt)

  pub process_create-IsLoaded :
      (path : Str) (id : ℕ) (c : Counted S)
      → Ends (λ r c'. IsLoaded path c r.1 c') Fails (process_create (counted k) path id c)
  unfolding process_create
  process_create-IsLoaded path id c =
      let R : ℕ × Ps → Counted S → Type 0 = λ r c'. IsLoaded path c r.1 c' in
      Ends-handle (Ends R Fails) _ _ (nonzero-HasLog c.log ((counted k).kmalloc sizeof_ps) c refl)
        (λ at c0 e0.
          or_delete-Trace R _ at _ _ (process_load_pdt-KeepsCode (process_init id) c0)
            λ ps1 c1 (same1, e1).
              or_delete-Trace R _ at _ _ (process_load_code-IsLoaded ps1 c1 path 0)
                λ ps2 c2 (node, size, count2, e2).
                  or_delete-Trace R _ at _ _ (process_load_stack-KeepsCode ps2 c2)
                    λ ps3 c3 (same3, e3).
                      or_delete-Trace R _ at _ _ (process_load_kernel_stack-KeepsCode ps3 c3)
                        λ ps4 c4 (same4, e4). success (
                          node,
                          size,
                          ap (map (λ (e : PaddrEle). e.count)) (same4 ∙ same3) ∙ count2,
                          e4
                              ∙ e3
                              ∙ e2
                              ∙ ap (λ l. reads node size size ∷ looks path (some node) ∷ l)
                                  (e1 ∙ e0),
                        ))
        (λ c0 q. failure tt)
