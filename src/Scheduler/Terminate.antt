-- ===== src/Scheduler/Terminate.antt =====
-- scheduler.c: a process that ends goes from the runnable to the terminated ones.
use aenix.Base.{
  ℕ, ◌<◌, ◌≡◌, ◌≢◌, refl, sym, ◌∙◌, true, false, ◌||◌, [], ◌∷◌, ◌++◌, arith, ◌==◌, Bool-cases, inl,
  inr, length,
}
use aenix.Scheduler.Lists.{Procs, PsList, Heap, null}
use aenix.Scheduler.Chain.{
  Returns, returns, Returns-and_then, Cells, has, has-append, Chain-frame, IsPsList,
}
use aenix.Scheduler.Queue.{scheduler_add_process-append}
use aenix.Scheduler.Remove.{matches, any_matches, scheduler_remove_process-removes}
use aenix.Scheduler.{Scheduler, scheduler_terminate_process}

IsPsList-frame :
    {h : Heap} (g : Heap) {l : PsList} {xs : Cells}
    → IsPsList h l xs
    → ((b : ℕ) → has b xs ≡ true → g b ≡ h b)
    → IsPsList g l xs
IsPsList-frame {h} g {l} {xs} is same = record {
  start = is.start;
  end = is.end;
  chain = Chain-frame h g null xs is.chain same;
}

has_not :
    (xs ys : Cells) (a : ℕ)
    → ((b : ℕ) → has b xs ≡ true → has b ys ≡ false)
    → has a ys ≡ true
    → has a xs ≡ false
has_not xs ys a apart i = elim (Bool-cases (has a xs)) [ inl e ↦ cc (apart a e, i) | inr e ↦ e ]

has-kept :
    (xs : Cells) (a ps : ℕ) (ys : Cells) (b : ℕ)
    → has b (xs ++ ys) ≡ true
    → has b (xs ++ (a, ps) ∷ ys) ≡ true
has-kept xs a ps ys b i =
    let i' : (has b xs || has b ys) ≡ true = sym (has-append b xs ys) ∙ i in
    has-append b xs ((a, ps) ∷ ys) ∙ ground (arith, i')

-- `scheduler_terminate_process` takes the process out of the runnable ones and puts it behind
-- the terminated ones, whose order stays. It holds where another process is runnable, no process
-- before it has its id, the two lists share no cell, memory for the new cell is left, and the
-- fuel is more than the processes before it.
pub scheduler_terminate_process-moves :
    (fuel ele : ℕ) (procs : Procs) (s : Scheduler) (xs : Cells) (a ps : ℕ) (ys zs : Cells)
    → IsPsList s.heap s.runnable_pss (xs ++ (a, ps) ∷ ys)
    → IsPsList s.heap s.zombie_pss zs
    → ((b : ℕ) → has b zs ≡ true → has b (xs ++ (a, ps) ∷ ys) ≡ false)
    → any_matches procs (procs ps).id xs ≡ false
    → ps ≢ null
    → xs ++ ys ≢ []
    → ele ≢ null
    → has ele (xs ++ ys) ≡ false
    → has ele zs ≡ false
    → length xs < fuel
    → Returns
        (λ s'.
          IsPsList s'.heap s'.runnable_pss (xs ++ ys)
          × IsPsList s'.heap s'.zombie_pss (zs ++ (ele, ps) ∷ [])
          × (s'.ms ≡ s.ms))
        (scheduler_terminate_process fuel ele procs s ps)
unfolding scheduler_terminate_process
scheduler_terminate_process-moves fuel ele procs s xs a ps ys zs run zom apart miss np others ne out
      out' le =
    let hit : matches procs (procs ps).id ps ≡ true = ground arith in
    Returns-and_then _
      (scheduler_remove_process-removes fuel procs (procs ps).id xs a ps ys run miss hit others le)
      λ r (removed, run', freed, same).
        let new : (b : ℕ) → has b (xs ++ ys) ≡ true → has b ((ele, ps) ∷ zs) ≡ false = λ b i.
          elim (Bool-cases (b == ele)) [
            | inl e ↦ let same_cell : b ≡ ele = ground arith in cc (rw same_cell at i, out)
            | inr e ↦ rw e (has_not zs (xs ++ (a, ps) ∷ ys) b apart (has-kept xs a ps ys b i))
          ] in
        let zom' = IsPsList-frame r.heap zom λ b i. same b (apart b i) in
        Returns-and_then _ (scheduler_add_process-append ele ps zom' ne out')
          λ z (done, zom'', same').
            returns (IsPsList-frame z.heap run' (λ b i. same' b (new b i)), zom'', refl)
