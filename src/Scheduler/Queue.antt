-- ===== src/Scheduler/Queue.antt =====
-- scheduler.c: the list of processes is a queue, and the scheduler takes turns round it.
use aenix.Base.{
  ℕ, ◌≡◌, ◌≢◌, refl, ap, sym, subst, ◌∙◌, true, false, [], ◌∷◌, ◌++◌, some, arith, ◌==◌, Bool-cases,
  inl, inr,
}
use aenix.Scheduler.Lists.{PsList, Heap, ok, null, write, load, set_next, scheduler_add_process}
use aenix.Scheduler.Chain.{
  Returns, returns, Returns-and_then, Cells, cell, first_or, last_or, has, Chain, SameOutside,
  IsPsList, last_or-append, load-ok, Chain-write, Chain-append, relink,
}
use aenix.Scheduler.{Scheduler, rotate, scheduler_get_and_rotate_runnable_process}

apart :
    (ele ps : ℕ) (xs : Cells)
    → has ele xs ≡ false
    → (b : ℕ) → has b xs ≡ true
    → has b ((ele, ps) ∷ []) ≡ false
apart ele ps xs out b i = elim (Bool-cases (b == ele)) [
  | inl e ↦ let same : b ≡ ele = ground arith in cc (rw same at i, out)
  | inr e ↦ rw e
]

-- `scheduler_add_process` puts the process at the end of the list, and writes only the new cell
-- and the last one.
pub scheduler_add_process-append :
    (ele : ℕ) {l : PsList} {h : Heap} (ps : ℕ) {xs : Cells}
    → IsPsList h l xs
    → ele ≢ null
    → has ele xs ≡ false
    → Returns
        (λ a.
          (a.done ≡ true)
          × IsPsList a.heap a.pss (xs ++ (ele, ps) ∷ [])
          × SameOutside ((ele, ps) ∷ xs) h a.heap)
        (scheduler_add_process ele l h ps)
unfolding scheduler_add_process
scheduler_add_process-append ele {l} {h} ps {xs = []} is ne out =
    let got : (ele == null) ≡ false = ground arith in
    rw (got, is.start)
      (returns (
        refl,
        record { start = refl; end = refl; chain = (ne, ground arith, refl, tt) },
        λ b o. ground arith,
      ))
scheduler_add_process-append ele {l} {h} ps {xs = (a, pa) ∷ xs} is ne out =
    let got : (ele == null) ≡ false = ground arith in
    let taken : (l.start == null) ≡ false = ground (arith, is.chain.0) in
    let h' = write h ele (some (cell null ps)) in
    let before = Chain-write h null ele (some (cell null ps)) ((a, pa) ∷ xs) is.chain out in
    rw (got, taken, is.end)
      (Returns-and_then _ (relink h' null a pa ele xs before) λ g (chain, same).
        let tail : g ele ≡ some (cell null ps) = same ele out ∙ ground arith in
        returns (
          refl,
          record {
            start = is.start;
            end = sym (last_or-append a xs ((ele, ps) ∷ []));
            chain =
                Chain-append g null ((a, pa) ∷ xs) ((ele, ps) ∷ []) chain (ne, tail, refl, tt)
                  (apart ele ps ((a, pa) ∷ xs) out);
          },
          λ b o. same b (ground arith) ∙ ground arith,
        ))

-- Without memory the list stays as it is.
pub scheduler_add_process-null :
    (l : PsList) (h : Heap) (ps : ℕ)
    → scheduler_add_process null l h ps ≡ ok (record { done = false; pss = l; heap = h })
unfolding scheduler_add_process
scheduler_add_process-null l h ps = refl

-- The process of the first cell.
abbrev pub process_or : ℕ → Cells → ℕ
process_or d [] = d
process_or d ((a, ps) ∷ xs) = ps

abbrev Turned : Scheduler → ℕ → ℕ → Cells → ℕ × Scheduler → Type 0
Turned s a ps xs (run, s') =
    IsPsList s'.heap s'.runnable_pss (xs ++ (a, ps) ∷ [])
    × (run ≡ process_or ps xs)
    × (s'.zombie_pss ≡ s.zombie_pss)
    × SameOutside ((a, ps) ∷ xs) s.heap s'.heap

-- The same list, with its fields read off the cells.
abbrev with_list : Scheduler → ℕ → Cells → Scheduler
with_list s a xs = record s { runnable_pss = record { start = a; end = last_or a xs } }

set_next-ok :
    (h : Heap) (a next ps q : ℕ)
    → a ≢ null
    → h a ≡ some (cell next ps)
    → set_next h a q ≡ ok (write h a (some (cell q ps)))
unfolding set_next
set_next-ok h a next ps q ne e = rw (load-ok h a next ps ne e) refl

load-start :
    {h : Heap} {l : PsList} {a ps : ℕ} {xs : Cells}
    → IsPsList h l ((a, ps) ∷ xs)
    → load h l.start ≡ ok (cell (first_or null xs) ps)
load-start {h} {l} {a} {ps} {xs} is =
    ap (λ p. load h p) is.start ∙ load-ok h a (first_or null xs) ps is.chain.0 is.chain.1

rotate-turn :
    (s : Scheduler) (a ps b pb : ℕ) (xs : Cells)
    → Chain s.heap null ((a, ps) ∷ (b, pb) ∷ xs)
    → Returns
        (λ s'.
          IsPsList s'.heap s'.runnable_pss ((b, pb) ∷ (xs ++ (a, ps) ∷ []))
          × (s'.zombie_pss ≡ s.zombie_pss)
          × SameOutside ((a, ps) ∷ (b, pb) ∷ xs) s.heap s'.heap)
        (rotate (with_list s a ((b, pb) ∷ xs)) a b)
unfolding rotate
rotate-turn s a ps b pb xs (ne, e, out, c) =
    let h' = write s.heap a (some (cell null ps)) in
    let before = Chain-write s.heap null a (some (cell null ps)) ((b, pb) ∷ xs) c out in
    rw (set_next-ok s.heap a b ps null ne e) (
      Returns-and_then _ (relink h' null b pb a xs before) λ g (chain, same).
        let tail : g a ≡ some (cell null ps) = same a out ∙ ground arith in
        returns (
          record {
            start = refl;
            end = sym (last_or-append b xs ((a, ps) ∷ []));
            chain =
                Chain-append g null ((b, pb) ∷ xs) ((a, ps) ∷ []) chain (ne, tail, refl, tt)
                  (apart a ps ((b, pb) ∷ xs) out);
          },
          refl,
          λ d o. same d (ground arith) ∙ ground arith,
        ))

turns :
    (s : Scheduler) (a ps : ℕ) (xs : Cells)
    → Chain s.heap null ((a, ps) ∷ xs)
    → ps ≢ null
    → Returns (Turned s a ps xs) (scheduler_get_and_rotate_runnable_process (with_list s a xs))
unfolding scheduler_get_and_rotate_runnable_process
turns s a ps [] (ne, e, out, c) np =
    let first : (a == null) ≡ false = ground arith in
    let some_ps : (ps == null) ≡ false = ground arith in
    let read = load-ok s.heap a null ps ne e in
    rw (first, read, some_ps, read)
      (returns
        (record { start = refl; end = refl; chain = (ne, e, out, c) }, refl, refl, λ d o. refl))
turns s a ps ((b, pb) ∷ xs) (ne, e, out, c) np =
    let first : (a == null) ≡ false = ground arith in
    let some_ps : (ps == null) ≡ false = ground arith in
    let more : (b == null) ≡ false = ground (arith, c.0) in
    rw (first, load-ok s.heap a b ps ne e, some_ps, more)
      (Returns-and_then _ (rotate-turn s a ps b pb xs (ne, e, out, c)) λ s' (is, zombies, same).
        rw (load-start {xs = xs ++ (a, ps) ∷ []} is) (returns (is, refl, zombies, same)))

-- The scheduler's turn: the process at the head goes to the end of the list, behind all others,
-- and the new head is the one to run. No cell but those of the list is written.
pub scheduler_rotates :
    (s : Scheduler) (a ps : ℕ) {xs : Cells}
    → IsPsList s.heap s.runnable_pss ((a, ps) ∷ xs)
    → ps ≢ null
    → Returns
        (λ (run, s').
          IsPsList s'.heap s'.runnable_pss (xs ++ (a, ps) ∷ [])
          × (run ≡ process_or ps xs)
          × (s'.zombie_pss ≡ s.zombie_pss)
          × SameOutside ((a, ps) ∷ xs) s.heap s'.heap)
        (scheduler_get_and_rotate_runnable_process s)
scheduler_rotates s a ps {xs} is ne =
    subst
      (λ (l : PsList).
        Returns (Turned s a ps xs)
          (scheduler_get_and_rotate_runnable_process (record s { runnable_pss = l })))
      (λ i. record { start = sym is.start i; end = sym is.end i }) (turns s a ps xs is.chain ne)
