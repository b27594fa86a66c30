-- ===== src/Scheduler/Pids.antt =====
-- scheduler.c: the number of the next process, and the counts of the children of a process.
use aenix.Base.{
  ℕ, zero, suc, ◌+◌, ◌-◌, ◌≤◌, ◌<◌, ◌^◌, ◌≡◌, refl, ap, ap₂, ◌∙◌, false, [], ◌∷◌, ◌++◌, arith, ◌==◌,
  if◌then◌else◌, Bool-cases, inl, inr, length, add32,
}
use aenix.Math.{maxu}
use aenix.Scheduler.Lists.{
  Procs, PsList, Heap, ok, null, walk, max_id, max_id_in_ps_list, count_child,
  scheduler_count_children_in_list,
}
use aenix.Scheduler.Chain.{Returns, returns, Cells, first_or, Chain, IsPsList, load-ok}
use aenix.Scheduler.Remove.{matches, any_matches}
use aenix.Scheduler.{Scheduler, scheduler_next_pid, scheduler_num_children}

-- `visit` at every process, from the first to the last.
abbrev fold {ℓ} : {A : Type ℓ} → (ℕ → A → A) → Cells → A → A
fold visit [] a = a
fold visit ((p, ps) ∷ xs) a = fold visit xs (visit ps a)

walk-fold :
    {A : Type 0} (visit : ℕ → A → A) (h : Heap) (fuel : ℕ) (xs : Cells) (a : A)
    → Chain h null xs
    → length xs < fuel
    → walk fuel visit h (first_or null xs) a ≡ ok (fold visit xs a)
unfolding walk
walk-fold visit h zero xs a c le = ground arith
walk-fold visit h (suc fuel) [] a c le = refl
walk-fold visit h (suc fuel) ((b, pb) ∷ xs) a (ne, e, out, c) le =
    let here : (b == null) ≡ false = ground arith in
    rw (here, load-ok h b (first_or null xs) pb ne e)
      (walk-fold visit h fuel xs (visit pb a) c (ground arith))

-- Every process of the cells has an id below `n`.
abbrev pub IdsBelow : ℕ → Procs → Cells → Type 0
IdsBelow n procs [] = Unit
IdsBelow n procs ((a, ps) ∷ xs) = ((procs ps).id < n) × IdsBelow n procs xs

module _ (procs : Procs) where
  max_id_le : (ps max : ℕ) → max ≤ max_id procs ps max
  max_id_le ps max = ground arith

  max_id_hit : (pid ps max : ℕ) → max_id procs ps max < pid → matches procs pid ps ≡ false
  max_id_hit pid ps max lt = ground arith

  fold_le : (xs : Cells) (max : ℕ) → max ≤ fold (max_id procs) xs max
  fold_le [] max = ground arith
  fold_le ((a, ps) ∷ xs) max = ground (arith, max_id_le ps max, fold_le xs (max_id procs ps max))

  fold_below :
      (n : ℕ) (xs : Cells) (max : ℕ)
      → IdsBelow n procs xs
      → max < n
      → fold (max_id procs) xs max < n
  fold_below n [] max below lt = lt
  fold_below n ((a, ps) ∷ xs) max (id, below) lt =
      fold_below n xs (max_id procs ps max) below (ground arith)

  fold_fresh :
      (pid : ℕ) (xs : Cells) (max : ℕ)
      → fold (max_id procs) xs max < pid
      → any_matches procs pid xs ≡ false
  fold_fresh pid [] max lt = refl
  fold_fresh pid ((a, ps) ∷ xs) max lt =
      rw
        (
          fold_fresh pid xs (max_id procs ps max) lt,
          max_id_hit pid ps max (ground (arith, fold_le xs (max_id procs ps max))),
        )
        refl

module _ (procs : Procs) (h : Heap) (fuel : ℕ) where
  max_id-fold :
      {l : PsList} {xs : Cells}
      → IsPsList h l xs
      → length xs < fuel
      → max_id_in_ps_list fuel procs l h ≡ ok (fold (max_id procs) xs 0)
  unfolding max_id_in_ps_list
  max_id-fold {l} {xs} is le =
      ap (λ p. walk fuel (max_id procs) h p 0) is.start
      ∙ walk-fold (max_id procs) h fuel xs 0 is.chain le

  count-fold :
      (pid : ℕ) {l : PsList} {xs : Cells}
      → IsPsList h l xs
      → length xs < fuel
      → scheduler_count_children_in_list fuel procs pid l h ≡ ok (fold (count_child procs pid) xs 0)
  unfolding scheduler_count_children_in_list
  count-fold pid {l} {xs} is le =
      ap (λ p. walk fuel (count_child procs pid) h p 0) is.start
      ∙ walk-fold (count_child procs pid) h fuel xs 0 is.chain le

-- `scheduler_next_pid` returns a number that no runnable and no terminated process has, as long
-- as every id is below 2^32 - 1. The fuel is more than the cells of either list.
pub scheduler_next_pid_fresh :
    (fuel : ℕ) (procs : Procs) (s : Scheduler) (xs zs : Cells)
    → IsPsList s.heap s.runnable_pss xs
    → IsPsList s.heap s.zombie_pss zs
    → length xs < fuel
    → length zs < fuel
    → IdsBelow (2 ^ 32 - 1) procs xs
    → IdsBelow (2 ^ 32 - 1) procs zs
    → Returns
        (λ pid. (0 < pid) × (any_matches procs pid xs ≡ false) × (any_matches procs pid zs ≡ false))
        (scheduler_next_pid fuel procs s)
unfolding scheduler_next_pid maxu
scheduler_next_pid_fresh fuel procs s xs zs runnable zombie le le' below below' =
    let m = fold (max_id procs) xs 0 in
    let n = fold (max_id procs) zs 0 in
    let m_lt : m < 2 ^ 32 - 1 = fold_below procs (2 ^ 32 - 1) xs 0 below (omega arith) in
    let n_lt : n < 2 ^ 32 - 1 = fold_below procs (2 ^ 32 - 1) zs 0 below' (omega arith) in
    let next : add32 (maxu m n) 1 ≡ maxu m n + 1 = ground arith in
    let m_le : m < add32 (maxu m n) 1 = ground arith in
    let n_le : n < add32 (maxu m n) 1 = ground arith in
    rw (max_id-fold procs s.heap fuel runnable le, max_id-fold procs s.heap fuel zombie le')
      (returns (
        ground arith,
        fold_fresh procs (add32 (maxu m n) 1) xs 0 m_le,
        fold_fresh procs (add32 (maxu m n) 1) zs 0 n_le,
      ))

-- How many of the processes have the parent.
abbrev pub children : Procs → ℕ → Cells → ℕ
children procs pid [] = 0
children procs pid ((a, ps) ∷ xs) =
    let rest = children procs pid xs in if (procs ps).parent_id == pid then 1 + rest else rest

fold-children :
    (procs : Procs) (pid : ℕ) (xs : Cells) (n : ℕ)
    → n + length xs < 2 ^ 32
    → fold (count_child procs pid) xs n ≡ n + children procs pid xs
fold-children procs pid [] n lt = ground arith
fold-children procs pid ((a, ps) ∷ xs) n lt = elim (Bool-cases ((procs ps).parent_id == pid)) [
  | inl e ↦
      let next : add32 n 1 ≡ n + 1 = omega arith in
      rw (e, next) (fold-children procs pid xs (n + 1) (omega arith) ∙ ground arith)
  | inr e ↦ rw e (fold-children procs pid xs n (omega arith))
]

children_le : (procs : Procs) (pid : ℕ) (xs : Cells) → children procs pid xs ≤ length xs
children_le procs pid [] = ground arith
children_le procs pid ((a, ps) ∷ xs) = ground (arith, children_le procs pid xs)

children-append :
    (procs : Procs) (pid : ℕ) (xs ys : Cells)
    → children procs pid (xs ++ ys) ≡ children procs pid xs + children procs pid ys
children-append procs pid [] ys = ground arith
children-append procs pid ((a, ps) ∷ xs) ys = ground (arith, children-append procs pid xs ys)

-- `scheduler_num_children` counts the processes of both lists that have the parent, where the
-- lists have fewer than 2^32 cells and the fuel is more than the cells of either.
pub scheduler_num_children-children :
    (fuel : ℕ) (procs : Procs) (s : Scheduler) (pid : ℕ) (xs zs : Cells)
    → IsPsList s.heap s.runnable_pss xs
    → IsPsList s.heap s.zombie_pss zs
    → length xs < fuel
    → length zs < fuel
    → length zs + length xs < 2 ^ 32
    → scheduler_num_children fuel procs s pid ≡ ok (children procs pid (zs ++ xs))
unfolding scheduler_num_children
scheduler_num_children-children fuel procs s pid xs zs runnable zombie le le' lt =
    let zombies = children_le procs pid zs in
    let running = children_le procs pid xs in
    rw (count-fold procs s.heap fuel pid zombie le', count-fold procs s.heap fuel pid runnable le)
      (ap (λ n. ok n)
        (ap₂ (λ m n. add32 m n) (fold-children procs pid zs 0 (omega arith))
            (fold-children procs pid xs 0 (omega arith))
          ∙ ground (arith, children-append procs pid zs xs)))
