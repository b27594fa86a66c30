-- ===== src/Scheduler/Remove.antt =====
-- scheduler.c: `scheduler_remove_process` takes the first process with the id out of its list.
use aenix.Base.{
  ℕ, zero, suc, ◌<◌, ◌≡◌, ◌≢◌, refl, ap, sym, subst, ◌∙◌, Bool, true, false, not, ◌&&◌, ◌||◌, [],
  ◌∷◌, ◌++◌, none, some, arith, ◌==◌, length,
}
use aenix.Scheduler.Lists.{
  Procs, PsList, Heap, ok, fault, null, load, set_next, bypass, trim, unlink, has_id, remove_loop,
  scheduler_remove_process,
}
use aenix.Scheduler.Chain.{
  Returns, Cells, cell, first_or, last_or, Chain, SameOutside, IsPsList, load-ok,
}
use aenix.Scheduler.Unlink.{Left, unlink-first, unlink-middle, unlink-last}

abbrev pub matches : Procs → ℕ → ℕ → Bool
matches procs pid ps = not (ps == null) && ((procs ps).id == pid)

-- Whether a process of the cells has the id.
abbrev pub any_matches : Procs → ℕ → Cells → Bool
any_matches procs pid [] = false
any_matches procs pid ((a, ps) ∷ xs) = matches procs pid ps || any_matches procs pid xs

module _ (procs : Procs) (pid : ℕ) (l : PsList) (h : Heap) where
  search_found :
      (fuel prev : ℕ) (zs : Cells) (a ps : ℕ) (ys : Cells)
      → Chain h null (zs ++ (a, ps) ∷ ys)
      → any_matches procs pid zs ≡ false
      → matches procs pid ps ≡ true
      → length zs < fuel
      → remove_loop fuel procs pid l h prev (first_or null (zs ++ (a, ps) ∷ ys))
        ≡ unlink l h (last_or prev zs) a (cell (first_or null ys) ps)
  unfolding remove_loop has_id
  search_found zero prev zs a ps ys c miss hit le = ground arith
  search_found (suc fuel) prev [] a ps ys (ne, e, out, c) miss hit le =
      let here : (a == null) ≡ false = ground arith in
      rw (here, load-ok h a (first_or null ys) ps ne e, hit) refl
  search_found (suc fuel) prev ((b, pb) ∷ zs) a ps ys (ne, e, out, c) miss hit le =
      let here : (b == null) ≡ false = ground arith in
      let other : matches procs pid pb ≡ false = ground arith in
      rw (here, load-ok h b (first_or null (zs ++ (a, ps) ∷ ys)) pb ne e, other)
        (search_found fuel b zs a ps ys c (ground arith) hit (ground arith))

  search_missing :
      (fuel prev : ℕ) (zs : Cells)
      → Chain h null zs
      → any_matches procs pid zs ≡ false
      → length zs < fuel
      → remove_loop fuel procs pid l h prev (first_or null zs)
        ≡ ok (record { removed = none; pss = l; heap = h })
  unfolding remove_loop has_id
  search_missing zero prev zs c miss le = ground arith
  search_missing (suc fuel) prev [] c miss le = refl
  search_missing (suc fuel) prev ((b, pb) ∷ zs) (ne, e, out, c) miss le =
      let here : (b == null) ≡ false = ground arith in
      let other : matches procs pid pb ≡ false = ground arith in
      rw (here, load-ok h b (first_or null zs) pb ne e, other)
        (search_missing fuel b zs c (ground arith) (ground arith))

-- Where no process of the list has the id, the search ends, and nothing changes.
pub scheduler_remove_process-missing :
    (fuel : ℕ) (procs : Procs) (pid : ℕ) {l : PsList} {h : Heap} {xs : Cells}
    → IsPsList h l xs
    → any_matches procs pid xs ≡ false
    → length xs < fuel
    → scheduler_remove_process fuel procs pid l h
      ≡ ok (record { removed = none; pss = l; heap = h })
unfolding scheduler_remove_process
scheduler_remove_process-missing fuel procs pid {l} {h} {xs} is miss le =
    ap (λ p. remove_loop fuel procs pid l h null p) is.start
    ∙ search_missing procs pid l h fuel null xs is.chain miss le

unlinked :
    (l : PsList) (h : Heap) (xs : Cells) (a ps : ℕ) (ys : Cells)
    → IsPsList h l (xs ++ (a, ps) ∷ ys)
    → xs ++ ys ≢ []
    → Returns (Left h a ps xs ys) (unlink l h (last_or null xs) a (cell (first_or null ys) ps))
unlinked l h [] a ps [] is ne = absurd (ne refl)
unlinked l h [] a ps ((b, pb) ∷ ys) is ne = unlink-first l h a ps b pb ys is
unlinked l h ((c, pc) ∷ xs) a ps [] is ne = unlink-last l h c pc a ps xs is
unlinked l h ((c, pc) ∷ xs) a ps ((b, pb) ∷ ys) is ne = unlink-middle l h c pc a ps b pb xs ys is

-- `scheduler_remove_process` takes the first process with the id out of its list and frees its
-- cell: the other processes stay in their order, and no cell outside the list is written. The
-- process must not be the only one of the list, and the fuel more than the processes before it.
pub scheduler_remove_process-removes :
    (fuel : ℕ) (procs : Procs) (pid : ℕ) {l : PsList} {h : Heap} (xs : Cells) (a ps : ℕ)
    (ys : Cells)
    → IsPsList h l (xs ++ (a, ps) ∷ ys)
    → any_matches procs pid xs ≡ false
    → matches procs pid ps ≡ true
    → xs ++ ys ≢ []
    → length xs < fuel
    → Returns
        (λ r.
          (r.removed ≡ some ps)
          × IsPsList r.heap r.pss (xs ++ ys)
          × (r.heap a ≡ none)
          × SameOutside (xs ++ (a, ps) ∷ ys) h r.heap)
        (scheduler_remove_process fuel procs pid l h)
unfolding scheduler_remove_process
scheduler_remove_process-removes fuel procs pid {l} {h} xs a ps ys is miss hit ne le =
    subst (Returns (Left h a ps xs ys))
      (sym (
        ap (λ p. remove_loop fuel procs pid l h null p) is.start
        ∙ search_found procs pid l h fuel null xs a ps ys is.chain miss hit le))
      (unlinked l h xs a ps ys is ne)

-- Where the process with the id is the only one of its list, `scheduler_remove_process` writes through a NULL `prev`.
pub scheduler_remove_process-only :
    (fuel : ℕ) (procs : Procs) (pid : ℕ) {l : PsList} {h : Heap} (a ps : ℕ)
    → IsPsList h l ((a, ps) ∷ [])
    → matches procs pid ps ≡ true
    → 0 < fuel
    → scheduler_remove_process fuel procs pid l h ≡ fault
unfolding scheduler_remove_process unlink bypass trim set_next load
scheduler_remove_process-only fuel procs pid {l} {h} a ps is hit le =
    let here : (l.end == a) ≡ true = ground (arith, is.end) in
    ap (λ p. remove_loop fuel procs pid l h null p) is.start
    ∙ search_found procs pid l h fuel null [] a ps [] is.chain refl hit le
    ∙ rw here refl
