-- ===== src/Process/Lists.antt =====
-- process.c: copying the lists of page frames of a process.
use aenix.Base.{
  ℕ, ◌*◌, ◌≡◌, refl, ap₂, sym, subst, ◌∙◌, Bool, true, false, List, [], ◌∷◌, map, none, some, arith,
  add32, mul32,
}
use aenix.Process.Data.{PaddrEle}
use aenix.Process.Steps.{Calls, handle, nonzero, pure}
use aenix.Process.Ends.{
  Ends, success, failure, Ends-handle, Ends-bind, Ends-nonzero, Ends-unless, Ends-run, Ends-none,
}
use aenix.Process.Frames.{Counted, counted, Net, at, none_at, frames_of}
use aenix.Process.Copy.{copy_frames, map_frames, process_copy_paddr_list}
use aenix.Process.Load.{delete_paddr_list}
use aenix.Process.Delete.{Frees, delete_paddr_list-Frees}
use aenix.Process.Parts.{allocate-Ends}

abbrev pub counts : List PaddrEle → List ℕ
counts = map (λ e. e.count)

module _ {S : Type 0} (k : Calls S) where
  -- From `c` on: the frames of the list are taken, or the copy breaks, and a run is given back
  -- that may still be in the list.
  pub data Copies (c : Counted S) (from : List PaddrEle)
      : (Bool × List PaddrEle) × Counted S → Type 0 where
    copied :
        {to : List PaddrEle} {c' : Counted S}
        → counts to ≡ counts from
        → Net c c' (frames_of to) none_at
        → Copies c from ((false, to), c')
    broken :
        {to : List PaddrEle} {c' : Counted S} (q n : ℕ)
        → Net c c' (frames_of to) (at q n)
        → Copies c from ((true, to), c')

  -- A call whose failure gives the frames back.
  or_free-Ends :
      (c0 c : Counted S) (paddr n : ℕ) (f : Counted S → ℕ × Counted S)
      → Net c0 (f c).1 (at paddr n) none_at
      → Ends
          (λ a c'. Net c0 c' (at paddr n) none_at)
          (λ c'. Net c0 c' none_at none_at)
          (handle (nonzero f c) pure (λ s'. (none, (counted k).pfa_free_cont paddr n s')))
  or_free-Ends c0 c paddr n f net =
      let keeps : Counted S → Type 0 = λ c'. Net c0 c' (at paddr n) none_at in
      Ends-handle (Ends (λ a c'. Net c0 c' (at paddr n) none_at) (λ c'. Net c0 c' none_at none_at))
        pure _
        (Ends-nonzero (λ a c'. Net c0 c' (at paddr n) none_at) keeps f c (λ ne. net) (λ e. net))
        (λ a c' net'. success net') (λ c' net'. failure (λ p. omega (arith, net' p)))

  copy_frames-Ends :
      (vaddr count : ℕ) (c : Counted S)
      → Ends
          (λ e c'. (e.count ≡ count) × Net c c' (at e.paddr e.count) none_at)
          (λ c'. Net c c' none_at none_at)
          (copy_frames (counted k) vaddr count c)
  unfolding copy_frames
  copy_frames-Ends vaddr count c = Ends-bind _ _ _ (allocate-Ends k count c) λ paddr c1 (ne, net1).
      Ends-bind _ _ _ (or_free-Ends c c1 paddr count _ net1) λ kernel_vaddr c2 net2.
        Ends-bind _ _ _
          (Ends-unless (λ u c'. Net c c' (at paddr count) none_at) _ _ _ _ c2 (λ e. net2)
            (λ e p. omega (arith, net2 p)))
          λ u c3 net3.
            Ends-bind _ _ _ (Ends-run (λ u' c'. Net c c' (at paddr count) none_at) _ _ c3 net3)
              λ u' c4 net4.
                Ends-bind _ _ _ (Ends-run (λ u' c'. Net c c' (at paddr count) none_at) _ _ c4 net4)
                  λ u'' c5 net5.
                    Ends-bind _ _ _ (or_free-Ends c c5 paddr count _ net5)
                      λ ele c6 net6. success (refl, net6)

  map_frames-Ends :
      (pdt vaddr : ℕ) (e : PaddrEle) (c : Counted S)
      → Ends
          (λ u c'. Net c c' none_at none_at)
          (λ c'. Net c c' none_at (at e.paddr e.count))
          (map_frames (counted k) pdt vaddr e c)
  unfolding map_frames
  map_frames-Ends pdt vaddr e c = Ends-unless _ _ _ _ _ c (λ fits p. refl) (λ bad p. omega arith)

  Copies-more :
      (c c1 : Counted S) (e : PaddrEle) (from : List PaddrEle) (p : PaddrEle)
      {r : (Bool × List PaddrEle) × Counted S}
      → p.count ≡ e.count
      → Net c c1 (at e.paddr e.count) none_at
      → Copies c1 from r
      → Copies c (p ∷ from) ((r.0.0, e ∷ r.0.1), r.1)
  Copies-more c c1 e from p same net (copied counts' net') =
      copied (ap₂ (◌∷◌) (sym same) counts') (λ p. omega (arith, net p, net' p))
  Copies-more c c1 e from p same net (broken q n net') =
      broken q n (λ p. omega (arith, net p, net' p))

  pub process_copy_paddr_list-Owns :
      (pdt vaddr : ℕ) (from : List PaddrEle) (c : Counted S)
      → Copies c from (process_copy_paddr_list (counted k) pdt vaddr from c)
  unfolding process_copy_paddr_list
  process_copy_paddr_list-Owns pdt vaddr [] c = copied refl (λ p. refl)
  process_copy_paddr_list-Owns pdt vaddr (p ∷ from) c =
      Ends-handle (Copies c (p ∷ from)) _ _ (copy_frames-Ends vaddr p.count c)
        (λ e c1 (same, net1).
          Ends-handle (Copies c (p ∷ from)) _ _ (map_frames-Ends pdt vaddr e c1)
            (λ u c2 net2.
              Copies-more c c2 e from p (sym same) (λ q. omega (arith, net1 q, net2 q))
                (process_copy_paddr_list-Owns pdt (add32 vaddr (mul32 p.count 0x1000)) from c2))
            (λ c2 net2. broken e.paddr e.count (λ q. omega (arith, net1 q, net2 q))))
        (λ c1 net1. broken 0 0 (λ q. ground (arith, net1 q)))

  map_frames-Frees :
      (pdt vaddr : ℕ) (e : PaddrEle) (c : Counted S)
      → Ends
          (λ u c'. Unit {0})
          (λ c'. Frees k c c' (at e.paddr e.count))
          (map_frames (counted k) pdt vaddr e c)
  unfolding map_frames
  map_frames-Frees pdt vaddr e c = Ends-unless _ _ _ _ _ c (λ fits. tt) (λ bad p. (refl, refl))

  -- Where a run was copied but cannot be mapped, the run is given back and stays in the list: it
  -- is given back once more when the process is deleted.
  pub process_copy_paddr_list-twice :
      (pdt vaddr : ℕ) (p : PaddrEle) (from : List PaddrEle) (e : PaddrEle) (c c1 c2 : Counted S)
      → copy_frames (counted k) vaddr p.count c ≡ (some e, c1)
      → map_frames (counted k) pdt vaddr e c1 ≡ (none, c2)
      → Frees k c1
          (delete_paddr_list
            (counted k)
            (process_copy_paddr_list (counted k) pdt vaddr (p ∷ from) c).0.1
            (process_copy_paddr_list (counted k) pdt vaddr (p ∷ from) c).1).1
          (λ q. 2 * at e.paddr e.count q)
  unfolding process_copy_paddr_list handle
  process_copy_paddr_list-twice pdt vaddr p from e c c1 c2 copy fails q =
      let (t1, f1) = Ends-none (subst (Ends _ _) fails (map_frames-Frees pdt vaddr e c1)) q in
      let (t2, f2) = delete_paddr_list-Frees k (e ∷ []) c2 q in
      rw (copy, fails) (t2 ∙ t1, omega (arith, f1, f2))
