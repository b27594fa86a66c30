-- ===== src/Vfs/Walk.antt =====
-- vfs.c: the loop of `vfs_lookup` takes a path apart at its slashes.
use mathlib.Core.List.{append-nil}
use aenix.Base.{
  ℕ, zero, suc, ◌+◌, ◌^◌, ◌<◌, ◌≡◌, refl, ap, sym, ◌∙◌, true, false, List, [], ◌∷◌, ◌++◌, Option,
  ◌==◌, arith, length, take, drop, take-length, length-append,
}
use aenix.CString.{Str, strlen, strlen_loop, strcspn}
use aenix.CString.Compare.{strlen-length}
use aenix.CString.Span.{none_of, strcspn-prefix}
use aenix.Vfs.{Vnode, Lookup, found, and_then, slash, lookup_loop}

-- The path of the names, with a slash between two.
abbrev pub join : List Str → Str
join [] = []
join (n ∷ []) = n
join (n ∷ n' ∷ ns) = n ++ slash ∷ join (n' ∷ ns)

-- No name has a slash, and the last is not empty.
abbrev pub AreNames : List Str → Type 0
AreNames [] = Unit
AreNames (n ∷ []) = (none_of (slash ∷ []) n ≡ true) × (0 < length n)
AreNames (n ∷ n' ∷ ns) = (none_of (slash ∷ []) n ≡ true) × AreNames (n' ∷ ns)

-- One lookup for each name, from directory to directory.
abbrev pub walk : (Vnode → Str → Option Vnode) → List Str → Vnode → Lookup
walk vn_lookup [] v = found v
walk vn_lookup (n ∷ ns) v = and_then (vn_lookup v n) λ v'. walk vn_lookup ns v'

take_append : (n q : Str) → take (length n) (n ++ q) ≡ n
take_append [] q = ground arith
take_append (c ∷ n) q = ap (λ s. c ∷ s) (take_append n q)

drop_append : (n : Str) (c : ℕ) (q : Str) → drop (length n + 1) (n ++ c ∷ q) ≡ q
drop_append [] c q = ground arith
drop_append (d ∷ n) c q =
    let next : suc (length n) + 1 ≡ suc (length n + 1) = omega arith in rw next (drop_append n c q)

drop_all : (n : Str) → drop (length n) n ≡ []
drop_all [] = ground arith
drop_all (c ∷ n) = drop_all n

strcspn_name :
    (n : Str)
    → length n < 2 ^ 32
    → none_of (slash ∷ []) n ≡ true
    → strcspn n (slash ∷ []) ≡ length n
strcspn_name n lt name =
    ap (λ s. strcspn s (slash ∷ [])) (sym (append-nil n))
    ∙ strcspn-prefix n [] (slash ∷ []) lt name refl

module _ (vn_lookup : Vnode → Str → Option Vnode) (vfs_root : ℕ → Option Vnode) where
  last_name :
      (fuel : ℕ) (n : Str) (v : Vnode)
      → none_of (slash ∷ []) n ≡ true
      → 0 < length n
      → length n < 2 ^ 32
      → lookup_loop vn_lookup vfs_root (suc (suc fuel)) n v ≡ walk vn_lookup (n ∷ []) v
  unfolding lookup_loop strlen strlen_loop
  last_name fuel n v name ne lt =
      let some_left : (length n == 0) ≡ false = grind arith in
      let end : (length n == length n) ≡ true = ground arith in
      rw (strlen-length n lt, strcspn_name n lt name, some_left, end, drop_all n, take-length n)
        refl

  more_names :
      (fuel : ℕ) (n q : Str) (v : Vnode)
      → none_of (slash ∷ []) n ≡ true
      → length (n ++ slash ∷ q) < 2 ^ 32
      → lookup_loop vn_lookup vfs_root (suc fuel) (n ++ slash ∷ q) v
        ≡ and_then (vn_lookup v n) λ v'. lookup_loop vn_lookup vfs_root fuel q v'
  unfolding lookup_loop
  more_names fuel n q v name lt =
      let len : strlen (n ++ slash ∷ q) ≡ length n + suc (length q) =
        strlen-length _ lt ∙ length-append n (slash ∷ q) in
      let at : strcspn (n ++ slash ∷ q) (slash ∷ []) ≡ length n =
        strcspn-prefix n (slash ∷ q) (slash ∷ []) (omega (arith, lt, length-append n (slash ∷ q)))
          name refl in
      let before : (length n == length n + suc (length q)) ≡ false = grind arith in
      let some_left : (length n + suc (length q) == 0) ≡ false = grind arith in
      rw (len, at, before, some_left, take_append n (slash ∷ q), drop_append n slash q) refl

  -- The loop of `vfs_lookup` looks up the names of the path one after the other, each in what the
  -- one before led to, and fails with the first that fails. It takes fewer rounds than the path
  -- has bytes, and one more to end.
  pub lookup_loop-walk :
      (fuel : ℕ) (ns : List Str) (v : Vnode)
      → AreNames ns
      → length (join ns) < 2 ^ 32
      → length (join ns) < fuel
      → lookup_loop vn_lookup vfs_root fuel (join ns) v ≡ walk vn_lookup ns v
  unfolding lookup_loop strlen strlen_loop
  lookup_loop-walk zero ns v are lt le = ground arith
  lookup_loop-walk (suc fuel) [] v are lt le = refl
  lookup_loop-walk (suc zero) (n ∷ []) v (name, ne) lt le = absurd (omega arith)
  lookup_loop-walk (suc (suc fuel)) (n ∷ []) v (name, ne) lt le = last_name fuel n v name ne lt
  lookup_loop-walk (suc fuel) (n ∷ n' ∷ ns) v (name, are) lt le =
      let len = length-append n (slash ∷ join (n' ∷ ns)) in
      more_names fuel n (join (n' ∷ ns)) v name lt
      ∙ ap (λ k. and_then (vn_lookup v n) k)
          (λ i v'.
            lookup_loop-walk fuel (n' ∷ ns) v' are (omega (arith, len)) (omega (arith, len)) i)
