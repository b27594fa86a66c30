-- ===== src/Vfs/Mount.antt =====
-- vfs.c: which of the mounted file systems a path leads to.
use aenix.Base.{
  ℕ, zero, suc, ◌≤◌, ◌≡◌, ◌⊎◌, refl, ap, sym, subst, List, [], ◌∷◌, none, some, inl, inr, arith,
  le_cases, lt→ltb, le→ltb, get_elem?,
}
use aenix.CString.{Str}
use aenix.Vfs.{Mounted, common_prefix, Longest, longest_loop, find_longest_mount_path}

-- The root is one of the mounted file systems, and shares `max_len` bytes with the path.
pub record Attains (path : Str) (ms : List Mounted) (best : Longest) : Type 0 where
  pub m : Mounted
  pub root : best.root ≡ some m
  pub k : ℕ
  pub mounted : get_elem? ms k ≡ some m
  pub shares : common_prefix path m.mount_path ≡ best.max_len

module _ (path : Str) where
  longest_loop-grows :
      (ms : List Mounted) (best : Longest) → best.max_len ≤ (longest_loop path ms best).max_len
  unfolding longest_loop
  longest_loop-grows [] best = ground arith
  longest_loop-grows (m ∷ ms) best =
      elim (le_cases (common_prefix path m.mount_path) best.max_len) [
        | inl le ↦ rw (longest_loop, le→ltb best.max_len _ le) (longest_loop-grows ms best)
        | inr lt ↦
            let next : Longest = record {
              max_len = common_prefix path m.mount_path;
              root = some m;
            } in
            rw (longest_loop, lt→ltb best.max_len _ lt) (ground (arith, longest_loop-grows ms next))
      ]

  longest_loop-bound :
      (ms : List Mounted) (best : Longest) (k : ℕ) (m : Mounted)
      → get_elem? ms k ≡ some m
      → common_prefix path m.mount_path ≤ (longest_loop path ms best).max_len
  unfolding longest_loop
  longest_loop-bound [] best k m i = ground arith
  longest_loop-bound (m' ∷ ms) best (suc k) m i = longest_loop-bound ms _ k m i
  longest_loop-bound (m' ∷ ms) best zero m i =
      elim (le_cases (common_prefix path m'.mount_path) best.max_len) [
        | inl le ↦
            let same : m' ≡ m = ground arith in
            rw (longest_loop, le→ltb best.max_len _ le)
              (subst
                (λ (x : Mounted).
                  common_prefix path x.mount_path ≤ (longest_loop path ms best).max_len)
                same (ground (arith, longest_loop-grows ms best)))
        | inr lt ↦
            let same : m' ≡ m = ground arith in
            let next : Longest = record {
              max_len = common_prefix path m'.mount_path;
              root = some m';
            } in
            rw (longest_loop, lt→ltb best.max_len _ lt)
              (subst
                (λ (x : Mounted).
                  common_prefix path x.mount_path ≤ (longest_loop path ms next).max_len)
                same (longest_loop-grows ms next))
      ]

  longest_loop-Attains :
      (ms : List Mounted) (best : Longest)
      → (longest_loop path ms best ≡ best) ⊎ Attains path ms (longest_loop path ms best)
  unfolding longest_loop
  longest_loop-Attains [] best = inl refl
  longest_loop-Attains (m ∷ ms) best =
      elim (le_cases (common_prefix path m.mount_path) best.max_len) [
        | inl le ↦ rw (le→ltb best.max_len _ le) (later best (longest_loop-Attains ms best))
        | inr lt ↦
            let next : Longest = record {
              max_len = common_prefix path m.mount_path;
              root = some m;
            } in
            rw (lt→ltb best.max_len _ lt) (elim (longest_loop-Attains ms next) [
              | inl e ↦ inr (record {
                m = m;
                root = ap (λ (b : Longest). b.root) e;
                k = 0;
                mounted = refl;
                shares = sym (ap (λ (b : Longest). b.max_len) e);
              })
              | inr a ↦ inr (record {
                m = a.m;
                root = a.root;
                k = suc a.k;
                mounted = a.mounted;
                shares = a.shares;
              })
            ])
      ]
    where
      later :
          (b : Longest)
          → (longest_loop path ms b ≡ b) ⊎ Attains path ms (longest_loop path ms b)
          → (longest_loop path ms b ≡ b) ⊎ Attains path (m ∷ ms) (longest_loop path ms b)
      later b (inl e) = inl e
      later b (inr a) =
          inr
            (record { m = a.m; root = a.root; k = suc a.k; mounted = a.mounted; shares = a.shares })

-- `find_longest_mount_path` gives the largest number of bytes that the path shares with the
-- beginning of a mount path, and, unless it is 0, a file system whose mount path shares them.
pub find_longest_mount_path_lem :
    (path : Str) (ms : List Mounted)
    → ((k : ℕ) (m : Mounted)
        → get_elem? ms k ≡ some m
        → common_prefix path m.mount_path ≤ (find_longest_mount_path path ms).max_len)
      × (((find_longest_mount_path path ms).max_len ≡ 0)
          ⊎ Attains path ms (find_longest_mount_path path ms))
unfolding find_longest_mount_path
find_longest_mount_path_lem path ms =
    let start : Longest = record { max_len = 0; root = none } in
    (
      longest_loop-bound path ms start,
      elim (longest_loop-Attains path ms start) [
        | inl e ↦ inl (ap (λ (b : Longest). b.max_len) e)
        | inr a ↦ inr a
      ],
    )
