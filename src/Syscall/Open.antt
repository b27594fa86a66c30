-- ===== src/Syscall/Open.antt =====
-- syscall.c: what `sys_open` does with the table of file descriptors.
use aenix.Base.{
  ℕ, ◌≡◌, ◌≢◌, ◌<◌, refl, arith, length, Option, none, some, ◌==◌, if◌then◌else◌, Bool-cases, inl,
  inr, set,
}
use aenix.Vfs.{Vnode}
use aenix.Process.Data.{Ps, Fd}
use aenix.Process.Steps.{Calls}
use aenix.Syscall.{
  SyscallCalls, Sys, Outcome, returns, minus_one, get_next_fd, open_at, open_found, sys_open,
}
use aenix.Syscall.Descriptors.{IsOpen, IsFirstFree, get_next_fd-first}

-- A NULL from `kmalloc` leaves the descriptor free.
abbrev pub entry_for : (pointer : ℕ) → Vnode → Option Fd
entry_for pointer vnode =
    if pointer == 0 then none else some (record { pointer = pointer; vnode = vnode })

-- The process is as it was, for want of a file, of a descriptor, or because the file cannot be opened,
-- for which `opened` is not 0; or it has the vnode in its first free descriptor.
pub data Opens {S : Type 0} (opened : Vnode → ℕ) (pointer : ℕ) (found : Option Vnode) (ps : Ps)
    : Outcome S → Type 0 where
  no_file :
      {s : Sys S} → found ≡ none → s.ps ≡ ps → Opens opened pointer found ps (returns minus_one s)
  no_descriptor :
      {s : Sys S}
      → ((j : ℕ) → j < length ps.file_descriptors → IsOpen ps.file_descriptors j)
      → s.ps ≡ ps
      → Opens opened pointer found ps (returns minus_one s)
  not_opened :
      {s : Sys S} (vnode : Vnode)
      → found ≡ some vnode
      → opened vnode ≢ 0
      → s.ps ≡ ps
      → Opens opened pointer found ps (returns minus_one s)
  opens :
      {s : Sys S} (fd : ℕ) (vnode : Vnode)
      → found ≡ some vnode
      → opened vnode ≡ 0
      → IsFirstFree ps.file_descriptors fd
      → s.ps ≡ record ps { file_descriptors = set ps.file_descriptors fd (entry_for pointer vnode) }
      → Opens opened pointer found ps (returns fd s)

module _ {S : Type 0} (k : Calls S) (x : SyscallCalls S) where
  -- What `vn_open` returns in the state `s`.
  abbrev pub open_result : S → Vnode → ℕ
  open_result s vnode = (x.vn_open vnode s).0

  open_at-Opens :
      (pointer : ℕ) (vnode : Vnode) (found : Option Vnode) (s : Sys S)
      → found ≡ some vnode
      → Opens
          (open_result s.rest)
          pointer
          found
          s.ps
          (open_at k x pointer vnode (get_next_fd s.ps.file_descriptors) s)
  unfolding open_at
  open_at-Opens pointer vnode found s e = elim (get_next_fd-first s.ps.file_descriptors) [
    | inl (full, open_all) ↦ rw full (no_descriptor open_all refl)
    | inr (fd, free, is) ↦ elim (Bool-cases ((x.vn_open vnode s.rest).0 == 0)) [
      | inl fine ↦ rw (free, fine) (opens fd vnode e (ground (arith, fine)) is refl)
      | inr error ↦ rw (free, error) (not_opened vnode e (λ z. ground (arith, error, z)) refl)
    ]
  ]

  open_found-Opens :
      (pointer : ℕ) (found : Option Vnode) (s : Sys S)
      → Opens (open_result s.rest) pointer found s.ps (open_found k x pointer found s)
  unfolding open_found
  open_found-Opens pointer none s = no_file refl refl
  open_found-Opens pointer (some vnode) s = open_at-Opens pointer vnode (some vnode) s refl

  -- `sys_open` returns -1 and leaves the process as it was, where the lookup finds no file, where all
  -- of the table is open, or where `vn_open` returns an error. Otherwise it returns the first free
  -- descriptor, which lies in the table, and changes nothing else of the process: with memory from
  -- `kmalloc` the descriptor has the vnode that the lookup found, and without it stays free.
  pub sys_open-Opens :
      (stack : ℕ) (s : Sys S)
      → let looked =
          k.vfs_lookup (x.string_at (x.word_at stack s.rest) s.rest) (k.kmalloc 8 s.rest).1 in
        Opens (open_result looked.1) (k.kmalloc 8 s.rest).0 looked.0 s.ps (sys_open k x stack s)
  unfolding sys_open
  sys_open-Opens stack s = open_found-Opens _ _ _
