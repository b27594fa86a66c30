-- ===== src/Syscall/Descriptors.antt =====
-- syscall.c: the file descriptors that the system calls use.
use aenix.Base.{
  ℕ, zero, suc, ◌+◌, ◌≡◌, ◌≤◌, ◌<◌, ◌⊎◌, ◌↔◌, refl, ap, ◌∙◌, List, [], ◌∷◌, Option, none, some,
  arith, inl, inr, length, get_elem?, le_cases, le→leb, lt→leb,
}
use aenix.Process.Data.{Fd}
use aenix.Process.Steps.{Calls}
use aenix.Syscall.{
  SyscallCalls, Sys, Outcome, returns, schedules, snapshots, out_of_table, next_fd_loop,
  get_next_fd, read_from, write_to, sys_read, sys_write,
}

abbrev pub IsOpen : List (Option Fd) → ℕ → Type 0
IsOpen fds i = (fd : Fd) × (get_elem? fds i ≡ some (some fd))

-- The first free descriptor of a table.
pub record IsFirstFree (fds : List (Option Fd)) (i : ℕ) : Type 0 where
  pub bound : i < length fds
  pub free : get_elem? fds i ≡ some none
  pub before : (j : ℕ) → j < i → IsOpen fds j

next_fd_loop-first :
    (fds : List (Option Fd)) (start : ℕ)
    → ((next_fd_loop fds start ≡ none) × ((j : ℕ) → j < length fds → IsOpen fds j))
      ⊎ ((i : ℕ) × (next_fd_loop fds start ≡ some (start + i)) × IsFirstFree fds i)
unfolding next_fd_loop
next_fd_loop-first [] start = inl (refl, λ j lt. absurd (omega arith))
next_fd_loop-first (none ∷ fds) start = inr (
  0,
  ap some (omega arith),
  record { bound = omega arith; free = refl; before = λ j lt. absurd (omega arith) },
)
next_fd_loop-first (some fd ∷ fds) start = elim (next_fd_loop-first fds (start + 1)) [
  | inl full ↦ inl (full.0, open_first fd fds (length fds) full.1)
  | inr (i, e, is) ↦ inr (
    suc i,
    e ∙ ap some (omega arith),
    record {
      bound = ground (arith, is.bound);
      free = is.free;
      before = open_first fd fds i is.before;
    },
  )
]
  where
    open_first :
        (fd : Fd) (fds : List (Option Fd)) (n : ℕ)
        → ((j : ℕ) → j < n → IsOpen fds j)
        → (j : ℕ) → j < suc n
        → IsOpen (some fd ∷ fds) j
    open_first fd fds n rest zero lt = (fd, refl)
    open_first fd fds n rest (suc j) lt = rest j (omega arith)

-- `get_next_fd` gives the first free descriptor, which lies in the table, or -1 where all of the
-- table is open.
pub get_next_fd-first :
    (fds : List (Option Fd))
    → ((get_next_fd fds ≡ none) × ((j : ℕ) → j < length fds → IsOpen fds j))
      ⊎ ((i : ℕ) × (get_next_fd fds ≡ some i) × IsFirstFree fds i)
unfolding get_next_fd
get_next_fd-first fds = elim (next_fd_loop-first fds 0) [
  | inl full ↦ inl full
  | inr (i, e, is) ↦ inr (i, e ∙ ap some (omega arith), is)
]

get_elem?-some :
    {A : Type 0} (xs : List A) (i : ℕ) → i < length xs → (a : A) × (get_elem? xs i ≡ some a)
get_elem?-some [] i lt = absurd (omega arith)
get_elem?-some (a ∷ xs) zero lt = (a, refl)
get_elem?-some (a ∷ xs) (suc i) lt = get_elem?-some xs i (omega arith)

get_elem?-none : {A : Type 0} (xs : List A) (i : ℕ) → length xs ≤ i → get_elem? xs i ≡ none
get_elem?-none [] i le = refl
get_elem?-none (a ∷ xs) zero le = absurd (omega arith)
get_elem?-none (a ∷ xs) (suc i) le = get_elem?-none xs i (omega arith)

-- Whether a call reads a descriptor behind the end of the table.
abbrev pub Overruns : {S : Type 0} → Outcome S → Type 0
Overruns (returns eax s) = ⊥
Overruns (schedules s) = ⊥
Overruns (snapshots s) = ⊥
Overruns (out_of_table s) = Unit

module _ {S : Type 0} (k : Calls S) (x : SyscallCalls S) where
  read_from-inside :
      (entry : Option Fd) (buf count : ℕ) (s : Sys S)
      → ¬ Overruns (read_from k x (some entry) buf count s)
  unfolding read_from
  read_from-inside none buf count s h = h
  read_from-inside (some fd) buf count s h = h

  write_to-inside :
      (entry : Option Fd) (str len : ℕ) (s : Sys S)
      → ¬ Overruns (write_to k x (some entry) str len s)
  unfolding write_to
  write_to-inside none str len s h = h
  write_to-inside (some fd) str len s h = h

  module _ (stack : ℕ) (s : Sys S) (full : length s.ps.file_descriptors ≡ 64) where
    -- `sys_read` compares its descriptor with the length of the table, and never reads behind it.
    pub sys_read-bounds : ¬ Overruns (sys_read k x stack s)
    unfolding sys_read
    sys_read-bounds h =
        let fd = x.word_at stack s.rest in
        elim (le_cases 64 fd) [
          | inl le ↦ let test = le→leb 64 fd le in absurd (rw test at h)
          | inr lt ↦
              let test = lt→leb 64 fd lt in
              let (entry, e) = get_elem?-some s.ps.file_descriptors fd (omega (arith, full)) in
              read_from-inside entry _ _ s (rw (test, e) at h)
        ]

    -- `sys_write` does not: it reads behind the table for every descriptor that is not in it, and
    -- for no other.
    pub sys_write-Overruns : Overruns (sys_write k x stack s) ↔ (64 ≤ x.word_at stack s.rest)
    unfolding sys_write write_to
    sys_write-Overruns =
        let fd = x.word_at stack s.rest in
        (
          λ h. elim (le_cases 64 fd) [
            | inl le ↦ le
            | inr lt ↦
                let (entry, e) = get_elem?-some s.ps.file_descriptors fd (omega (arith, full)) in
                absurd (write_to-inside entry _ _ s (rw e at h))
          ],
          λ le. rw (get_elem?-none s.ps.file_descriptors fd (omega (arith, full))) tt,
        )
