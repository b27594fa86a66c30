-- ===== src/Process/Steps.antt =====
-- What process.c calls of other parts of the kernel, over a state that they share, and the steps
-- that may fail. A pointer or an address 0 is a failure.
use aenix.Base.{ℕ, Bool, Option, none, some, ◌==◌, if◌then◌else◌}
use aenix.CString.{Str}
use aenix.Vfs.{Vnode}

-- The result of `vfs_read` is an int, given by its 32 bits. `pdt_create` gives the directory's
-- pointer and its physical address.
pub record Calls (S : Type 0) : Type 0 where
  pub kmalloc : (nbytes : ℕ) → S → ℕ × S
  pub kfree : (ap : ℕ) → S → S
  pub pfa_allocate : (num : ℕ) → S → ℕ × S
  pub pfa_free_cont : (paddr n : ℕ) → S → S
  pub pdt_create : S → (ℕ × ℕ) × S
  pub pdt_delete : (pdt : ℕ) → S → S
  pub pdt_map_memory : (pdt paddr vaddr size rw pl : ℕ) → S → ℕ × S
  pub pdt_kernel_find_next_vaddr : (size : ℕ) → S → ℕ × S
  pub pdt_map_kernel_memory : (paddr vaddr size rw pl : ℕ) → S → ℕ × S
  pub pdt_unmap_kernel_memory : (vaddr size : ℕ) → S → S
  pub vfs_lookup : (path : Str) → S → Option Vnode × S
  pub vfs_getattr : (node : Vnode) → S → Option ℕ × S
  pub vfs_read : (node : Vnode) → (buf count : ℕ) → S → ℕ × S
  pub memcpy : (dest src n : ℕ) → S → S

-- A step returns, or fails, and gives the state back in both cases.
abbrev pub Action : Type 0 → Type 0 → Type 0
Action S A = S → Option A × S

-- `if (error) { … return …; }`: what follows a success, and what a failure.
unfoldable pub handle {ℓ} : {S A : Type 0} {B : Type ℓ} → Option A × S → (A → S → B) → (S → B) → B
handle (some a, s) next failed = next a s
handle (none, s) next failed = failed s

module _ {S : Type 0} where
  infixl 5 ◌>>=◌ ◌>>◌
  unfoldable pub ◌>>=◌ : {A B : Type 0} → Action S A → (A → Action S B) → Action S B
  ◌>>=◌ m f s = handle (m s) f (λ s'. (none, s'))

  abbrev pub ◌>>◌ : {A B : Type 0} → Action S A → Action S B → Action S B
  m >> f = m >>= λ _. f

  abbrev pub pure : {A : Type 0} → A → Action S A
  pure a s = (some a, s)

  -- A call that cannot fail.
  unfoldable pub run : (S → S) → Action S (Unit {0})
  run f s = (some tt, f s)

  unfoldable pub nonzero : (S → ℕ × S) → Action S ℕ
  nonzero f s = let (n, s') = f s in if n == 0 then (none, s') else (some n, s')

  -- A call whose result the failure depends on, and what is done before the failure.
  unfoldable pub unless : (S → ℕ × S) → (ℕ → Bool) → (S → S) → Action S (Unit {0})
  unless f bad clean s = let (n, s') = f s in if bad n then (none, clean s') else (some tt, s')
