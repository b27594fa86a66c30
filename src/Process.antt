-- ===== src/Process.antt =====
-- process.c: making a process from a file, and cloning one. What is logged is left out.
pub mod Steps
pub mod Data
pub mod Load
pub mod Copy
pub mod Frames
pub mod Ends
pub mod Parts
pub mod Delete
pub mod Create
pub mod Lists
pub mod Descriptors
pub mod Clone
pub mod Replace
pub mod Trace
pub mod CopyTrace
pub mod Machine
mod Examples
use aenix.Base.{
  ℕ, zero, suc, ◌+◌, ◌-◌, ◌*◌, Bool, true, false, List, [], ◌∷◌, ◌++◌, Option, none, some, not, ltb,
  ◌==◌, ◌||◌, if◌then◌else◌, replicate, add32, sub32, mul32,
}
use aenix.Math.{div_ceil}
use aenix.CString.{Str}
use aenix.Vfs.{Vnode}
use aenix.Pfa.{four_kb}
use Data.{
  Registers, PaddrEle, Fd, Ps, no_registers, process_max_num_fd, proc_initial_stack_size,
  proc_initial_stack_vaddr, proc_initial_esp, kernel_stack_size, sizeof_paddr_ele, sizeof_vnode,
  sizeof_ps, process_init,
}
use Steps.{Calls, Action, handle, ◌>>=◌, ◌>>◌, pure, run, nonzero, unless}
use Load.{
  process_load_code, process_load_stack, process_load_kernel_stack, process_load_pdt,
  process_delete_resources,
}
use Copy.{process_copy_file_descriptors, process_copy_paddr_list}

unfoldable pub clone_init : Ps → (id : ℕ) → Ps
clone_init parent id = record (process_init id) {
  parent_id = parent.id;
  user_mode = parent.user_mode;
}

module _ {S : Type 0} (k : Calls S) where
  -- `at` is the pointer to the process.
  unfoldable pub process_delete_and_free : (at : ℕ) → Ps → S → S
  process_delete_and_free at ps s = k.kfree at (process_delete_resources k ps s)

  -- A step in the making of a process: where it fails, the process is deleted.
  unfoldable pub or_delete :
      (at : ℕ) → Ps → Option Ps × S → (Ps → S → Option (ℕ × Ps) × S) → Option (ℕ × Ps) × S
  or_delete at ps r next = handle r next λ s. (none, process_delete_and_free at ps s)

  -- `none` for NULL.
  unfoldable pub process_create : Str → (id : ℕ) → Action S (ℕ × Ps)
  process_create path id s =
      handle (nonzero (k.kmalloc sizeof_ps) s)
        (λ at s0.
          let ps = process_init id in
          or_delete at ps (process_load_pdt k ps s0) λ ps1 s1.
            or_delete at ps1 (process_load_code k ps1 path 0 s1) λ ps2 s2.
              or_delete at ps2 (process_load_stack k ps2 s2) λ ps3 s3.
                or_delete at ps3 (process_load_kernel_stack k ps3 s3)
                  λ ps4 s4. (some (at, record ps4 { current = ps4.user_mode }), s4))
        (λ s0. (none, s0))

  unfoldable pub with_descriptors :
      (at : ℕ) → Ps → (Bool × List (Option Fd)) × S → Option (ℕ × Ps) × S
  with_descriptors at ps ((true, fds), s) =
      (none, process_delete_and_free at (record ps { file_descriptors = fds }) s)
  with_descriptors at ps ((false, fds), s) = (some (at, record ps { file_descriptors = fds }), s)

  unfoldable pub process_create_replacement : Ps → Str → Action S (ℕ × Ps)
  process_create_replacement parent path = do
    (at, child) ← process_create path parent.id
    let child' = record child { parent_id = parent.parent_id }
    λ s.
        with_descriptors at child'
          (process_copy_file_descriptors k parent.file_descriptors child'.file_descriptors s)

  -- What follows a copied list, which has been put into the process in both cases.
  unfoldable pub or_delete_list :
      (at : ℕ)
      → (List PaddrEle → Ps)
      → (Bool × List PaddrEle) × S
      → (Ps → S → Option (ℕ × Ps) × S)
      → Option (ℕ × Ps) × S
  or_delete_list at with_list ((true, l), s) next =
      (none, process_delete_and_free at (with_list l) s)
  or_delete_list at with_list ((false, l), s) next = next (with_list l) s

  unfoldable pub process_clone : (parent : Ps) → (id : ℕ) → Action S (ℕ × Ps)
  process_clone parent id s =
      handle (nonzero (k.kmalloc sizeof_ps) s)
        (λ at s0.
          let ps = clone_init parent id in
          or_delete at ps (process_load_pdt k ps s0) λ ps1 s1.
            or_delete_list at
              (λ l. record ps1 { code_start_vaddr = parent.code_start_vaddr; code_paddrs = l })
              (process_copy_paddr_list k ps1.pdt parent.code_start_vaddr parent.code_paddrs s1)
              λ ps2 s2.
                or_delete_list at
                  (λ l. record ps2 {
                    stack_start_vaddr = parent.stack_start_vaddr;
                    stack_paddrs = l;
                  })
                  (process_copy_paddr_list k ps2.pdt parent.stack_start_vaddr parent.stack_paddrs
                    s2)
                  λ ps3 s3. or_delete at ps3 (process_load_kernel_stack k ps3 s3) λ ps4 s4.
                    with_descriptors at ps4 (
                      process_copy_file_descriptors k parent.file_descriptors ps4.file_descriptors
                        s4))
        (λ s0. (none, s0))
