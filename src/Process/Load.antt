-- ===== src/Process/Load.antt =====
-- process.c: loading the parts of a process, and deleting its memory.
use aenix.Base.{
  ℕ, List, [], ◌∷◌, none, some, not, ltb, ◌==◌, ◌||◌, if◌then◌else◌, add32, sub32, mul32,
}
use aenix.Math.{div_ceil}
use aenix.CString.{Str}
use aenix.Pfa.{four_kb}
use aenix.Process.Data.{
  PaddrEle, Ps, proc_initial_stack_size, proc_initial_stack_vaddr, proc_initial_esp,
  kernel_stack_size, sizeof_paddr_ele,
}
use aenix.Process.Steps.{Calls, Action, ◌>>=◌, ◌>>◌, pure, run, nonzero, unless}

module _ {S : Type 0} (k : Calls S) where
  unfoldable pub process_load_code : Ps → Str → (vaddr : ℕ) → Action S Ps
  process_load_code ps path vaddr = do
    node ← k.vfs_lookup path
    file_size ← k.vfs_getattr node
    let pfs = div_ceil file_size four_kb
    paddr ← nonzero (k.pfa_allocate pfs)
    kernel_vaddr ← nonzero (k.pdt_kernel_find_next_vaddr file_size)
    unless (k.pdt_map_kernel_memory paddr kernel_vaddr file_size 1 0)
        (λ mapped. ltb mapped file_size) (k.pdt_unmap_kernel_memory kernel_vaddr file_size)
    unless (k.vfs_read node kernel_vaddr file_size) (λ read. not (read == file_size))
        (k.pdt_unmap_kernel_memory kernel_vaddr file_size)
    run (k.pdt_unmap_kernel_memory kernel_vaddr file_size)
    unless (k.pdt_map_memory ps.pdt paddr vaddr file_size 1 3) (λ mapped. ltb mapped file_size)
        (λ s. s)
    ele ← nonzero (k.kmalloc sizeof_paddr_ele)
    pure (record ps {
      code_paddrs = record { ele = ele; paddr = paddr; count = pfs } ∷ [];
      user_mode = record ps.user_mode { eip = vaddr };
      code_start_vaddr = vaddr;
    })

  unfoldable pub process_load_stack : Ps → Action S Ps
  process_load_stack ps = do
    let pfs = div_ceil proc_initial_stack_size four_kb
    paddr ← nonzero (k.pfa_allocate pfs)
    let bytes = mul32 pfs four_kb
    unless (k.pdt_map_memory ps.pdt paddr proc_initial_stack_vaddr bytes 1 3)
        (λ mapped. ltb mapped bytes) (λ s. s)
    ele ← nonzero (k.kmalloc sizeof_paddr_ele)
    pure (record ps {
      stack_paddrs = record { ele = ele; paddr = paddr; count = pfs } ∷ [];
      stack_start_vaddr = proc_initial_stack_vaddr;
      user_mode = record ps.user_mode { esp = proc_initial_esp };
    })

  unfoldable pub process_load_kernel_stack : Ps → Action S Ps
  process_load_kernel_stack ps = do
    let pfs = div_ceil kernel_stack_size four_kb
    paddr ← nonzero (k.pfa_allocate pfs)
    let bytes = mul32 pfs four_kb
    vaddr ← nonzero (k.pdt_kernel_find_next_vaddr bytes)
    unless (k.pdt_map_kernel_memory paddr vaddr bytes 1 0) (λ mapped. not (mapped == bytes))
        (λ s. s)
    ele ← nonzero (k.kmalloc sizeof_paddr_ele)
    pure (record ps {
      kernel_stack_paddrs = record { ele = ele; paddr = paddr; count = pfs } ∷ [];
      kernel_stack_start_vaddr = sub32 (add32 vaddr bytes) 4;
    })

  unfoldable pub process_load_pdt : Ps → Action S Ps
  process_load_pdt ps s =
      let ((pdt, paddr), s') = k.pdt_create s in
      if (pdt == 0) || (paddr == 0)
      then (none, s')
      else (some (record ps { pdt = pdt; pdt_paddr = paddr }), s')

  -- The loop from `current` on, with the size so far.
  unfoldable pub delete_paddr_loop : List PaddrEle → (size : ℕ) → S → ℕ × S
  delete_paddr_loop [] size s = (size, s)
  delete_paddr_loop (e ∷ es) size s =
      delete_paddr_loop es (add32 size e.count) (k.kfree e.ele (k.pfa_free_cont e.paddr e.count s))

  unfoldable pub delete_paddr_list : List PaddrEle → S → ℕ × S
  delete_paddr_list l s = let (size, s') = delete_paddr_loop l 0 s in (mul32 size four_kb, s')

  unfoldable pub delete_pdt : Ps → S → S
  delete_pdt ps s = if ps.pdt == 0 then s else k.pdt_delete ps.pdt s

  unfoldable pub delete_kernel_stack : Ps → S → S
  delete_kernel_stack ps s =
      let (size, freed) = delete_paddr_list ps.kernel_stack_paddrs s in
      if ps.kernel_stack_start_vaddr == 0
      then s
      else k.pdt_unmap_kernel_memory ps.kernel_stack_start_vaddr size freed

  -- The loop over the file descriptors has no statement.
  unfoldable pub process_delete_resources : Ps → S → S
  process_delete_resources ps s =
      let (size, s') =
        delete_paddr_list ps.code_paddrs (delete_kernel_stack ps (delete_pdt ps s)) in
      (delete_paddr_list ps.stack_paddrs s').1
