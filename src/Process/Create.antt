-- ===== src/Process/Create.antt =====
-- process.c: making a process, with the frames that it owns and those that a failure leaves.
use aenix.Base.{ℕ, ◌≡◌, ◌≢◌, refl, [], ◌∷◌, none, arith, replicate}
use aenix.Math.{div_ceil}
use aenix.CString.{Str}
use aenix.Process.Data.{Ps, PaddrEle, no_registers, process_init, sizeof_ps}
use aenix.Process.Steps.{Calls}
use aenix.Process.Ends.{Ends, success, failure, Ends-handle, Ends-nonzero}
use aenix.Process.Frames.{Counted, counted, Net, none_at, owned}
use aenix.Process.Parts.{
  Leaks, process_load_pdt-Ends, process_load_code-Ends, process_load_stack-Ends,
  process_load_kernel_stack-Ends,
}
use aenix.Process.Delete.{or_delete-Ends}
use aenix.Process.{process_create}

-- A process that is ready to run from address 0, with one run of frames for each of its parts.
pub record IsCreated (id : ℕ) (ps : Ps) : Type 0 where
  pub has_id : ps.id ≡ id
  pub parent_id : ps.parent_id ≡ 0
  pub pdt : ps.pdt ≢ 0
  pub pdt_paddr : ps.pdt_paddr ≢ 0
  pub code : PaddrEle
  pub stack : PaddrEle
  pub kernel_stack : PaddrEle
  pub size : ℕ
  pub code_paddrs : ps.code_paddrs ≡ code ∷ []
  pub stack_paddrs : ps.stack_paddrs ≡ stack ∷ []
  pub kernel_stack_paddrs : ps.kernel_stack_paddrs ≡ kernel_stack ∷ []
  pub paddrs : (code.paddr ≢ 0) × (stack.paddr ≢ 0) × (kernel_stack.paddr ≢ 0)
  pub code_count : code.count ≡ div_ceil size 0x1000
  pub stack_counts : (stack.count ≡ 1) × (kernel_stack.count ≡ 1)
  pub start : (ps.code_start_vaddr ≡ 0) × (ps.stack_start_vaddr ≡ 0xBFFF_F000)
  pub user_mode :
      ps.user_mode
      ≡ record no_registers { eip = 0; esp = 0xBFFF_FFFC; eflags = 0x202; ss = 0x23; cs = 0x1B }
  pub current : ps.current ≡ ps.user_mode
  pub file_descriptors : ps.file_descriptors ≡ replicate 64 none

module _ {S : Type 0} (k : Calls S) where
  -- The process, and the frames.
  pub process_create-Owns :
      (path : Str) (id : ℕ) (c : Counted S)
      → Ends
          (λ r c'. (r.0 ≢ 0) × IsCreated id r.1 × Net c c' (owned r.1) none_at)
          (Leaks k c)
          (process_create (counted k) path id c)
  unfolding process_create process_init
  process_create-Owns path id c =
      let Post : ℕ × Ps → Counted S → Type 0 =
        λ r c'. (r.0 ≢ 0) × IsCreated id r.1 × Net c c' (owned r.1) none_at in
      Ends-handle (Ends Post (Leaks k c)) _ _
        (Ends-nonzero (λ a c'. (a ≢ 0) × Net c c' none_at none_at) (λ c'. Net c c' none_at none_at)
          ((counted k).kmalloc sizeof_ps) c (λ ne. (ne, λ p. refl)) (λ e p. refl))
        (λ at' c0 (ne, net0).
          or_delete-Ends k at' (process_init id) _ c c0 _ (λ c' l. l) net0
            (process_load_pdt-Ends k _ c0)
            λ ps1 c1 (pdt, pdt_paddr, e1, has_pdt, has_paddr, net1). rw e1 (
              or_delete-Ends k at' _ _ c c1 _ (λ c' l. l) (λ p. ground (arith, net0 p, net1 p))
                (process_load_code-Ends k _ c1 path 0)
                λ ps2 c2 (code, size, e2, ne2, count2, net2). rw e2 (
                  or_delete-Ends k at' _ _ c c2 _ (λ c' l. l)
                    (λ p. ground (arith, net0 p, net1 p, net2 p)) (process_load_stack-Ends k _ c2)
                    λ ps3 c3 (stack, e3, ne3, count3, net3). rw e3 (
                      or_delete-Ends k at' _ _ c c3 _ (λ c' l. l)
                        (λ p. ground (arith, net0 p, net1 p, net2 p, net3 p))
                        (process_load_kernel_stack-Ends k _ c3)
                        λ ps4 c4 (kernel_stack, start, e4, ne4, count4, net4). rw e4 (
                          success (
                            ne,
                            record {
                              has_id = refl;
                              parent_id = refl;
                              pdt = has_pdt;
                              pdt_paddr = has_paddr;
                              code = code;
                              stack = stack;
                              kernel_stack = kernel_stack;
                              size = size;
                              code_paddrs = refl;
                              stack_paddrs = refl;
                              kernel_stack_paddrs = refl;
                              paddrs = (ne2, ne3, ne4);
                              code_count = count2;
                              stack_counts = (count3, count4);
                              start = (refl, refl);
                              user_mode = refl;
                              current = refl;
                              file_descriptors = refl;
                            },
                            λ p. omega (arith, net0 p, net1 p, net2 p, net3 p, net4 p),
                          ))))))
        (λ s net. failure (0, 0, λ p. ground (arith, net p)))
