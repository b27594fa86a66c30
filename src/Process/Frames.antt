-- ===== src/Process/Frames.antt =====
-- process.c: which page frames a process owns, and a count of the frames that its calls have taken
-- from the page frame allocator and given back, for each address. Frames that paging takes for page
-- tables and directories are not counted. The log has the calls that read files and copy memory.
use aenix.CString.{Str}
use aenix.Vfs.{Vnode}
use aenix.Base.{Option, ℕ, ◌+◌, ◌≡◌, List, [], ◌∷◌, ◌==◌, if◌then◌else◌}
use aenix.Process.Data.{Ps, PaddrEle}
use aenix.Process.Steps.{Calls}

-- What `vfs_lookup` finds, what `vfs_read` returns for a node and a count, and what `memcpy` copies.
pub data Event : Type 0 where
  looks : (path : Str) → (found : Option Vnode) → Event
  reads : (node : Vnode) → (count read : ℕ) → Event
  copies : (src n : ℕ) → Event

-- The last event is at the head of `log`.
pub record Counted (S : Type 0) : Type 0 where
  pub state : S
  pub taken : ℕ → ℕ
  pub freed : ℕ → ℕ
  pub log : List Event

-- `n` frames at the address `paddr`, and none elsewhere.
abbrev pub at : (paddr n : ℕ) → ℕ → ℕ
at paddr n p = if p == paddr then n else 0

abbrev pub none_at : ℕ → ℕ
none_at p = 0

module _ {S : Type 0} (k : Calls S) where
  -- The same calls, and the count.
  abbrev pub counted : Calls (Counted S)
  counted = record {
    kmalloc = λ n c. let r = k.kmalloc n c.state in (r.0, record c { state = r.1 });
    kfree = λ ap c. record c { state = k.kfree ap c.state };
    pfa_allocate = λ n c.
        let r = k.pfa_allocate n c.state in
        (
          r.0,
          record {
            state = r.1;
            taken = if r.0 == 0 then c.taken else λ p. c.taken p + at r.0 n p;
            freed = c.freed;
            log = c.log;
          },
        );
    pfa_free_cont = λ paddr n c. record {
      state = k.pfa_free_cont paddr n c.state;
      taken = c.taken;
      freed = λ p. c.freed p + at paddr n p;
      log = c.log;
    };
    pdt_create = λ c. let r = k.pdt_create c.state in (r.0, record c { state = r.1 });
    pdt_delete = λ pdt c. record c { state = k.pdt_delete pdt c.state };
    pdt_map_memory = λ pdt paddr vaddr size wr pl c.
        let r = k.pdt_map_memory pdt paddr vaddr size wr pl c.state in
        (r.0, record c { state = r.1 });
    pdt_kernel_find_next_vaddr = λ size c.
        let r = k.pdt_kernel_find_next_vaddr size c.state in (r.0, record c { state = r.1 });
    pdt_map_kernel_memory = λ paddr vaddr size wr pl c.
        let r = k.pdt_map_kernel_memory paddr vaddr size wr pl c.state in
        (r.0, record c { state = r.1 });
    pdt_unmap_kernel_memory =
        λ vaddr size c. record c { state = k.pdt_unmap_kernel_memory vaddr size c.state };
    vfs_lookup = λ path c.
        let r = k.vfs_lookup path c.state in
        (r.0, record c { state = r.1; log = looks path r.0 ∷ c.log });
    vfs_getattr = λ node c. let r = k.vfs_getattr node c.state in (r.0, record c { state = r.1 });
    vfs_read = λ node buf count c.
        let r = k.vfs_read node buf count c.state in
        (r.0, record c { state = r.1; log = reads node count r.0 ∷ c.log });
    memcpy = λ dest src n c. record c {
      state = k.memcpy dest src n c.state;
      log = copies src n ∷ c.log;
    };
  }

-- From `c0` to `c` the frames that are taken and not given back have grown by `gained`, less
-- `lost`.
abbrev pub Net : {S : Type 0} → (c0 c : Counted S) → (gained lost : ℕ → ℕ) → Type 0
Net c0 c gained lost = (p : ℕ) → c.taken p + c0.freed p + lost p ≡ c0.taken p + c.freed p + gained p

abbrev pub frames_of : List PaddrEle → ℕ → ℕ
frames_of [] p = 0
frames_of (e ∷ es) p = at e.paddr e.count p + frames_of es p

-- The frames in the lists of a process.
abbrev pub owned : Ps → ℕ → ℕ
owned ps p =
    frames_of ps.code_paddrs p + frames_of ps.stack_paddrs p + frames_of ps.kernel_stack_paddrs p
