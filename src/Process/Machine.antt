-- ===== src/Process/Machine.antt =====
-- A small machine that the theorems on processes and system calls are applied to.
use aenix.Base.{[], ℕ, ◌+◌, ◌-◌, some, ◌==◌, if◌then◌else◌}
use aenix.Process.Steps.{Calls}
use aenix.Process.Frames.{Counted}

-- The next free frame, block of the heap and page, and the calls of `pdt_map_memory` that are left
-- before one fails.
pub record Machine : Type 0 where
  pub frame : ℕ
  pub block : ℕ
  pub page : ℕ
  pub maps : ℕ

-- The file at any path has 5000 bytes.
abbrev pub machine : Calls Machine
machine = record {
  kmalloc = λ n m. (m.block, record m { block = m.block + n });
  kfree = λ ap m. m;
  pfa_allocate = λ n m. (m.frame, record m { frame = m.frame + n });
  pfa_free_cont = λ paddr n m. m;
  pdt_create = λ m. ((m.page, m.frame), record m { page = m.page + 1 });
  pdt_delete = λ pdt m. m;
  pdt_map_memory = λ pdt paddr vaddr size wr pl m.
      (if m.maps == 0 then 0 else size, record m { maps = m.maps - 1 });
  pdt_kernel_find_next_vaddr = λ size m. (m.page, record m { page = m.page + 1 });
  pdt_map_kernel_memory = λ paddr vaddr size wr pl m. (size, m);
  pdt_unmap_kernel_memory = λ vaddr size m. m;
  vfs_lookup = λ path m. (some (record { v_op = 1; v_data = 1 }), m);
  vfs_getattr = λ node m. (some 5000, m);
  vfs_read = λ node buf count m. (count, m);
  memcpy = λ dest src n m. m;
}

abbrev pub booted : (maps : ℕ) → Counted Machine
booted maps = record {
  state = record { frame = 1; block = 1; page = 1; maps = maps };
  taken = λ p. 0;
  freed = λ p. 0;
  log = [];
}
