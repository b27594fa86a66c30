-- ===== src/Process/Replace.antt =====
-- process.c: the process that replaces another in `execve`.
use aenix.Base.{◌≡◌, ◌≢◌}
use aenix.Process.Data.{Ps}
use aenix.Process.Ends.{Ends}
use aenix.Process.Descriptors.{SameFds}

-- A new process under the id of the parent, which has the parent's parent and descriptors.
pub record Replaces (parent ps : Ps) : Type 0 where
  pub has_id : ps.id ≡ parent.id
  pub parent_id : ps.parent_id ≡ parent.parent_id
  pub pdt : ps.pdt ≢ 0
  pub entry : (ps.code_start_vaddr ≡ 0) × (ps.user_mode.eip ≡ 0) × (ps.current ≡ ps.user_mode)
  pub file_descriptors : SameFds parent.file_descriptors ps.file_descriptors
