-- ===== src/Vfs/Calls.antt =====
-- vfs.c and vnode.c: the calls through the operations of a vnode, and the copy of one. `S` is the
-- state that the operations act on.
use aenix.Base.{ℕ, List}
use aenix.CString.{Str}
use aenix.Vfs.{Vnode}

-- A result comes with the state; `vn_read` gives the bytes for the buffer, too, and `vn_getattr`
-- the size for the attributes.
pub record VnodeOps (S : Type 0) : Type 0 where
  pub vn_open : Vnode → S → ℕ × S
  pub vn_read : Vnode → (count : ℕ) → S → ℕ × List ℕ × S
  pub vn_write : Vnode → Str → (len : ℕ) → S → ℕ × S
  pub vn_getattr : Vnode → S → ℕ × ℕ × S

-- `v_op` is the address of the operations.
module _ {S : Type 0} (vnodeops : (v_op : ℕ) → VnodeOps S) where
  unfoldable pub vfs_open : Vnode → S → ℕ × S
  vfs_open node s = (vnodeops node.v_op).vn_open node s

  unfoldable pub vfs_read : Vnode → (count : ℕ) → S → ℕ × List ℕ × S
  vfs_read node count s = (vnodeops node.v_op).vn_read node count s

  unfoldable pub vfs_write : Vnode → Str → (len : ℕ) → S → ℕ × S
  vfs_write node str len s = (vnodeops node.v_op).vn_write node str len s

  unfoldable pub vfs_getattr : Vnode → S → ℕ × ℕ × S
  vfs_getattr node s = (vnodeops node.v_op).vn_getattr node s

unfoldable pub vnode_copy : (to from : Vnode) → Vnode
vnode_copy to from = record { v_op = from.v_op; v_data = from.v_data }
