-- ===== src/Fb/Device.antt =====
-- fb.c: the console as a device of the virtual file system. -1 is 2^32 - 1.
use aenix.Base.{ℕ, List, []}
use aenix.CString.{Str}
use aenix.Vfs.{Vnode}
use aenix.Vfs.Calls.{VnodeOps}
use aenix.Fb.{Fb, fb_put_s}

unfoldable pub fb_open : Vnode → Fb → ℕ × Fb
fb_open n s = (0, s)

unfoldable pub fb_read : Vnode → (count : ℕ) → Fb → ℕ × List ℕ × Fb
fb_read n count s = (0xFFFF_FFFF, [], s)

unfoldable pub fb_getattr : Vnode → Fb → ℕ × ℕ × Fb
fb_getattr n s = (0xFFFF_FFFF, 0, s)

-- The length is not looked at.
unfoldable pub fb_write : Vnode → Str → (len : ℕ) → Fb → ℕ × Fb
fb_write n str len s = (0, fb_put_s s str)

-- `fb_init` stores the operations.
unfoldable pub fb_init : VnodeOps Fb
fb_init = record {
  vn_open = fb_open;
  vn_read = fb_read;
  vn_write = fb_write;
  vn_getattr = fb_getattr;
}

-- `vnodeops` is the address of the operations.
unfoldable pub fb_get_vnode : (vnodeops : ℕ) → Vnode
fb_get_vnode vnodeops = record { v_op = vnodeops; v_data = 123_456 }
