-- ===== src/Kmain/Examples.antt =====
-- The theorem on kmain.c at a machine that knows whether interrupts are on and how many parts have
-- been set up: its calls succeed, but for the one that is given as failing.
use aenix.Base.{ℕ, ◌+◌, ◌≡◌, refl, Bool, true, false, ◌==◌, if◌then◌else◌}
use aenix.Kmain.{
  MultibootModule, MultibootInfo, KmainCalls, kinit, get_fs_paddr, init_devices, checked,
}
use aenix.Kmain.Setup.{KeepsInterrupts}

pub record Machine : Type 0 where
  pub on : Bool
  pub parts : ℕ

abbrev set_up : Machine → Machine
set_up s = record s { parts = s.parts + 1 }

-- A call that returns 0, or 1 where it is the part with the number `failing`.
abbrev part : (failing : ℕ) → Machine → ℕ × Machine
part failing s = (if s.parts == failing then 1 else 0, set_up s)

abbrev machine : (failing : ℕ) → KmainCalls Machine
machine failing = record {
  disable_interrupts = λ s. record s { on = false };
  enable_interrupts = λ s. record s { on = true };
  fb_init = set_up;
  fb_clear = λ s. s;
  printf = λ m s. s;
  printf_ui = λ m n s. s;
  tss_init = λ s. (0x5000, set_up s);
  gdt_init = λ a s. set_up s;
  idt_init = set_up;
  pic_init = set_up;
  kbd_init = set_up;
  serial_init = λ a s. set_up s;
  pit_init = set_up;
  paging_init = λ a b s. part failing s;
  pfa_init = λ mb a b s. part failing s;
  kmalloc = λ size s. (0x7000, s);
  aefs_init = λ a b c s. part failing s;
  vfs_mount = λ p v s. part failing s;
  devfs_init = λ v s. s;
  fb_get_vnode = λ a s. (0, s);
  kbd_get_vnode = λ a s. (0, s);
  devfs_add_device = λ n a s. s;
  scheduler_init = λ s. part failing s;
  scheduler_next_pid = λ s. (1, s);
  process_create = λ p i s. (0x8000, s);
  scheduler_add_runnable_process = λ p s. s;
  scheduler_schedule = λ s. s;
}

abbrev machine-KeepsInterrupts : (failing : ℕ) → KeepsInterrupts (machine failing) (λ s. s.on)
machine-KeepsInterrupts failing = record {
  enable_interrupts = λ s. refl;
  disable_interrupts = λ s. refl;
  fb_init = λ s. refl;
  fb_clear = λ s. refl;
  printf = λ m s. refl;
  printf_ui = λ m n s. refl;
  tss_init = λ s. refl;
  gdt_init = λ a s. refl;
  idt_init = λ s. refl;
  pic_init = λ s. refl;
  kbd_init = λ s. refl;
  serial_init = λ a s. refl;
  pit_init = λ s. refl;
  paging_init = λ a b s. refl;
  pfa_init = λ mb a b s. refl;
  kmalloc = λ size s. refl;
  aefs_init = λ a b c s. refl;
  vfs_mount = λ p v s. refl;
  devfs_init = λ v s. refl;
  fb_get_vnode = λ a s. refl;
  kbd_get_vnode = λ a s. refl;
  devfs_add_device = λ n a s. refl;
  scheduler_init = λ s. refl;
}

abbrev one_module : ℕ → MultibootModule
one_module a = record { mod_start = 0x20_0000; mod_end = 0x30_0000 }

abbrev info : MultibootInfo
info = record { flags = 0x8; mods_count = 1; mods_addr = 0x1000; mmap_addr = 0x2000 }

abbrev reset : Machine
reset = record { on = true; parts = 0 }

abbrev magic : ℕ
magic = 0x2BAD_B002

-- The allocator is the part behind the nine before it.
reports : (kinit (machine 9) one_module info 0xC010_0000 0xC010_1000 reset).0 ≡ 4
unfolding kinit get_fs_paddr init_devices checked
reports = refl
