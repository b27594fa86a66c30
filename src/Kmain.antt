-- ===== src/Kmain.antt =====
-- kmain.c: the kernel sets up its parts one after the other, and starts the first process. The
-- parts are reached through the calls below, over a state that they share; a result that is not 0
-- is an error, but 0 is one of `kmalloc` and `process_create`. `printf` is given the text of the
-- message. What the boot loader leaves is read by `modules`, from an address.
pub mod Setup
pub mod Safety
mod Examples
use Prim.Native.String.{String}
use Prim.Native.Nat.{bit_and}
use aenix.Base.{ℕ, ◌&&◌, Bool, true, false, not, ◌==◌, if◌then◌else◌, add32, sub32}
use aenix.Paging.Entry.{kernel_start_vaddr}

pub record MultibootModule : Type 0 where
  pub mod_start : ℕ
  pub mod_end : ℕ

pub record MultibootInfo : Type 0 where
  pub flags : ℕ
  pub mods_count : ℕ
  pub mods_addr : ℕ
  pub mmap_addr : ℕ

-- PHYSICAL_TO_VIRTUAL
unfoldable pub physical_to_virtual : ℕ → ℕ
physical_to_virtual addr = add32 addr kernel_start_vaddr

unfoldable pub remap_multiboot_info : MultibootInfo → MultibootInfo
remap_multiboot_info mb = record mb {
  mmap_addr = physical_to_virtual mb.mmap_addr;
  mods_addr = physical_to_virtual mb.mods_addr;
}

-- The address of the file system, and its size.
unfoldable pub get_fs_paddr : (modules : ℕ → MultibootModule) → MultibootInfo → ℕ × ℕ
get_fs_paddr modules mb =
    let m = modules mb.mods_addr in
    if bit_and mb.flags 0x8 == 0
    then (0, 0)
    else if mb.mods_count == 1
    then (m.mod_start, sub32 m.mod_end m.mod_start)
    else (0, 0)

pub record KmainCalls (S : Type 0) : Type 0 where
  pub disable_interrupts : S → S
  pub enable_interrupts : S → S
  pub fb_init : S → S
  pub fb_clear : S → S
  pub printf : String → S → S
  pub printf_ui : String → ℕ → S → S
  pub tss_init : S → ℕ × S
  pub gdt_init : (tss_vaddr : ℕ) → S → S
  pub idt_init : S → S
  pub pic_init : S → S
  pub kbd_init : S → S
  pub serial_init : (port : ℕ) → S → S
  pub pit_init : S → S
  pub paging_init : (kernel_pdt_vaddr kernel_pt_vaddr : ℕ) → S → ℕ × S
  pub pfa_init : MultibootInfo → (fs_paddr fs_size : ℕ) → S → ℕ × S
  pub kmalloc : (size : ℕ) → S → ℕ × S
  pub aefs_init : (fs_paddr fs_size vfs : ℕ) → S → ℕ × S
  pub vfs_mount : (path : String) → (vfs : ℕ) → S → ℕ × S
  pub devfs_init : (vfs : ℕ) → S → S
  pub fb_get_vnode : (out : ℕ) → S → ℕ × S
  pub kbd_get_vnode : (out : ℕ) → S → ℕ × S
  pub devfs_add_device : (name : String) → (device : ℕ) → S → S
  pub scheduler_init : S → ℕ × S
  pub scheduler_next_pid : S → ℕ × S
  pub process_create : (path : String) → (id : ℕ) → S → ℕ × S
  pub scheduler_add_runnable_process : (ps : ℕ) → S → S
  pub scheduler_schedule : S → S

abbrev pub sizeof_vnode : ℕ
sizeof_vnode = 8

abbrev pub sizeof_vfs : ℕ
sizeof_vfs = 16

abbrev pub com1 : ℕ
com1 = 0x3F8

abbrev pub multiboot_bootloader_magic : ℕ
multiboot_bootloader_magic = 0x2BAD_B002

module _ {S : Type 0} where
  -- `if (res != 0) return code;`
  unfoldable pub checked : (code : ℕ) → ℕ × S → (S → ℕ × S) → ℕ × S
  checked code (res, s) next = if res == 0 then next s else (code, s)

  -- `if (p == NULL) return code;`
  unfoldable pub given : (code : ℕ) → ℕ × S → (ℕ → S → ℕ × S) → ℕ × S
  given code (p, s) next = if p == 0 then (code, s) else next p s

module _ {S : Type 0} (k : KmainCalls S) where
  unfoldable pub add_device : (name : String) → (get_vnode : (out : ℕ) → S → ℕ × S) → S → ℕ × S
  add_device name get_vnode s =
      given 1 (k.kmalloc sizeof_vnode s)
        λ device s'. checked 1 (get_vnode device s') λ s''. (0, k.devfs_add_device name device s'')

  -- What `add_device` and `vfs_mount` return is not looked at.
  unfoldable pub populate_devfs : S → ℕ × S
  populate_devfs s = given 1 (k.kmalloc sizeof_vfs s) λ devfs s'.
      let s1 = (add_device "console" k.fb_get_vnode (k.devfs_init devfs s')).1 in
      let s2 = (add_device "keyboard" k.kbd_get_vnode s1).1 in (0, (k.vfs_mount "/dev/" devfs s2).1)

  -- The parts whose set up cannot fail.
  unfoldable pub init_devices : S → S
  init_devices s =
      let (tss_vaddr, s') = k.tss_init s in
      k.pit_init
        (k.serial_init com1 (k.kbd_init (k.pic_init (k.idt_init (k.gdt_init tss_vaddr s')))))

  unfoldable pub init_fs : (fs_paddr fs_size : ℕ) → S → ℕ × S
  init_fs fs_paddr fs_size s = given 5 (k.kmalloc sizeof_vfs s) λ aefs_vfs s'.
      checked 2 (k.aefs_init fs_paddr fs_size aefs_vfs s') λ s''.
        checked 6 (k.vfs_mount "/" aefs_vfs s'')
          λ s3. checked 7 (k.scheduler_init (populate_devfs s3).1) λ s4. (0, k.enable_interrupts s4)

  -- The codes are KINIT_ERROR_*.
  unfoldable pub kinit :
      (ℕ → MultibootModule) → MultibootInfo → (kernel_pdt_vaddr kernel_pt_vaddr : ℕ) → S → ℕ × S
  kinit modules mb pdt pt s =
      let s' = k.fb_init (k.disable_interrupts s) in
      let (fs_paddr, fs_size) = get_fs_paddr modules mb in
      if (fs_paddr == 0) && (fs_size == 0)
      then (1, s')
      else checked 3 (k.paging_init pdt pt (init_devices s'))
          λ s2. checked 4 (k.pfa_init mb fs_paddr fs_size s2) λ s3. init_fs fs_paddr fs_size s3

  unfoldable pub start_init : S → S
  start_init s =
      let (pid, s') = k.scheduler_next_pid s in
      let (init, s'') = k.process_create "/bin/init" pid s' in
      if init == 0
      then k.printf "ERROR: Could not create init!\n" s''
      else k.scheduler_schedule (k.scheduler_add_runnable_process init s'')

abbrev pub error_text : ℕ → String
error_text res =
    if res == 1
    then "ERROR: Could not load filesystem!\n"
    else if res == 2
    then "ERROR: Could not initialize filesystem!\n"
    else if res == 3
    then "ERROR: Could not initialize paging!\n"
    else if res == 4
    then "ERROR: Could not initialize page frame allocator!\n"
    else if res == 5
    then "ERROR: Could not allocate VFS node for root FS!\n"
    else if res == 6
    then "ERROR: Could not initialize virtual filesystem!\n"
    else if res == 7
    then "ERROR: Could not initialize scheduler!\n"
    else "ERROR: Unknown error\n"

module _ {S : Type 0} (k : KmainCalls S) where
  unfoldable pub after_kinit : ℕ × S → ℕ × S
  after_kinit (res, s) =
      if res == 0 then (0xDEAD_BEEF, start_init k s) else (0xDEAD_DEAD, k.printf (error_text res) s)

  unfoldable pub kmain :
      (ℕ → MultibootModule)
      → MultibootInfo
      → (magic_number kernel_pdt_vaddr kernel_pt_vaddr : ℕ) → S
      → ℕ × S
  unfolding after_kinit
  kmain modules mb magic_number pdt pt s =
      let s' = k.fb_clear s in
      if magic_number == multiboot_bootloader_magic
      then after_kinit (kinit k modules (remap_multiboot_info mb) pdt pt s')
      else (
        0xDEAD_DEAD,
        k.printf_ui "magic_number: %u\n" magic_number
            (k.printf "ERROR: magic number is wrong!\n" s'),
      )
