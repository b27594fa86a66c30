-- ===== src/Kmain/Setup.antt =====
-- kmain.c: the parts of the kernel are set up with interrupts off.
use Prim.Native.String.{String}
use aenix.Base.{
  subst, sym, ap, if◌then◌else◌, ℕ, ◌≤◌, ◌<◌, ◌≡◌, ◌≢◌, ◌⊎◌, refl, ◌∙◌, Bool, true, false, ◌&&◌,
  ◌==◌, arith, inl, inr, Bool-cases,
}
use aenix.Kmain.{
  MultibootModule, MultibootInfo, KmainCalls, get_fs_paddr, checked, given, add_device,
  populate_devfs, init_devices, init_fs, kinit,
}

-- What `on` tells of a state is set by `enable_interrupts` and `disable_interrupts` only.
pub record KeepsInterrupts {S : Type 0} (k : KmainCalls S) (on : S → Bool) : Type 0 where
  pub enable_interrupts : (s : S) → on (k.enable_interrupts s) ≡ true
  pub disable_interrupts : (s : S) → on (k.disable_interrupts s) ≡ false
  pub fb_init : (s : S) → on (k.fb_init s) ≡ on s
  pub fb_clear : (s : S) → on (k.fb_clear s) ≡ on s
  pub idt_init : (s : S) → on (k.idt_init s) ≡ on s
  pub pic_init : (s : S) → on (k.pic_init s) ≡ on s
  pub kbd_init : (s : S) → on (k.kbd_init s) ≡ on s
  pub pit_init : (s : S) → on (k.pit_init s) ≡ on s
  pub printf : (m : String) (s : S) → on (k.printf m s) ≡ on s
  pub printf_ui : (m : String) (n : ℕ) (s : S) → on (k.printf_ui m n s) ≡ on s
  pub gdt_init : (a : ℕ) (s : S) → on (k.gdt_init a s) ≡ on s
  pub serial_init : (a : ℕ) (s : S) → on (k.serial_init a s) ≡ on s
  pub devfs_init : (a : ℕ) (s : S) → on (k.devfs_init a s) ≡ on s
  pub devfs_add_device : (n : String) (a : ℕ) (s : S) → on (k.devfs_add_device n a s) ≡ on s
  pub tss_init : (s : S) → on (k.tss_init s).1 ≡ on s
  pub scheduler_init : (s : S) → on (k.scheduler_init s).1 ≡ on s
  pub paging_init : (a b : ℕ) (s : S) → on (k.paging_init a b s).1 ≡ on s
  pub pfa_init : (mb : MultibootInfo) (a b : ℕ) (s : S) → on (k.pfa_init mb a b s).1 ≡ on s
  pub kmalloc : (a : ℕ) (s : S) → on (k.kmalloc a s).1 ≡ on s
  pub aefs_init : (a b c : ℕ) (s : S) → on (k.aefs_init a b c s).1 ≡ on s
  pub vfs_mount : (n : String) (a : ℕ) (s : S) → on (k.vfs_mount n a s).1 ≡ on s
  pub fb_get_vnode : (a : ℕ) (s : S) → on (k.fb_get_vnode a s).1 ≡ on s
  pub kbd_get_vnode : (a : ℕ) (s : S) → on (k.kbd_get_vnode a s).1 ≡ on s

-- A part of the set up ends with `P` and interrupts on, or with the code of an error and interrupts
-- off.
abbrev pub Ends {ℓ} : {S : Type ℓ} → (S → Bool) → (S → Type ℓ) → ℕ × S → Type ℓ
Ends on P (res, s) = ((res ≡ 0) × (on s ≡ true) × P s) ⊎ ((0 < res) × (res ≤ 7) × (on s ≡ false))

module _ {S : Type 0} (on : S → Bool) (P : S → Type 0) where
  checked-Ends :
      (code : ℕ) (r : ℕ × S) (next : S → ℕ × S)
      → 0 < code
      → code ≤ 7
      → on r.1 ≡ false
      → ((s : S) → r ≡ (0, s) → on s ≡ false → Ends on P (next s))
      → Ends on P (checked code r next)
  unfolding checked
  checked-Ends code (res, s) next pos le off later = elim (Bool-cases (res == 0)) [
    | inl e ↦ rw e (later s (ap (λ n. (n, s)) (ground (arith, e))) off)
    | inr e ↦ rw e (inr (pos, le, off))
  ]

  given-Ends :
      (code : ℕ) (r : ℕ × S) (next : ℕ → S → ℕ × S)
      → 0 < code
      → code ≤ 7
      → on r.1 ≡ false
      → (r.0 ≢ 0 → on r.1 ≡ false → Ends on P (next r.0 r.1))
      → Ends on P (given code r next)
  unfolding given
  given-Ends code (p, s) next pos le off later = elim (Bool-cases (p == 0)) [
    | inl e ↦ rw e (inr (pos, le, off))
    | inr e ↦ rw e (later (λ z. ground (arith, e, z)) off)
  ]

module _ {S : Type 0} (on : S → Bool) where
  -- A step that keeps `on`, whether it fails or not.
  checked_keeps :
      (code : ℕ) (r : ℕ × S) (next : S → ℕ × S)
      → ((s : S) → on (next s).1 ≡ on s)
      → on (checked code r next).1 ≡ on r.1
  unfolding checked
  checked_keeps code (res, s) next later = elim (Bool-cases (res == 0)) [
    | inl e ↦ rw e (later s)
    | inr e ↦ rw e refl
  ]

  given_keeps :
      (code : ℕ) (r : ℕ × S) (next : ℕ → S → ℕ × S)
      → ((p : ℕ) (s : S) → on (next p s).1 ≡ on s)
      → on (given code r next).1 ≡ on r.1
  unfolding given
  given_keeps code (p, s) next later = elim (Bool-cases (p == 0)) [
    | inl e ↦ rw e refl
    | inr e ↦ rw e (later p s)
  ]

module _ {S : Type 0} (k : KmainCalls S) (on : S → Bool) (keeps : KeepsInterrupts k on) where
  add_device_keeps :
      (name : String) (get_vnode : ℕ → S → ℕ × S)
      → ((a : ℕ) (s : S) → on (get_vnode a s).1 ≡ on s)
      → (s : S) → on (add_device k name get_vnode s).1 ≡ on s
  unfolding add_device
  add_device_keeps name get_vnode kept s =
      given_keeps on 1 (k.kmalloc 8 s) _ (λ device s'.
        checked_keeps on 1 (get_vnode device s') _ (λ s''. keeps.devfs_add_device name device s'')
        ∙ kept device s')
      ∙ keeps.kmalloc 8 s

  populate_devfs_keeps : (s : S) → on (populate_devfs k s).1 ≡ on s
  unfolding populate_devfs
  populate_devfs_keeps s =
      given_keeps on 1 (k.kmalloc 16 s) _ (λ devfs s'.
        keeps.vfs_mount "/dev/" devfs _
        ∙ add_device_keeps "keyboard" k.kbd_get_vnode keeps.kbd_get_vnode _
        ∙ add_device_keeps "console" k.fb_get_vnode keeps.fb_get_vnode _
        ∙ keeps.devfs_init devfs s')
      ∙ keeps.kmalloc 16 s

  init_devices_keeps : (s : S) → on (init_devices k s) ≡ on s
  unfolding init_devices
  init_devices_keeps s =
      keeps.pit_init _
      ∙ keeps.serial_init 0x3F8 _
      ∙ keeps.kbd_init _
      ∙ keeps.pic_init _
      ∙ keeps.idt_init _
      ∙ keeps.gdt_init _ _
      ∙ keeps.tss_init s

  -- Each part that can fail has returned 0, or memory, in its turn; `s0` is the state before the
  -- devices are set up, and `s` the one with interrupts on.
  pub record AreSetUp (mb : MultibootInfo) (fs_paddr fs_size pdt pt : ℕ) (s0 s : S) : Type 0 where
    pub paging : S
    pub pfa : S
    pub aefs : S
    pub mount : S
    pub scheduler : S
    pub paging_init : k.paging_init pdt pt (init_devices k s0) ≡ (0, paging)
    pub pfa_init : k.pfa_init mb fs_paddr fs_size paging ≡ (0, pfa)
    pub kmalloc : (k.kmalloc 16 pfa).0 ≢ 0
    pub aefs_init :
        k.aefs_init fs_paddr fs_size (k.kmalloc 16 pfa).0 (k.kmalloc 16 pfa).1 ≡ (0, aefs)
    pub vfs_mount : k.vfs_mount "/" (k.kmalloc 16 pfa).0 aefs ≡ (0, mount)
    pub scheduler_init : k.scheduler_init (populate_devfs k mount).1 ≡ (0, scheduler)
    pub interrupts : s ≡ k.enable_interrupts scheduler

  init_fs-Ends :
      (mb : MultibootInfo) (fs_paddr fs_size pdt pt : ℕ) (s0 s2 s3 : S)
      → k.paging_init pdt pt (init_devices k s0) ≡ (0, s2)
      → k.pfa_init mb fs_paddr fs_size s2 ≡ (0, s3)
      → on s3 ≡ false
      → Ends on (AreSetUp mb fs_paddr fs_size pdt pt s0) (init_fs k fs_paddr fs_size s3)
  unfolding init_fs
  init_fs-Ends mb fs_paddr fs_size pdt pt s0 s2 s3 e2 e3 off =
      let P : S → Type 0 = AreSetUp mb fs_paddr fs_size pdt pt s0 in
      let vfs = (k.kmalloc 16 s3).0 in
      let s4 = (k.kmalloc 16 s3).1 in
      given-Ends on P 5 (k.kmalloc 16 s3) _ (omega arith) (omega arith) (keeps.kmalloc 16 s3 ∙ off)
        λ ne off4.
          checked-Ends on P 2 (k.aefs_init fs_paddr fs_size vfs s4) _ (omega arith) (omega arith)
            (keeps.aefs_init fs_paddr fs_size vfs s4 ∙ off4)
            λ s5 e5 off5.
              checked-Ends on P 6 (k.vfs_mount "/" vfs s5) _ (omega arith) (omega arith)
                (keeps.vfs_mount "/" vfs s5 ∙ off5)
                λ s6 e6 off6.
                  checked-Ends on P 7 (k.scheduler_init (populate_devfs k s6).1) _ (omega arith)
                    (omega arith) (keeps.scheduler_init _ ∙ populate_devfs_keeps s6 ∙ off6)
                    λ s7 e7 off7. inl (
                      refl,
                      keeps.enable_interrupts s7,
                      record {
                        paging = s2;
                        pfa = s3;
                        aefs = s5;
                        mount = s6;
                        scheduler = s7;
                        paging_init = e2;
                        pfa_init = e3;
                        kmalloc = ne;
                        aefs_init = e5;
                        vfs_mount = e6;
                        scheduler_init = e7;
                        interrupts = refl;
                      },
                    )

  -- There is a file system, and all parts are set up.
  abbrev pub IsReady : (ℕ → MultibootModule) → MultibootInfo → (pdt pt : ℕ) → S → S → Type 0
  IsReady modules mb pdt pt s0 s =
      let fs = get_fs_paddr modules mb in
      (((fs.0 == 0) && (fs.1 == 0)) ≡ false)
      × AreSetUp mb fs.0 fs.1 pdt pt (k.fb_init (k.disable_interrupts s0)) s

  -- The set up of the kernel ends with 0 and interrupts on, or with one of the seven codes of an
  -- error and interrupts off.
  pub kinit-Ends :
      (modules : ℕ → MultibootModule) (mb : MultibootInfo) (pdt pt : ℕ) (s : S)
      → Ends on (IsReady modules mb pdt pt s) (kinit k modules mb pdt pt s)
  unfolding kinit
  kinit-Ends modules mb pdt pt s =
      let P : S → Type 0 = IsReady modules mb pdt pt s in
      let off : on s1 ≡ false =
        keeps.fb_init (k.disable_interrupts s) ∙ keeps.disable_interrupts s in
      elim (Bool-cases ((fs.0 == 0) && (fs.1 == 0))) [
        | inl e ↦ rw e (inr (omega arith, omega arith, off))
        | inr e ↦
            subst (λ b. Ends on P (if b then (1, s1) else with_paging)) (sym e)
              (checked-Ends on P 3 (k.paging_init pdt pt (init_devices k s1)) with_pfa (omega arith)
                (omega arith) (keeps.paging_init pdt pt _ ∙ init_devices_keeps _ ∙ off)
                λ s2 e2 off2.
                  checked-Ends on P 4 (k.pfa_init mb fs.0 fs.1 s2) (init_fs k fs.0 fs.1)
                    (omega arith) (omega arith) (keeps.pfa_init mb fs.0 fs.1 s2 ∙ off2)
                    λ s3 e3 off3.
                      and_fs (init_fs k fs.0 fs.1 s3) e
                        (init_fs-Ends mb fs.0 fs.1 pdt pt s1 s2 s3 e2 e3 off3))
      ]
    where
      fs : ℕ × ℕ
      fs = get_fs_paddr modules mb

      s1 : S
      s1 = k.fb_init (k.disable_interrupts s)

      with_pfa : S → ℕ × S
      with_pfa s2 = checked 4 (k.pfa_init mb fs.0 fs.1 s2) (init_fs k fs.0 fs.1)

      with_paging : ℕ × S
      with_paging = checked 3 (k.paging_init pdt pt (init_devices k s1)) with_pfa

      and_fs :
          (r : ℕ × S)
          → ((fs.0 == 0) && (fs.1 == 0)) ≡ false
          → Ends on (AreSetUp mb fs.0 fs.1 pdt pt s1) r
          → Ends on (IsReady modules mb pdt pt s) r
      and_fs r e (inl (res, on_, up)) = inl (res, on_, (e, up))
      and_fs r e (inr failed) = inr failed
