-- ===== src/Modules/Examples.antt =====
-- The theorem on module.c at two modules of which one lies where they all go, and a run.
use aenix.Base.{List, [], ◌∷◌, ◌≡◌, refl, ◌%◌}
use aenix.CString.{Mem, memcpy}
use aenix.Kmain.{MultibootModule, MultibootInfo}
use aenix.Modules.{
  move_multiboot_modules, copy_modules, end_address_of_modules, end_loop, total_size_of_modules,
  size_loop, tmp_area, next_addr, physical,
}

abbrev info : MultibootInfo
info = record { flags = 0x8; mods_count = 2; mods_addr = 0x1000; mmap_addr = 0x2000 }

abbrev modules : List MultibootModule
modules =
    record { mod_start = 0x40_0001; mod_end = 0x40_0004 }
    ∷ record { mod_start = 0x20_0000; mod_end = 0x20_0002 }
    ∷ []

-- The byte at each address is what is left of it.
abbrev mem : Mem
mem a = a % 0x100

-- The first byte of the second module.
moved : (move_multiboot_modules info mem modules).0 0x40_0003 ≡ 0
unfolding move_multiboot_modules copy_modules end_address_of_modules end_loop total_size_of_modules
    size_loop tmp_area next_addr physical memcpy
moved = refl
