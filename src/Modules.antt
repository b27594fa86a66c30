-- ===== src/Modules.antt =====
-- module.c: the modules of the boot loader are moved to a fixed place. The memory is that at the
-- physical addresses, to which the addresses of the kernel from 0xC0000000 on lead; the array of
-- modules is a list of its own, which no copy writes to.
pub mod Copy
pub mod Bounds
pub mod Move
mod Examples
use Prim.Native.Nat.{bit_and}
use aenix.Base.{ℕ, ◌+◌, ◌-◌, ◌%◌, List, [], ◌∷◌, ltb, ◌==◌, if◌then◌else◌, add32, sub32}
use aenix.Paging.Entry.{kernel_start_vaddr}
use aenix.CString.{Mem, memcpy}
use aenix.Kmain.{MultibootModule, MultibootInfo}

abbrev pub modules_base_virtual_address : ℕ
modules_base_virtual_address = 0xC040_0000

abbrev pub modules_base_physical_address : ℕ
modules_base_physical_address = 0x40_0000

unfoldable pub next_addr : ℕ → ℕ
next_addr addr = add32 addr (4 - addr % 4)

-- Where an address of the program leads.
unfoldable pub physical : ℕ → ℕ
physical addr = if ltb addr kernel_start_vaddr then addr else addr - kernel_start_vaddr

unfoldable pub end_loop : (modules_end : ℕ) → List MultibootModule → ℕ
end_loop modules_end [] = modules_end
end_loop modules_end (m ∷ ms) =
    end_loop (if ltb modules_end m.mod_end then m.mod_end else modules_end) ms

unfoldable pub end_address_of_modules : List MultibootModule → ℕ
end_address_of_modules ms = end_loop 0 ms

abbrev pub module_size : MultibootModule → ℕ
module_size m = sub32 m.mod_end m.mod_start

unfoldable pub size_loop : (size : ℕ) → List MultibootModule → ℕ
size_loop size [] = size
size_loop size (m ∷ ms) = size_loop (add32 size (module_size m)) ms

unfoldable pub total_size_of_modules : List MultibootModule → ℕ
total_size_of_modules ms = size_loop 0 ms

unfoldable pub copy_modules : Mem → List MultibootModule → (dest : ℕ) → Mem × List MultibootModule
copy_modules mem [] dest = (mem, [])
copy_modules mem (m ∷ ms) dest =
    let size = module_size m in
    let rest =
      copy_modules (memcpy mem (physical dest) (physical m.mod_start) size) ms (add32 dest size) in
    (rest.0, record { mod_start = dest; mod_end = add32 dest size } ∷ rest.1)

-- Where the modules do not fit between the others, they are copied behind all of them first.
unfoldable pub tmp_area : (end_addr total_size : ℕ) → ℕ
tmp_area end_addr total_size =
    let enough = add32 modules_base_physical_address total_size in
    if ltb end_addr enough then next_addr enough else next_addr end_addr

unfoldable pub move_multiboot_modules :
    MultibootInfo → Mem → List MultibootModule → Mem × List MultibootModule
move_multiboot_modules mbinfo mem ms =
    let end_addr = end_address_of_modules ms in
    let total_size = total_size_of_modules ms in
    let at_once = copy_modules mem ms modules_base_virtual_address in
    let behind = copy_modules mem ms (tmp_area end_addr total_size) in
    if bit_and mbinfo.flags 0x8 == 0
    then (mem, ms)
    else if ltb end_addr modules_base_physical_address
    then at_once
    else if ltb (add32 modules_base_physical_address total_size) mbinfo.mods_addr
    then at_once
    else copy_modules behind.0 behind.1 modules_base_virtual_address
