-- ===== src/Modules/Copy.antt =====
-- module.c: what `copy_modules` leaves in the memory.
use aenix.Base.{ℕ, ◌+◌, ◌-◌, ◌^◌, ◌≤◌, ◌<◌, ◌≡◌, ◌⊎◌, refl, ◌∙◌, List, [], ◌∷◌, arith, inl, add32}
use aenix.CString.{Mem, memcpy}
use aenix.CString.Memory.{memcpy_lem}
use aenix.Kmain.{MultibootModule}
use aenix.Modules.{physical, module_size, copy_modules}

-- The bytes of all modules.
unfoldable pub bytes_of : List MultibootModule → ℕ
bytes_of [] = 0
bytes_of (m ∷ ms) = m.mod_end - m.mod_start + bytes_of ms

-- Modules below the kernel's addresses.
abbrev pub AreModules : List MultibootModule → Type 0
AreModules [] = Unit {0}
AreModules (m ∷ ms) = (m.mod_start ≤ m.mod_end) × (m.mod_end < 0xC000_0000) × AreModules ms

-- No module has a byte from `low` up to `high`.
abbrev pub AreApart : List MultibootModule → (low high : ℕ) → Type 0
AreApart [] low high = Unit {0}
AreApart (m ∷ ms) low high = ((m.mod_end ≤ low) ⊎ (high ≤ m.mod_start)) × AreApart ms low high

-- Addresses that lead to memory in one piece.
abbrev pub IsRange : (dest n : ℕ) → Type 0
IsRange dest n = (dest + n < 0xC000_0000) ⊎ ((0xC000_0000 ≤ dest) × (dest + n < 2 ^ 32))

-- The modules `ms` of the memory `mem` are those of `ms'` in `mem'`, one behind the other from
-- `dest` on.
abbrev pub HasCopied : Mem → List MultibootModule → Mem → List MultibootModule → (dest : ℕ) → Type 0
HasCopied mem [] mem' [] dest = Unit {0}
HasCopied mem [] mem' (m' ∷ ms') dest = ⊥
HasCopied mem (m ∷ ms) mem' [] dest = ⊥
HasCopied mem (m ∷ ms) mem' (m' ∷ ms') dest =
    (m'.mod_start ≡ dest)
    × (m'.mod_end ≡ dest + (m.mod_end - m.mod_start))
    × ((i : ℕ)
        → i < m.mod_end - m.mod_start
        → mem' (physical dest + i) ≡ mem (physical m.mod_start + i))
    × HasCopied mem ms mem' ms' (dest + (m.mod_end - m.mod_start))

pub physical_low : (a : ℕ) → a < 0xC000_0000 → physical a ≡ a
unfolding physical
physical_low a lt = ground arith

physical_add : (a k n : ℕ) → k ≤ n → IsRange a n → physical (a + k) ≡ physical a + k
unfolding physical
physical_add a k n le range = grind arith

pub size_lem :
    (m : MultibootModule)
    → m.mod_start ≤ m.mod_end
    → m.mod_end < 0xC000_0000
    → module_size m ≡ m.mod_end - m.mod_start
size_lem m le lt = omega arith

-- The modules apart from a piece of memory are the same in a memory that is changed there.
HasCopied-outside :
    (mem mem1 mem' : Mem) (ms ms' : List MultibootModule) (dest low high : ℕ)
    → AreModules ms
    → AreApart ms low high
    → ((a : ℕ) → (a < low) ⊎ (high ≤ a) → mem1 a ≡ mem a)
    → HasCopied mem1 ms mem' ms' dest
    → HasCopied mem ms mem' ms' dest
HasCopied-outside mem mem1 mem' [] [] dest low high modules apart same h = h
HasCopied-outside mem mem1 mem' [] (m' ∷ ms') dest low high modules apart same h = h
HasCopied-outside mem mem1 mem' (m ∷ ms) [] dest low high modules apart same h = h
HasCopied-outside mem mem1 mem' (m ∷ ms) (m' ∷ ms') dest low high (le, lt, modules) (here, apart)
      same (start, end_, bytes, h) =
    let low_ : physical m.mod_start ≡ m.mod_start =
      physical_low m.mod_start (omega (arith, le, lt)) in
    (
      start,
      end_,
      λ i less. bytes i less ∙ same (physical m.mod_start + i) (grind arith),
      HasCopied-outside mem mem1 mem' ms ms' (dest + (m.mod_end - m.mod_start)) low high modules
          apart same h,
    )

-- A smaller piece is apart from the modules as well.
AreApart-within :
    (ms : List MultibootModule) (low high low' high' : ℕ)
    → low ≤ low'
    → high' ≤ high
    → AreApart ms low high
    → AreApart ms low' high'
AreApart-within [] low high low' high' le le' apart = apart
AreApart-within (m ∷ ms) low high low' high' le le' (here, apart) =
    (grind arith, AreApart-within ms low high low' high' le le' apart)

-- Modules that are apart from the place they are copied to come there with their bytes, and the
-- rest of the memory is as it was.
pub copy_modules-HasCopied :
    (mem : Mem) (ms : List MultibootModule) (dest : ℕ)
    → AreModules ms
    → IsRange dest (bytes_of ms)
    → AreApart ms (physical dest) (physical dest + bytes_of ms)
    → let r = copy_modules mem ms dest in
      HasCopied mem ms r.0 r.1 dest
      × ((a : ℕ) → (a < physical dest) ⊎ (physical dest + bytes_of ms ≤ a) → r.0 a ≡ mem a)
unfolding copy_modules bytes_of
copy_modules-HasCopied mem [] dest modules range apart = (tt, λ a out. refl)
copy_modules-HasCopied mem (m ∷ ms) dest (le, lt, modules) range (here, apart) =
    let n = m.mod_end - m.mod_start in
    let n_lem : module_size m ≡ n = size_lem m le lt in
    let start_lem : physical m.mod_start ≡ m.mod_start =
      physical_low m.mod_start (omega (arith, le, lt)) in
    let mem1 = memcpy mem (physical dest) (physical m.mod_start) n in
    let copied = memcpy_lem n mem (physical dest) (physical m.mod_start) (grind arith) in
    let dest_lem : add32 dest n ≡ dest + n = grind arith in
    let behind : physical (dest + n) ≡ physical dest + n =
      physical_add dest n (n + bytes_of ms) (omega arith) range in
    let ih = copy_modules-HasCopied mem1 ms (dest + n) modules (grind arith) (
      AreApart-within ms (physical dest) (physical dest + (n + bytes_of ms)) (physical (dest + n))
        (physical (dest + n) + bytes_of ms) (omega (arith, behind)) (omega (arith, behind))
        apart) in
    rw (n_lem, dest_lem)
      (
        (
          refl,
          refl,
          λ i less. ih.1 (physical dest + i) (inl (omega (arith, behind, less))) ∙ copied.0 i less,
          HasCopied-outside mem mem1 _ ms _ (dest + n) (physical dest) (physical dest + n) modules
              (AreApart-within ms (physical dest) (physical dest + (n + bytes_of ms))
                (physical dest) (physical dest + n) (omega arith) (omega arith) apart)
              copied.1 ih.0,
        ),
        λ a out. ih.1 a (grind arith) ∙ copied.1 a (grind arith),
      )
