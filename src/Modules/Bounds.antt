-- ===== src/Modules/Bounds.antt =====
-- module.c: where the modules end and begin, how many bytes they have, and where the temporary place
-- is.

use aenix.Base.{
  ℕ, ◌+◌, ◌-◌, ◌^◌, ◌≤◌, ◌<◌, ◌≡◌, ◌∙◌, List, [], ◌∷◌, ltb, if◌then◌else◌, arith, inl, inr, add32,
}
use aenix.Kmain.{MultibootModule}
use aenix.Modules.{
  module_size, end_loop, end_address_of_modules, size_loop, total_size_of_modules, next_addr,
  tmp_area,
}
use aenix.Modules.Copy.{bytes_of, AreModules, AreApart, size_lem}

-- All modules end at `limit` or before, or begin at `limit` or behind.
abbrev pub EndBefore : List MultibootModule → (limit : ℕ) → Type 0
EndBefore [] limit = Unit {0}
EndBefore (m ∷ ms) limit = (m.mod_end ≤ limit) × EndBefore ms limit

abbrev pub StartFrom : List MultibootModule → (limit : ℕ) → Type 0
StartFrom [] limit = Unit {0}
StartFrom (m ∷ ms) limit = (limit ≤ m.mod_start) × StartFrom ms limit

pub EndBefore-AreApart :
    (ms : List MultibootModule) (limit low high : ℕ)
    → limit ≤ low
    → EndBefore ms limit
    → AreApart ms low high
EndBefore-AreApart [] limit low high le before = tt
EndBefore-AreApart (m ∷ ms) limit low high le (here, before) =
    (inl (omega (arith, le, here)), EndBefore-AreApart ms limit low high le before)

pub StartFrom-AreApart :
    (ms : List MultibootModule) (limit low high : ℕ)
    → high ≤ limit
    → StartFrom ms limit
    → AreApart ms low high
StartFrom-AreApart [] limit low high le from = tt
StartFrom-AreApart (m ∷ ms) limit low high le (here, from) =
    (inr (omega (arith, le, here)), StartFrom-AreApart ms limit low high le from)

end_loop_up : (e : ℕ) (ms : List MultibootModule) → e ≤ end_loop e ms
unfolding end_loop
end_loop_up e [] = omega arith
end_loop_up e (m ∷ ms) =
    let up = end_loop_up (if ltb e m.mod_end then m.mod_end else e) ms in grind arith

end_loop-EndBefore : (e : ℕ) (ms : List MultibootModule) → EndBefore ms (end_loop e ms)
unfolding end_loop
end_loop-EndBefore e [] = tt
end_loop-EndBefore e (m ∷ ms) =
    let e' = if ltb e m.mod_end then m.mod_end else e in
    let up : e' ≤ end_loop e' ms = end_loop_up e' ms in (grind arith, end_loop-EndBefore e' ms)

end_loop_max :
    (e : ℕ) (ms : List MultibootModule) (limit : ℕ)
    → e ≤ limit
    → EndBefore ms limit
    → end_loop e ms ≤ limit
unfolding end_loop
end_loop_max e [] limit le before = le
end_loop_max e (m ∷ ms) limit le (here, before) =
    end_loop_max (if ltb e m.mod_end then m.mod_end else e) ms limit (ground (arith, le, here))
      before

size_loop_lem :
    (size : ℕ) (ms : List MultibootModule)
    → AreModules ms
    → size + bytes_of ms < 2 ^ 32
    → size_loop size ms ≡ size + bytes_of ms
unfolding size_loop bytes_of
size_loop_lem size [] modules lt = omega arith
size_loop_lem size (m ∷ ms) (le, below, modules) lt =
    let n = m.mod_end - m.mod_start in
    let n_lem : module_size m ≡ n = size_lem m le below in
    let added : add32 size n ≡ size + n = grind arith in
    rw (n_lem, added) (size_loop_lem (size + n) ms modules (omega (arith, lt)) ∙ omega arith)

pub end_address_lem :
    (ms : List MultibootModule) (limit : ℕ)
    → EndBefore ms limit
    → EndBefore ms (end_address_of_modules ms) × (end_address_of_modules ms ≤ limit)
unfolding end_address_of_modules
end_address_lem ms limit before =
    (end_loop-EndBefore 0 ms, end_loop_max 0 ms limit (omega arith) before)

pub total_size_lem :
    (ms : List MultibootModule)
    → AreModules ms
    → bytes_of ms < 2 ^ 32
    → total_size_of_modules ms ≡ bytes_of ms
unfolding total_size_of_modules
total_size_lem ms modules lt = size_loop_lem 0 ms modules (omega (arith, lt)) ∙ omega arith

next_addr_lem :
    (addr : ℕ) → addr + 4 < 2 ^ 32 → (addr < next_addr addr) × (next_addr addr ≤ addr + 4)
unfolding next_addr
next_addr_lem addr lt = (omega arith, omega arith)

pub tmp_area_lem :
    (e n : ℕ)
    → n < 0x3F00_0000
    → e + n + 8 < 0xC000_0000
    → (e ≤ tmp_area e n) × (0x40_0000 + n ≤ tmp_area e n) × (tmp_area e n + n < 0xC000_0000)
unfolding tmp_area
tmp_area_lem e n few room =
    let enough : add32 0x40_0000 n ≡ 0x40_0000 + n = grind arith in
    let one = next_addr_lem (0x40_0000 + n) (omega (arith, few)) in
    let other = next_addr_lem e (omega (arith, room)) in rw enough (grind arith)
