-- ===== src/CString.antt =====
-- string.c (the kernel's, which the C library of the applications repeats): strings and memory.
-- A string is the list of its bytes before the NUL, and a pointer into it what is left from there.
pub mod Compare
pub mod Span
pub mod Memory
mod Examples
use aenix.Base.{
  ℕ, zero, suc, ◌+◌, ◌%◌, Bool, true, false, not, ◌&&◌, List, [], ◌∷◌, Option, none, some, ltb,
  ◌==◌, if◌then◌else◌, add32,
}

abbrev pub Str : Type 0
Str = List ℕ

-- `*s`
abbrev pub peek : Str → ℕ
peek [] = 0
peek (c ∷ s) = c

-- `s + 1`
abbrev pub next : Str → Str
next [] = []
next (c ∷ s) = s

-- -1, 0 and 1
pub data Cmp : Type 0 where
  less : Cmp
  equal : Cmp
  greater : Cmp

-- `char` is signed.
abbrev pub char_lt : ℕ → ℕ → Bool
char_lt a b = ltb ((a + 128) % 256) ((b + 128) % 256)

unfoldable pub strlen_loop : Str → ℕ → ℕ
strlen_loop [] len = len
strlen_loop (c ∷ s) len = strlen_loop s (add32 len 1)

unfoldable pub strlen : Str → ℕ
strlen s = strlen_loop s 0

unfoldable pub strcmp_loop : Str → Str → Cmp
strcmp_loop [] s2 = equal
strcmp_loop (c ∷ s1) s2 =
    let rest = strcmp_loop s1 (next s2) in
    if c == peek s2 then rest else if char_lt c (peek s2) then less else greater

unfoldable pub strcmp : Str → Str → Cmp
strcmp s1 s2 =
    if ltb (strlen s1) (strlen s2)
    then less
    else if ltb (strlen s2) (strlen s1)
    then greater
    else strcmp_loop s1 s2

-- The loop's counter moves, and its pointers stay.
unfoldable pub strncmp : Str → Str → ℕ → Cmp
strncmp s1 s2 zero = equal
strncmp s1 s2 (suc n) =
    let rest = strncmp s1 s2 n in
    if peek s1 == peek s2
    then rest
    else if (peek s1 == 0) && not (peek s2 == 0)
    then less
    else if (peek s2 == 0) && not (peek s1 == 0)
    then greater
    else if char_lt (peek s1) (peek s2)
    then less
    else greater

-- The rest of the string from the first `c`.
unfoldable pub strchr : Str → ℕ → Option Str
strchr [] c = none
strchr (d ∷ s) c = let rest = strchr s c in if d == c then some (d ∷ s) else rest

abbrev pub is_some {ℓ} : {A : Type ℓ} → Option A → Bool
is_some none = false
is_some (some a) = true

unfoldable pub strcspn_loop : Str → Str → ℕ → ℕ
strcspn_loop [] reject l = l
strcspn_loop (c ∷ s) reject l =
    let rest = strcspn_loop s reject (add32 l 1) in if is_some (strchr reject c) then l else rest

unfoldable pub strcspn : Str → Str → ℕ
strcspn s reject = strcspn_loop s reject 0

-- The bytes of the memory.
abbrev pub Mem : Type 0
Mem = ℕ → ℕ

abbrev pub store_byte : Mem → ℕ → ℕ → Mem
store_byte m p b a = if a == p then b else m a

-- `n` more bytes from `p` on
unfoldable pub memset_loop : ℕ → Mem → (p cb : ℕ) → Mem
memset_loop zero m p cb = m
memset_loop (suc n) m p cb = memset_loop n (store_byte m p cb) (p + 1) cb

unfoldable pub memset : Mem → (s c n : ℕ) → Mem
memset m s c n = memset_loop n m s (c % 256)

unfoldable pub memcpy : Mem → (dest src n : ℕ) → Mem
memcpy m dest src zero = m
memcpy m dest src (suc n) = memcpy (store_byte m dest (m src)) (dest + 1) (src + 1) n
