-- ===== src/CString/Examples.antt =====
-- Strings that the theorems on string.c are applied to.
use aenix.Base.{◌%◌, [], ◌∷◌}
use aenix.CString.{Str, Mem}

-- "bin", "boot" and "dev/null"
abbrev bin : Str
bin = 98 ∷ 105 ∷ 110 ∷ []

abbrev boot : Str
boot = 98 ∷ 111 ∷ 111 ∷ 116 ∷ []

abbrev dev : Str
dev = 100 ∷ 101 ∷ 118 ∷ []

-- The byte at every address is the address.
abbrev m : Mem
m a = a % 256
