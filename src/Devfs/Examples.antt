-- ===== src/Devfs/Examples.antt =====
-- Devices that the theorems on devfs.c are applied to.
use aenix.Base.{[], ◌∷◌}
use aenix.Devfs.{DevfsInode}

-- "console", "keyboard" and "disk" are shortened to their first letters.
abbrev console : DevfsInode
console = record { name = 99 ∷ []; node = record { v_op = 1; v_data = 123456 } }

abbrev keyboard : DevfsInode
keyboard = record { name = 107 ∷ []; node = record { v_op = 2; v_data = 0 } }

abbrev disk : DevfsInode
disk = record { name = 100 ∷ []; node = record { v_op = 3; v_data = 0 } }
