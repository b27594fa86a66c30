-- ===== src/Pic.antt =====
-- pic.c: the interrupt controllers, as the port writes of each function.
use aenix.Base.{ℕ, [], ◌∷◌, ◌++◌}
use aenix.Io.{Outs, outb}

unfoldable pub pic_mask : ℕ → ℕ → Outs
pic_mask mask1 mask2 = outb 0x21 mask1 ∷ outb 0xa1 mask2 ∷ []

unfoldable pub pic_acknowledge : Outs
pic_acknowledge = outb 0x20 0x20 ∷ outb 0xa0 0x20 ∷ []

-- `PIC2_ICW1` is defined as `PIC1_ICW2`, 0x20.
unfoldable pub pic_init : Outs
unfolding pic_mask
pic_init =
    (outb 0x20 0x11
      ∷ outb 0xa0 0x20
      ∷ outb 0x21 0x20
      ∷ outb 0xa1 0x28
      ∷ outb 0x21 0x04
      ∷ outb 0xa1 0x02
      ∷ outb 0x21 0x05
      ∷ outb 0xa1 0x01
      ∷ [])
    ++ pic_mask 0xec 0xff
