-- ===== src/Log/Examples.antt =====
-- Numbers and format strings that the theorems on log.c are applied to.
use aenix.Base.{◌≡◌, refl, [], ◌∷◌, some, none, arith}
use aenix.Fb.{Fb}
use aenix.Log.{
  log_ui, first_power, power_loop, digits_loop, log_hex, first_nibble, nibble_loop, pad_loop,
  hex_loop, num, text, log_vprintf, printf, log_convert, log_message, log_info,
}
use aenix.Log.Decimal.{AreDigits, value, log_ui-value}
use aenix.Log.Format.{shows, printf-log_vprintf}

log_ui-value_example :
    AreDigits (log_ui 4_294_967_295) × (value 0 (log_ui 4_294_967_295) ≡ 4_294_967_295)
log_ui-value_example = log_ui-value 4_294_967_295 (omega arith)

-- "100" and "0"
prints : (log_ui 100 ≡ 49 ∷ 48 ∷ 48 ∷ []) × (log_ui 0 ≡ 48 ∷ [])
unfolding log_ui first_power power_loop digits_loop
prints = (refl, refl)

-- "0x00000A0F"
prints_hex :
    log_hex 0xA0F ≡ b'0' ∷ b'x' ∷ b'0' ∷ b'0' ∷ b'0' ∷ b'0' ∷ b'0' ∷ b'A' ∷ b'0' ∷ b'F' ∷ []
unfolding log_hex first_nibble nibble_loop pad_loop hex_loop
prints_hex = refl

abbrev console : Fb
console = record { cells = λ a. 0; cursor_pos = 0; outs = [] }

-- "%s: %X%%"
printf-log_vprintf_example :
    printf console
      (b'%' ∷ b's' ∷ b':' ∷ b' ' ∷ b'%' ∷ b'X' ∷ b'%' ∷ b'%' ∷ [])
      (text (b'a' ∷ []) ∷ num 255 ∷ [])
    ≡ shows console (
        log_vprintf
          (b'%' ∷ b's' ∷ b':' ∷ b' ' ∷ b'%' ∷ b'X' ∷ b'%' ∷ b'%' ∷ [])
          (text (b'a' ∷ []) ∷ num 255 ∷ []))
printf-log_vprintf_example =
    printf-log_vprintf (b'%' ∷ b's' ∷ b':' ∷ b' ' ∷ b'%' ∷ b'X' ∷ b'%' ∷ b'%' ∷ []) console
      (text (b'a' ∷ []) ∷ num 255 ∷ []) (omega arith)

-- "INFO: f: 7%"
logs :
    log_info (b'f' ∷ []) (b'%' ∷ b'u' ∷ b'%' ∷ b'%' ∷ []) (num 7 ∷ [])
    ≡ some (b'I' ∷ b'N' ∷ b'F' ∷ b'O' ∷ b':' ∷ b' ' ∷ b'f' ∷ b':' ∷ b' ' ∷ b'7' ∷ b'%' ∷ [])
unfolding log_info log_message log_vprintf log_convert log_ui first_power power_loop digits_loop
logs = refl

-- "%" reads on behind its end.
ends_in_percent : log_vprintf (b'%' ∷ []) [] ≡ none
unfolding log_vprintf
ends_in_percent = refl
