-- ===== src/Control/RoundTrip.antt =====
-- app/control.go: the control messages that the program makes, and their byte form.
use deviceconnect.Prelude.{ℕ, ◌+◌, ◌*◌, ◌/◌, ◌%◌, ◌<◌, ◌≡◌, List, ◌++◌, arith}
use deviceconnect.Errors.{ok}
use deviceconnect.Control.{
  Control, zero_control, resize_message, delay_message, marshal_binary, unmarshal_binary,
}

-- The controls that the program makes: of one of the two types, with the fields of the other left
-- at zero, and every field in its range.
pub data IsControl (c : Control) : Type 0 where
  delay :
      c.type ≡ delay_message
      → c.offset < 4294967296
      → c.delay_ms < 65536
      → c.terminal_width ≡ 0
      → c.terminal_height ≡ 0
      → IsControl c
  resize :
      c.type ≡ resize_message
      → c.offset < 4294967296
      → c.delay_ms ≡ 0
      → c.terminal_width < 65536
      → c.terminal_height < 65536
      → IsControl c

uint32_digits :
    (x : ℕ)
    → x < 4294967296
    → x % 256 + 256 * (x / 256 % 256) + 65536 * (x / 65536 % 256) + 16777216 * (x / 16777216 % 256)
      ≡ x
uint32_digits x h = omega arith

uint16_digits : (x : ℕ) → x < 65536 → x % 256 + 256 * (x / 256 % 256) ≡ x
uint16_digits x h = omega arith

-- Unmarshalling the bytes of a control message that the program makes, with any bytes after them,
-- gives the message back.
pub unmarshal_binary-marshal_binary :
    (c : Control) (rest : List ℕ)
    → IsControl c
    → unmarshal_binary zero_control (marshal_binary c ++ rest) ≡ ok c
unfolding marshal_binary unmarshal_binary
unmarshal_binary-marshal_binary c rest (delay t o d w h) =
    ground (arith, uint32_digits c.offset, uint16_digits c.delay_ms)
unmarshal_binary-marshal_binary c rest (resize t o d w h) =
    ground (
      arith,
      uint32_digits c.offset,
      uint16_digits c.terminal_width,
      uint16_digits c.terminal_height,
    )
