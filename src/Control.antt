-- ===== src/Control.antt =====
-- app/control.go: the control messages of a terminal recording and their byte form. A byte is a
-- number below 256, a `uint16` one below 65536; `Offset` is a Go int that is never negative.
pub mod RoundTrip
use deviceconnect.Prelude.{
  ℕ, ◌+◌, ◌*◌, ◌/◌, ◌%◌, List, [], ◌∷◌, length, drop, ltb, ◌==◌, if◌then◌else◌,
}
use deviceconnect.Errors.{Result, ok, err, panic, short_buffer, unknown_message}

abbrev pub resize_message : ℕ
resize_message = 1

abbrev pub delay_message : ℕ
delay_message = 2

pub record Control : Type 0 where
  pub type : ℕ  -- byte
  pub offset : ℕ
  pub delay_ms : ℕ  -- uint16
  pub terminal_width : ℕ  -- uint16
  pub terminal_height : ℕ  -- uint16

-- `&app.Control{}`
abbrev pub zero_control : Control
zero_control = record {
  type = 0;
  offset = 0;
  delay_ms = 0;
  terminal_width = 0;
  terminal_height = 0;
}

-- `binary.LittleEndian.PutUint32(b, uint32(x))`
abbrev put_uint32 : ℕ → List ℕ → List ℕ
put_uint32 x rest = x % 256 ∷ x / 256 % 256 ∷ x / 65536 % 256 ∷ x / 16777216 % 256 ∷ rest

-- `binary.LittleEndian.PutUint16(b, x)`
abbrev put_uint16 : ℕ → List ℕ → List ℕ
put_uint16 x rest = x % 256 ∷ x / 256 % 256 ∷ rest

-- `binary.LittleEndian.Uint32(b)`; the callers have tested the length.
abbrev get_uint32 : List ℕ → ℕ
get_uint32 (a ∷ b ∷ c ∷ d ∷ _) = a + 256 * b + 65536 * c + 16777216 * d
get_uint32 _ = 0

-- `binary.LittleEndian.Uint16(b)`
abbrev get_uint16 : List ℕ → ℕ
get_uint16 (a ∷ b ∷ _) = a + 256 * b
get_uint16 _ = 0

-- `Control.MarshalBinary`; an unknown type gives a nil slice.
unfoldable pub marshal_binary : Control → List ℕ
marshal_binary c =
    if c.type == resize_message
    then c.type
      ∷ put_uint32 c.offset (put_uint16 c.terminal_width (put_uint16 c.terminal_height []))
    else if c.type == delay_message
    then c.type ∷ put_uint32 c.offset (put_uint16 c.delay_ms [])
    else []

-- `Control.UnmarshalBinary` on the control `c`; `controlMessageBuffer[0]` of an empty slice panics.
unfoldable pub unmarshal_binary : Control → List ℕ → Result Control
unmarshal_binary c [] = panic
unmarshal_binary c (t ∷ bs) =
    if t == delay_message
    then (if ltb (length bs) 6
        then err short_buffer
        else ok (record c {
          type = delay_message;
          offset = get_uint32 bs;
          delay_ms = get_uint16 (drop 4 bs);
        }))
    else if t == resize_message
    then (if ltb (length bs) 8
        then err short_buffer
        else ok (record c {
          type = resize_message;
          offset = get_uint32 bs;
          terminal_width = get_uint16 (drop 4 bs);
          terminal_height = get_uint16 (drop 6 bs);
        }))
    else err unknown_message
