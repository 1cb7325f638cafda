-- ===== src/Terminal/Resize.antt =====
-- api/http/management.go: the recording of a change of the terminal's size.
use deviceconnect.Prelude.{
  ℕ, String, Bool, true, false, ◌||◌, [], ◌∷◌, str_eq, Bool-cases, Option, none, some, ◌≡◌, refl,
  arith, if◌then◌else◌,
}
use deviceconnect.Control.{Control, resize_message}
use deviceconnect.Protocol.{Value, Properties, lookup, uint8, int8}

abbrev pub height_field : String
height_field = "terminal_height"

abbrev pub width_field : String
width_field = "terminal_width"

abbrev is_some : Option Value → Bool
is_some none = false
is_some (some _) = true

-- The `switch` on the dynamic type of a size.
abbrev pub size_of : Option Value → ℕ
size_of (some (uint8 n)) = n
size_of (some (int8 n)) = n
size_of _ = 0

-- `sendResizeMessage`: the control message that is written, if any. `bytes_recorded` is
-- `sess.BytesRecorded`.
unfoldable pub resize_control : Properties → ℕ → Option Control
resize_control properties bytes_recorded =
    if is_some (lookup height_field properties)
    then none
    else if is_some (lookup width_field properties)
    then none
    else some (record {
      type = resize_message;
      offset = bytes_recorded;
      delay_ms = 0;
      terminal_width = size_of (lookup width_field properties);
      terminal_height = size_of (lookup height_field properties);
    })

-- One of the properties is a height or a width.
abbrev pub has_size : Properties → Bool
has_size [] = false
has_size ((k, v) ∷ m) = str_eq k "terminal_height" || (str_eq k "terminal_width" || has_size m)

has_size-lookup :
    (m : Properties)
    → has_size m ≡ (is_some (lookup height_field m) || is_some (lookup width_field m))
has_size-lookup [] = refl
has_size-lookup ((k, v) ∷ m) =
    ground (arith, Bool-cases (str_eq k "terminal_height"), has_size-lookup m)

resize_control-lookup :
    (m : Properties) (bytes_recorded : ℕ)
    → resize_control m bytes_recorded ≡ (
        if is_some (lookup height_field m) || is_some (lookup width_field m)
        then none
        else some (record {
          type = 1;
          offset = bytes_recorded;
          delay_ms = 0;
          terminal_width = 0;
          terminal_height = 0;
        }))
unfolding resize_control
resize_control-lookup m bytes_recorded = ground arith

-- A message among whose properties is a height or a width leaves no control message, whatever the
-- value and the other properties are; every other message leaves one of the size zero by zero at the
-- bytes recorded so far. So no size of a terminal is ever recorded.
pub resize_control-zero :
    (properties : Properties) (bytes_recorded : ℕ)
    → resize_control properties bytes_recorded ≡ (
        if has_size properties
        then none
        else some (record {
          type = 1;
          offset = bytes_recorded;
          delay_ms = 0;
          terminal_width = 0;
          terminal_height = 0;
        }))
resize_control-zero properties bytes_recorded =
    rw (has_size-lookup properties) (resize_control-lookup properties bytes_recorded)
