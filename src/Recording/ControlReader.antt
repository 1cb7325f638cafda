-- ===== src/Recording/ControlReader.antt =====
-- store/mongo/control_reader.go: the control messages of a recording, one at a time.
pub mod Pops
pub mod Size
use deviceconnect.Prelude.{
  ℕ, ◌+◌, ◌-◌, List, [], ◌∷◌, ◌++◌, length, drop, get_elem?, Option, none, some, Bool, true, false,
  ltb, leb, ◌==◌, if◌then◌else◌,
}
use deviceconnect.Errors.{Error, Result, ok, err, panic}
use deviceconnect.Control.{Control, zero_control, delay_message, resize_message, unmarshal_binary}
use deviceconnect.Recording.Stream.{Stream, end, read, is_failure, Cursor}

abbrev pub control_read_buffer_size : ℕ
control_read_buffer_size = 4096

pub record ControlMessageReader : Type 0 where
  -- `c != nil`
  pub live : Bool
  pub current_offset : ℕ
  -- `output[:outputLength]`
  pub output : List ℕ
  pub gzip_reader : Stream

-- `&ControlMessageReader{}`
abbrev pub noop_reader : ControlMessageReader
noop_reader = record { live = false; current_offset = 0; output = []; gzip_reader = end }

-- The first read of `NewControlMessageReader`.
abbrev first_read : List ℕ × Option Error × Stream → ControlMessageReader
first_read (bs, e, s) =
    if is_failure e
    then noop_reader
    else record { live = true; current_offset = 0; output = bs; gzip_reader = s }

-- `NewControlMessageReader`; `gunzip` is `gzip.NewReader`.
unfoldable pub new_control_message_reader : (List ℕ → Result Stream) → Cursor → ControlMessageReader
new_control_message_reader gunzip [] = noop_reader
new_control_message_reader gunzip (ok control ∷ c) = elim (gunzip control) [
  | ok s ↦ first_read (read control_read_buffer_size s)
  | err _ ↦ noop_reader
  | panic ↦ noop_reader
]
new_control_message_reader gunzip (_ ∷ c) = noop_reader

-- The end of `Pop`: a message of `size` bytes was taken at `offset`.
abbrev advance : ControlMessageReader → ℕ → ControlMessageReader
advance r offset =
    if leb (length r.output) offset
    then record r { output = []; current_offset = 0 }
    else record r { current_offset = offset }

abbrev take_message :
    ControlMessageReader → ℕ → Result Control → Result (Option Control) × ControlMessageReader
take_message r offset (ok m) = (ok (some m), advance r offset)
take_message r offset (err _) = (ok none, r)
take_message r offset panic = (panic, r)

-- `switch controlMessageBuffer[offset]`
abbrev decode_message :
    ControlMessageReader → Option ℕ → Result (Option Control) × ControlMessageReader
decode_message r none = (panic, r)
decode_message r (some t) =
    let offset = r.current_offset in
    if t == delay_message
    then (if ltb (length r.output) (offset + 7)
        then (ok none, r)
        else take_message r (offset + 7) (unmarshal_binary zero_control (drop offset r.output)))
    else if t == resize_message
    then (if ltb (length r.output) (offset + 9)
        then (ok none, r)
        else take_message r (offset + 9) (unmarshal_binary zero_control (drop offset r.output)))
    else (ok none, r)

abbrev decode : ControlMessageReader → Result (Option Control) × ControlMessageReader
decode r =
    if ltb (length r.output) 3
    then (ok none, r)
    else decode_message r (get_elem? r.output r.current_offset)

-- The refill at the start of `Pop`; on a failed read the bytes are not counted.
abbrev refilled :
    ControlMessageReader
    → List ℕ × Option Error × Stream
    → Result (Option Control) × ControlMessageReader
refilled r (bs, e, s) =
    if is_failure e
    then (ok none, record r { gzip_reader = s })
    else decode (record r { output = r.output ++ bs; gzip_reader = s })

-- `Pop`; `ok none` is a nil result.
unfoldable pub pop : ControlMessageReader → Result (Option Control) × ControlMessageReader
pop r =
    if r.live
    then (if ltb (length r.output) 3
        then refilled r (read (control_read_buffer_size - length r.output) r.gzip_reader)
        else decode r)
    else (ok none, r)
