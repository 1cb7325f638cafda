-- ===== src/FileTransfer/Messages.antt =====
-- api/http/management_filetransfer.go: the messages of a file transfer, and how they are sent and
-- decoded. Packing by msgpack and publishing are calls whose ends are given.
use deviceconnect.Prelude.{
  ℕ, String, List, [], ◌∷◌, Option, none, some, Bool, true, false, ◌==◌, if◌then◌else◌,
}
use deviceconnect.Errors.{Error, Result, ok, err, panic, message, wrap, with_status}
use deviceconnect.Protocol.{
  Proto, MsgType, file_transfer, control, error, ack, chunk, file_info, ping, pong, Value, text,
  int64, negative, Properties, lookup,
}

-- A message as it is read: `none` is a nil body.
pub record Packet : Type 0 where
  pub proto : Proto
  pub msg_type : MsgType
  pub properties : Properties
  pub body : Option (List ℕ)

-- How `msgpack.Marshal` and `h.nats.Publish` end.
pub data Sending : Type 0 where
  published : Sending
  not_marshalled not_published : Error → Sending

-- What `publishFileTransferProtoMessage` returns.
unfoldable pub sent_result : Sending → Option Error
sent_result published = none
sent_result (not_marshalled e) = some (wrap e "failed to marshal the request")
sent_result (not_published e) = some (wrap e "failed to publish the message")

abbrev is_offset_type : MsgType → Bool
is_offset_type chunk = true
is_offset_type ack = true
is_offset_type _ = false

abbrev is_ping_type : MsgType → Bool
is_ping_type ping = true
is_ping_type pong = true
is_ping_type _ = false

-- The message that `publishFileTransferProtoMessage` sends; `body` is packed unless it is a chunk,
-- and an ACK has none.
unfoldable pub transfer_message : String → String → MsgType → Option (List ℕ) → Value → Packet
transfer_message session_id user_id t body offset = record {
  proto = if is_ping_type t then control else file_transfer;
  msg_type = t;
  properties =
      if is_offset_type t
      then ("user_id", text user_id) ∷ ("offset", offset) ∷ []
      else ("user_id", text user_id) ∷ [];
  body = elim t [ ack ↦ none | _ ↦ body ];
}

-- `ws.Error`; a code that is not positive is 0.
pub record DeviceError : Type 0 where
  pub text : String
  pub code : ℕ

pub data Body : Type 0 where
  no_body : Body
  error_body : DeviceError → Body
  info_body : ℕ → Body

abbrev unpacked : {A : Type 0} → (A → Body) → Packet → Result A → Result (Packet × Body)
unpacked f m (ok a) = ok (m, f a)
unpacked f m (err e) = err (wrap e "failed to unmarshal the request")
unpacked f m panic = panic

-- `decodeFileTransferProtoMessage`: `unpack_error` and `unpack_info` are `msgpack.Unmarshal` of the
-- two kinds of bodies; of a file's information only its being there matters.
module _ (unpack_error : Option (List ℕ) → Result DeviceError)
    (unpack_info : Option (List ℕ) → Result ℕ) where
  abbrev decode_by_type : MsgType → Packet → Result (Packet × Body)
  decode_by_type error m = unpacked error_body m (unpack_error m.body)
  decode_by_type file_info m = unpacked info_body m (unpack_info m.body)
  decode_by_type ack m = ok (m, no_body)
  decode_by_type chunk m = ok (m, no_body)
  decode_by_type ping m = ok (m, no_body)
  decode_by_type pong m = ok (m, no_body)
  decode_by_type _ m = err (message "unexpected message type")

  unfoldable pub decode_message : Result Packet → Result (Packet × Body)
  decode_message (ok m) = decode_by_type m.msg_type m
  decode_message (err e) = err (wrap e "failed to unmarshal the request")
  decode_message panic = panic

-- `propOffset, _ := properties[PropertyOffset].(int64)`: 0 where it is no int64, `none` below zero.
abbrev pub prop_offset : Properties → Option ℕ
prop_offset properties = elim (lookup "offset" properties) [
  | some (int64 n) ↦ some n
  | some negative ↦ none
  | _ ↦ some 0
]

-- `NewError(errors.New(e.Error), code)` with the code of the device, or else this one
abbrev pub device_error : DeviceError → ℕ → Error
device_error e code = with_status (message e.text) (if e.code == 0 then code else e.code)
