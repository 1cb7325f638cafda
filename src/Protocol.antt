-- ===== src/Protocol.antt =====
-- The messages of package ws of go-lib-micro, as far as the program looks into them. The constants
-- of that package are constructors; a value that the program does not name is `other`.
use deviceconnect.Prelude.{ℕ, String, List, [], ◌∷◌, Option, none, some, str_eq, if◌then◌else◌}

-- `ws.ProtoType…`
pub data Proto : Type 0 where
  shell file_transfer port_forward mender_client control : Proto
  other : ℕ → Proto

-- `ws.MessageType…`, `shell.MessageType…`, `wsft.MessageType…`, `menderclient.MessageType…` and
-- `model.DelayMessageName`
pub data MsgType : Type 0 where
  ping pong open_session accept close_session error : MsgType
  shell_command spawn_shell stop_shell resize_shell delay : MsgType
  get put stat ack chunk file_info : MsgType
  check_update send_inventory : MsgType
  other_type : String → MsgType

-- A value of `map[string]interface{}` by its dynamic type; `negative` is an int64 below zero.
pub data Value : Type 0 where
  text : String → Value
  int64 uint16 uint8 int8 : ℕ → Value
  negative : Value
  error_status : Value
  other_value : Value

abbrev pub Properties : Type 0
Properties = List (String × Value)

-- `v, ok := m[k]`
abbrev pub lookup : String → Properties → Option Value
lookup k [] = none
lookup k ((j, v) ∷ m) = if str_eq j k then some v else lookup k m

-- `m[k] = v`
abbrev pub insert : String → Value → Properties → Properties
insert k v [] = (k, v) ∷ []
insert k v ((j, w) ∷ m) = if str_eq j k then (k, v) ∷ m else (j, w) ∷ insert k v m

pub record ProtoMsg : Type 0 where
  pub proto : Proto
  pub msg_type : MsgType
  pub session_id : String
  pub properties : Properties
  pub body : List ℕ
