-- ===== src/Examples/Connections.antt =====
-- Subjects, terminals and the users' websockets.
use deviceconnect.Prelude.{
  String, true, false, List, [], ◌∷◌, none, some, ◌≡◌, refl, str_eq_iff, str_eq_iff,
}
use deviceconnect.Protocol.{ProtoMsg, MsgType, shell, spawn_shell}
use deviceconnect.Session.{Session}
use deviceconnect.Control.{Control}
use deviceconnect.Subject.{session_subject}
use deviceconnect.Subject.Injective.{session_subject-injective, device_subject-injective}
use deviceconnect.Terminal.Resize.{resize_control, resize_control-zero}
use deviceconnect.Terminal.UserLoop.{Input, arrival, close_frame, user_loop, new_user_loop}
use deviceconnect.Terminal.UserLoop.Audit.{AllAllowed, IsTyped, user_loop-IsAudited}
use deviceconnect.Terminal.UserLoop.Logged.{is_shell, is_port_forward, IsLogged}

abbrev spawn : ProtoMsg
spawn = record {
  proto = shell;
  msg_type = spawn_shell;
  session_id = "s1";
  properties = [];
  body = [];
}

abbrev typed : ProtoMsg
typed = record spawn { msg_type = MsgType.shell_command; body = 108 ∷ 115 ∷ [] }

abbrev session : Session
session = record {
  id = "s1";
  user_id = "u1";
  device_id = "d1";
  types = [];
  start_ts = 10;
  tenant_id = "acme";
  bytes_recorded = 0;
}

session_subject-injective_example : (◌≡◌ {A = String} "acme" "acme") × (◌≡◌ {A = String} "s1" "s1")
unfolding session_subject
session_subject-injective_example =
    session_subject-injective "acme" "acme" "s1" "s1" refl refl refl refl refl

device_subject-injective_example : (◌≡◌ {A = String} "acme" "acme") × (◌≡◌ {A = String} "d1" "d1")
device_subject-injective_example =
    device_subject-injective "acme" "acme" "d1" "d1" refl refl refl refl refl

abbrev no_size : Control
no_size = record { type = 1; offset = 7; delay_ms = 0; terminal_width = 0; terminal_height = 0 }

resize_control-zero_example : resize_control [] 7 ≡ some no_size
resize_control-zero_example = resize_control-zero [] 7

abbrev inputs : List Input
inputs =
    arrival (record { msg = spawn; logged = none; bytes_recorded = 0; taken = 0; published = none })
    ∷ close_frame
    ∷ []

user_loop-IsAudited_example :
    let l = user_loop "acme" session new_user_loop inputs in
    AllAllowed "acme" session true false l.sent
    × IsTyped l.log_terminal l.log_port_forward l.types
    × IsLogged is_shell inputs l.log_terminal l.status
    × IsLogged is_port_forward inputs l.log_port_forward l.status
user_loop-IsAudited_example = user_loop-IsAudited "acme" session inputs
