-- ===== src/Terminal/UserLoop.antt =====
-- api/http/management.go: `connectServeWSProcessMessages`, the read loop of the user's websocket.
-- The input is what the websocket gives and how the calls end that a message leads to.
pub mod Audit
pub mod Logged
use deviceconnect.Prelude.{
  ℕ, ◌+◌, ◌*◌, String, Bool, true, false, not, List, [], ◌∷◌, ◌++◌, Option, none, some, leb,
  if◌then◌else◌,
}
use deviceconnect.Errors.{Error}
use deviceconnect.Protocol.{
  ProtoMsg, Proto, MsgType, shell, port_forward, spawn_shell, stop_shell, resize_shell, insert,
  Value, text,
}
use deviceconnect.Control.{Control}
use deviceconnect.Session.{Session, session_type_terminal, session_type_port_forward}
use deviceconnect.Subject.{device_subject}
use deviceconnect.Terminal.Resize.{resize_control}

-- app/limits.go
abbrev pub message_size_limit : ℕ
message_size_limit = 8 * 1024 * 1024

-- A message that was read: what `LogUserSession` gives if it is called, the bytes of output
-- recorded so far, how many bytes of a control message the recorder takes, and what `Publish` gives
-- if it is called.
pub record Arrival : Type 0 where
  pub msg : ProtoMsg
  pub logged : Option Error
  pub bytes_recorded : ℕ
  pub taken : ℕ
  pub published : Option Error

pub data Input : Type 0 where
  -- `*websocket.CloseError`
  close_frame : Input
  read_error malformed : Error → Input
  arrival : Arrival → Input

pub data Status : Type 0 where
  running : Status
  returned : Option Error → Status

-- The variables of the loop, and what it has done.
pub record UserLoop : Type 0 where
  pub status : Status
  pub types : List String
  pub log_terminal : Bool
  pub log_port_forward : Bool
  -- the type whose entry the audit log refused
  pub refused : Option String
  pub terminal_running : Bool
  pub control_bytes : ℕ
  pub ignore_control : Bool
  pub recorded : List Control
  pub sent : List (String × ProtoMsg)

abbrev pub property_user_id : String
property_user_id = "user_id"

-- The message as it is passed on: with the session's id and the user's.
abbrev pub stamped : Session → ProtoMsg → ProtoMsg
stamped s m = record m {
  session_id = s.id;
  properties = insert property_user_id (text s.user_id) m.properties;
}

-- `h.nats.Publish(model.GetDeviceSubject(id.Tenant, sess.DeviceID), data)`
abbrev pub forward : String → Session → Arrival → UserLoop → UserLoop
forward tenant s a l =
    let l' = record l {
      sent = l.sent ++ ((device_subject tenant s.device_id, stamped s a.msg) ∷ []);
    } in
    elim a.published [ none ↦ l' | some e ↦ record l' { status = returned (some e) } ]

abbrev pub record_resize : Option Control → ℕ → UserLoop → UserLoop
record_resize none taken l = l
record_resize (some c) taken l = record l {
  recorded = l.recorded ++ (c ∷ []);
  control_bytes = l.control_bytes + taken;
}

-- The `switch` on the type of a shell message; a `continue` leaves the message unsent.
abbrev pub shell_message : String → Session → Arrival → MsgType → UserLoop → UserLoop
shell_message tenant s a spawn_shell l = forward tenant s a (record l { terminal_running = true })
shell_message tenant s a stop_shell l = forward tenant s a (record l { terminal_running = false })
shell_message tenant s a resize_shell l =
    if l.ignore_control
    then l
    else if leb message_size_limit l.control_bytes
    then record l { ignore_control = true }
    else forward tenant s a
        (record_resize (resize_control (stamped s a.msg).properties a.bytes_recorded) a.taken l)
shell_message tenant s a _ l = forward tenant s a l

-- The audit log is written before the first message of a kind is passed on.
abbrev pub audit_terminal : Option Error → UserLoop → (UserLoop → UserLoop) → UserLoop
audit_terminal (some e) l rest = record l {
  status = returned (some e);
  refused = some session_type_terminal;
}
audit_terminal none l rest =
    rest (record l { types = l.types ++ (session_type_terminal ∷ []); log_terminal = true })

abbrev pub audit_port_forward : Option Error → UserLoop → (UserLoop → UserLoop) → UserLoop
audit_port_forward (some e) l rest = record l {
  status = returned (some e);
  refused = some session_type_port_forward;
}
audit_port_forward none l rest =
    rest (record l { types = l.types ++ (session_type_port_forward ∷ []); log_port_forward = true })

abbrev pub dispatch : String → Session → Arrival → Proto → UserLoop → UserLoop
dispatch tenant s a shell l =
    let rest = λ (q : UserLoop). shell_message tenant s a a.msg.msg_type q in
    if l.log_terminal then rest l else audit_terminal a.logged l rest
dispatch tenant s a port_forward l =
    let rest = λ (q : UserLoop). forward tenant s a q in
    if l.log_port_forward then rest l else audit_port_forward a.logged l rest
dispatch tenant s a _ l = forward tenant s a l

-- One round of the loop.
unfoldable pub user_step : String → Session → UserLoop → Input → UserLoop
unfolding resize_control
user_step tenant s l close_frame = record l { status = returned none }
user_step tenant s l (read_error e) = record l { status = returned (some e) }
user_step tenant s l (malformed e) = record l { status = returned (some e) }
user_step tenant s l (arrival a) = dispatch tenant s a a.msg.proto l

-- The loop on the inputs that come, up to its return.
unfoldable pub user_loop : String → Session → UserLoop → List Input → UserLoop
unfolding user_step
user_loop tenant s l [] = l
user_loop tenant s l (i ∷ inputs) =
    let l' = user_step tenant s l i in
    let rest = user_loop tenant s l' inputs in elim l'.status [ running ↦ rest | returned _ ↦ l' ]

abbrev pub new_user_loop : UserLoop
new_user_loop = record {
  status = running;
  types = [];
  log_terminal = false;
  log_port_forward = false;
  refused = none;
  terminal_running = false;
  control_bytes = 0;
  ignore_control = false;
  recorded = [];
  sent = [];
}
