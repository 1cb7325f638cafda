-- ===== src/Terminal/DeviceLoop.antt =====
-- api/http/management.go: `websocketWriter`, which passes a device's messages on to the user and
-- records the terminal's output, with `handleSessLimit` and `recordSession`. The input is what the
-- `select` finds, with how the calls end that it leads to.
pub mod Forwarding
pub mod Limit
use deviceconnect.Prelude.{
  ℕ, ◌+◌, ◌-◌, ◌*◌, String, Bool, true, false, not, ◌||◌, List, [], ◌∷◌, ◌++◌, length, Option, none,
  some, ltb, leb, if◌then◌else◌,
}
use deviceconnect.Errors.{Error, message}
use deviceconnect.Protocol.{
  ProtoMsg, Proto, MsgType, shell, shell_command, stop_shell, text, error_status,
}
use deviceconnect.Control.{Control, delay_message}
use deviceconnect.Session.{Session}
use deviceconnect.Subject.{device_subject}
use deviceconnect.Terminal.UserLoop.{message_size_limit}

-- A message of the device: the time in nanoseconds when it is recorded, how many bytes of a control
-- message the recorder takes, and what writing to the websocket gives.
pub record Arrival : Type 0 where
  pub msg : ProtoMsg
  pub now : ℕ
  pub taken : ℕ
  pub written : Option Error

pub data Input : Type 0 where
  from_device : Arrival → Input
  malformed : Error → Input
  -- `ctx.Done()`
  context_done : Input
  -- the ticker, and whether the ping was written
  tick : Bool → Input
  -- what the read loop of the user's websocket ended with
  failure : Error → Input

pub data Status : Type 0 where
  running : Status
  returned : Option Error → Status

-- What is written to the websocket: a message as it came or the error of `prepLimitErrUser`.
pub data Forwarded : Type 0 where
  original : ProtoMsg → Forwarded
  limit_error : Forwarded

-- The variables of the loop, and what it has done: the bytes and the control messages that it gave
-- to the recorders, the messages written to the websocket, the stop messages sent to the device, and
-- how often `FreeUserSession` was called.
pub record DeviceLoop : Type 0 where
  pub status : Status
  pub recorded_bytes : ℕ
  pub control_bytes : ℕ
  pub sess_over_limit : Bool
  pub sess_over_limit_handled : Bool
  pub last_keystroke_at : ℕ
  pub recorded : List ℕ
  pub controls : List Control
  pub forwarded : List Forwarded
  pub stops : List (String × ProtoMsg)
  pub frees : ℕ

abbrev pub key_stroke_delay_threshold : ℕ
key_stroke_delay_threshold = 1500 * 1000000

abbrev pub key_stroke_max_delay : ℕ
key_stroke_max_delay = 65535 * 1000000

abbrev clamp : ℕ → ℕ
clamp delay = if ltb key_stroke_max_delay delay then key_stroke_max_delay else delay

-- `sendLimitErrDevice`; the body is the text of the error.
abbrev pub limit_stop : List ℕ → Session → String × ProtoMsg
limit_stop body s = (
  device_subject s.tenant_id s.device_id,
  record {
    proto = shell;
    msg_type = stop_shell;
    session_id = s.id;
    properties = ("status", error_status) ∷ ("user_id", text s.user_id) ∷ [];
    body = body;
  },
)

-- `to_ms` is `uint16(float64(delay) * 0.000001)`, and `limit_text` the bytes of
-- "session byte limit exceeded".
module _ (to_ms : ℕ → ℕ) (limit_text : List ℕ) (s : Session) where
  -- A delay of at least the threshold is recorded; `n` is how much of its message was taken.
  abbrev record_delay : ℕ → ℕ → DeviceLoop → DeviceLoop
  record_delay delay n l =
      if leb key_stroke_delay_threshold delay
      then record l {
        controls =
            l.controls
            ++ (record {
              type = delay_message;
              offset = l.recorded_bytes;
              delay_ms = to_ms (clamp delay);
              terminal_width = 0;
              terminal_height = 0;
            }
                ∷ []);
        control_bytes = l.control_bytes + n;
      }
      else l

  -- `recordSession`: a time before the last keystroke's gives a delay below the threshold.
  unfoldable pub record_session : Arrival → DeviceLoop → DeviceLoop
  record_session a l =
      let l' = record_delay (a.now - l.last_keystroke_at) a.taken l in
      record l' {
        last_keystroke_at = a.now;
        recorded_bytes = l'.recorded_bytes + length a.msg.body;
        recorded = l'.recorded ++ a.msg.body;
      }

  -- `handleSessLimit`: the message for the user, if any. Errors of its calls are only logged.
  unfoldable pub handle_sess_limit : Forwarded → DeviceLoop → Forwarded × DeviceLoop
  handle_sess_limit m l = if l.sess_over_limit_handled then (m, l) else (
    limit_error,
    record l {
      stops = l.stops ++ (limit_stop limit_text s ∷ []);
      frees = l.frees + 1;
      sess_over_limit_handled = true;
    },
  )

  abbrev is_over_limit : DeviceLoop → Bool
  is_over_limit l =
      leb message_size_limit l.recorded_bytes || leb message_size_limit l.control_bytes

  -- The handling of a shell command.
  abbrev shell_output : Arrival → DeviceLoop → Forwarded × DeviceLoop
  shell_output a l =
      if is_over_limit l
      then handle_sess_limit (original a.msg) (record l { sess_over_limit = true })
      else (original a.msg, record_session a l)

  -- The two `switch`es; a stop message only flushes the recorder.
  abbrev inspect : Arrival → Proto → MsgType → DeviceLoop → Forwarded × DeviceLoop
  inspect a shell shell_command l = shell_output a l
  inspect a _ _ l = (original a.msg, l)

  abbrev write_message : Option Error → Forwarded × DeviceLoop → DeviceLoop
  write_message written (m, l) = if l.sess_over_limit then l else elim written [
    | none ↦ record l { forwarded = l.forwarded ++ (m ∷ []) }
    | some e ↦ record l { status = returned (some e) }
  ]

  unfoldable pub device_step : DeviceLoop → Input → DeviceLoop
  unfolding record_session handle_sess_limit
  device_step l (from_device a) = write_message a.written (inspect a a.msg.proto a.msg.msg_type l)
  device_step l (malformed e) = record l { status = returned (some e) }
  device_step l context_done = record l { status = returned none }
  device_step l (tick true) = l
  device_step l (tick false) = record l { status = returned (some (message "connection timeout")) }
  device_step l (failure e) = record l { status = returned (some e) }

  -- The loop of `websocketWriter`.
  unfoldable pub device_loop : DeviceLoop → List Input → DeviceLoop
  unfolding device_step
  device_loop l [] = l
  device_loop l (i ∷ inputs) =
      let l' = device_step l i in
      let rest = device_loop l' inputs in elim l'.status [ running ↦ rest | returned _ ↦ l' ]

-- The variables before the loop, at the time `now`.
abbrev pub new_device_loop : ℕ → DeviceLoop
new_device_loop now = record {
  status = running;
  recorded_bytes = 0;
  control_bytes = 0;
  sess_over_limit = false;
  sess_over_limit_handled = false;
  last_keystroke_at = now;
  recorded = [];
  controls = [];
  forwarded = [];
  stops = [];
  frees = 0;
}
