-- ===== src/Device.antt =====
-- api/http/device.go: the websocket of a device. The read loop forwards the device's messages to
-- the sessions' subjects and remembers which sessions have a terminal; when it ends, the terminals
-- are stopped and the device is marked as disconnected. What the network does is the input: the
-- messages read, and how each call ends.
pub mod Terminals
pub mod Writer
use deviceconnect.Prelude.{
  ℕ, String, Bool, true, false, List, [], ◌∷◌, ◌++◌, Option, none, some, str_eq, if◌then◌else◌,
}
use deviceconnect.Errors.{Error, Result, ok, err, panic, message}
use deviceconnect.Protocol.{ProtoMsg, Proto, MsgType, shell, spawn_shell, stop_shell, error_status}
use deviceconnect.Subject.{session_subject}

-- What a call of `conn.ReadMessage` and `msgpack.Unmarshal` gives; a message comes with the result
-- of publishing it.
pub data Incoming : Type 0 where
  read_error malformed : Error → Incoming
  received : ProtoMsg → Option Error → Incoming

-- `sessMap`: the sessions with their `RemoteTerminal`
abbrev pub Sessions : Type 0
Sessions = List (String × Bool)

-- `sessMap[k] = &model.ActiveSession{RemoteTerminal: b}`
unfoldable pub put : String → Bool → Sessions → Sessions
put k b [] = (k, b) ∷ []
put k b ((j, c) ∷ m) = if str_eq j k then (k, b) ∷ m else (j, c) ∷ put k b m

-- `delete(sessMap, k)`
unfoldable pub delete : String → Sessions → Sessions
delete k [] = []
delete k ((j, c) ∷ m) = if str_eq j k then delete k m else (j, c) ∷ delete k m

unfoldable pub terminal : String → Sessions → Option Bool
terminal k [] = none
terminal k ((j, c) ∷ m) = if str_eq j k then some c else terminal k m

-- The calls that the device's connection makes.
pub data Effect : Type 0 where
  -- `h.nats.Publish(subject, data)` of a message as it was read
  publish : String → ProtoMsg → Effect
  -- a stop message, "device disconnected", on the subject of a session
  stop_terminal : String → Effect
  -- `SetDeviceDisconnected(ctx, tenant, device, version)`
  set_disconnected : String → String → ℕ → Effect

abbrev pub missing_session_id : Error
missing_session_id = message "api: message missing required session ID"

-- The `switch` on the type of a shell message with a session, after the session was entered anew.
abbrev pub track : MsgType → String → Sessions → Sessions
track spawn_shell k m = put k true m
track stop_shell k m = delete k m
track _ k m = m

abbrev is_shell : Proto → Bool
is_shell shell = true
is_shell _ = false

-- `sessMap` after a message, or the error that ends the loop before it is published.
unfoldable pub handle_message : Sessions → ProtoMsg → Option Error × Sessions
unfolding put delete
handle_message m msg =
    let m' = put msg.session_id false m in
    if is_shell msg.proto
    then (if str_eq msg.session_id ""
        then (some missing_session_id, m')
        else (none, track msg.msg_type msg.session_id m'))
    else (none, m')

-- The variables of the read loop: `none` is a loop that waits for the next message.
pub record Serving : Type 0 where
  pub result : Option Error
  pub sessions : Sessions
  pub effects : List Effect

module _ (tenant : String) where
  -- The end of a round: the message is published.
  abbrev forward : Serving → ProtoMsg → Option Error → Option Error × Sessions → Serving
  forward s msg published (some e, m) = record s { result = some e; sessions = m }
  forward s msg published (none, m) = record {
    result = published;
    sessions = m;
    effects = s.effects ++ (publish (session_subject tenant msg.session_id) msg ∷ []);
  }

  -- The `for` loop of `ConnectServeWS`.
  unfoldable pub read_loop : Serving → List Incoming → Serving
  unfolding handle_message
  read_loop s [] = s
  read_loop s (read_error e ∷ inputs) = record s { result = some e }
  read_loop s (malformed e ∷ inputs) = record s { result = some e }
  read_loop s (received msg published ∷ inputs) =
      let s' = forward s msg published (handle_message s.sessions msg) in
      let rest = read_loop s' inputs in elim s'.result [ none ↦ rest | some _ ↦ s' ]

  -- The deferred loop over `sessMap`: a stop message for each terminal. `stopped` gives the results
  -- of the publishing; the last one replaces the result of the read loop.
  unfoldable pub stop_terminals :
      Sessions → (String → Option Error) → Option Error → Option Error × List Effect
  stop_terminals [] stopped e = (e, [])
  stop_terminals ((k, true) ∷ m) stopped e =
      let (e', effects) = stop_terminals m stopped (stopped k) in
      (e', stop_terminal (session_subject tenant k) ∷ effects)
  stop_terminals ((k, false) ∷ m) stopped e = stop_terminals m stopped e

  -- `ConnectServeWS`, for the device `device`: `connected` is what `SetDeviceConnected` gave.
  unfoldable pub connect_serve_ws :
      String → Result ℕ → List Incoming → (String → Option Error) → Option Error × List Effect
  unfolding read_loop stop_terminals
  connect_serve_ws device (err e) inputs stopped = (some e, [])
  connect_serve_ws device panic inputs stopped = (none, [])
  connect_serve_ws device (ok version) inputs stopped =
      let s = read_loop (record { result = none; sessions = []; effects = [] }) inputs in
      let (e, stops) = stop_terminals s.sessions stopped s.result in
      (e, s.effects ++ (stops ++ (set_disconnected tenant device version ∷ [])))
