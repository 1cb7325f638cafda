-- ===== src/Device/Writer.antt =====
-- api/http/device.go: `connectWSWriter`, the writing end of a device's websocket, and `Connect`, the
-- connection from the request to its end. What the `select` finds in each round is the input.
pub mod Relayed
use deviceconnect.Prelude.{
  ℕ, List, [], ◌∷◌, ◌++◌, String, Bool, true, false, Option, none, some, if◌then◌else◌,
}
use deviceconnect.Errors.{Error, Result, message, wrap}
use deviceconnect.App.Shutdown.{Registry, register_shutdown_cancel, unregister_shutdown_cancel}
use deviceconnect.Device.{Incoming, Effect, connect_serve_ws}
use deviceconnect.Http.Replies.{Reply, Replies, error_reply}

-- A message of the device's subject with the result of writing it; the end of the context, as at a
-- shutdown; a tick, and whether the ping could be written; what comes from `errChan`, where `none` is
-- a closed channel.
pub data Event : Type 0 where
  relayed : List ℕ → Option Error → Event
  context_cancelled : Event
  tick : Bool → Event
  from_reader : Option Error → Event

pub data Status : Type 0 where
  running : Status
  returned : Option Error → Status

-- The state of the writer: what was written, whether a close frame was, and whether the connection
-- is closed.
pub record Writer : Type 0 where
  pub status : Status
  pub written : List (List ℕ)
  pub close_frames : List Error
  pub is_closed : Bool

abbrev pub new_writer : Writer
new_writer = record { status = running; written = []; close_frames = []; is_closed = false }

abbrev pub closed_by_server : Error
closed_by_server = message "connection closed by the server"

abbrev pub connection_timeout : Error
connection_timeout = message "connection timeout"

-- One round of the loop.
unfoldable pub writer_step : Writer → Event → Writer
writer_step w (relayed data_read none) = record w { written = w.written ++ (data_read ∷ []) }
writer_step w (relayed data_read (some e)) = record w { status = returned (some e) }
writer_step w context_cancelled = record w { status = returned (some closed_by_server) }
writer_step w (tick true) = w
writer_step w (tick false) = record w { status = returned (some connection_timeout) }
writer_step w (from_reader e) = record w { status = returned e }

unfoldable pub writer_loop : Writer → List Event → Writer
unfolding writer_step
writer_loop w [] = w
writer_loop w (e ∷ events) =
    let w' = writer_step w e in
    let rest = writer_loop w' events in elim w'.status [ running ↦ rest | returned _ ↦ w' ]

-- The deferred function: a close frame is sent unless the peer has closed the connection (which
-- `is_unexpected`, the library's `IsUnexpectedCloseError`, says of the error), and then the
-- connection is closed.
abbrev pub close_frame : (Error → Bool) → Option Error → List Error
close_frame is_unexpected none = []
close_frame is_unexpected (some e) = if is_unexpected e then [] else e ∷ []

abbrev pub finalized : (Error → Bool) → Writer → Status → Writer
finalized is_unexpected w running = w
finalized is_unexpected w (returned e) = record w {
  close_frames = close_frame is_unexpected e;
  is_closed = true;
}

-- `connectWSWriter`; `deadline` is what the first `conn.SetReadDeadline` gives.
unfoldable pub connect_ws_writer : (Error → Bool) → Option Error → List Event → Writer
unfolding writer_loop
connect_ws_writer is_unexpected (some e) events =
    finalized is_unexpected (record new_writer { status = returned (some e) }) (returned (some e))
connect_ws_writer is_unexpected none events =
    let w = writer_loop new_writer events in finalized is_unexpected w w.status

-- What `Connect` did: the answer, the calls of `ConnectServeWS`, and the error for the writer.
pub record Connected (C : Type 0) : Type 0 where
  pub replies : Replies
  pub effects : List Effect
  pub propagated : Option Error
  pub registry : Registry C

module _ {C : Type 0} where
  abbrev pub unregistered : (Registry C → Registry C) → ℕ → Registry C → Registry C
  unregistered meanwhile id r = unregister_shutdown_cancel id (meanwhile r)

  abbrev pub registered :
      (Registry C → Registry C) → Option Error × List Effect → ℕ × Registry C → Connected C
  registered meanwhile (e, effects) (id, r) = record {
    replies = [];
    effects = effects;
    propagated = e;
    registry = unregistered meanwhile id r;
  }

  -- `Connect`: `subscribed` and `upgraded` are how these calls end (an upgrade that fails has
  -- answered by itself), `served` is what `ConnectServeWS` does, and `meanwhile` what the other connections
  -- do to the registry.
  unfoldable pub device_connect :
      Bool
      → Option Error
      → Option Error
      → Option Error × List Effect
      → C
      → (Registry C → Registry C)
      → Registry C
      → Connected C
  unfolding register_shutdown_cancel unregister_shutdown_cancel
  device_connect false subscribed upgraded served cancel meanwhile r = record {
    replies =
        error_reply 400 (message "missing or non-device identity in the authorization headers")
        ∷ [];
    effects = [];
    propagated = none;
    registry = r;
  }
  device_connect true (some e) upgraded served cancel meanwhile r = record {
    replies = error_reply 500 (message "failed to allocate internal device channel") ∷ [];
    effects = [];
    propagated = none;
    registry = r;
  }
  device_connect true none (some e) served cancel meanwhile r = record {
    replies = [];
    effects = [];
    propagated = none;
    registry = r;
  }
  device_connect true none none served cancel meanwhile r =
      registered meanwhile served (register_shutdown_cancel cancel r)
