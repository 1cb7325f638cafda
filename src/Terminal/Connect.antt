-- ===== src/Terminal/Connect.antt =====
-- api/http/management.go: `Connect` and `ConnectServeWS`, the connection of a user to a device from
-- the request to its end.
pub mod Freed
use deviceconnect.Prelude.{
  ℕ, String, Bool, true, false, List, [], ◌∷◌, ◌++◌, Option, none, some, if◌then◌else◌, map,
}
use deviceconnect.Errors.{
  Error, Result, message, cause, device_not_found, device_not_connected, validation_errors,
}
use deviceconnect.Protocol.{ProtoMsg, Proto, port_forward, shell, stop_shell, error_status, text}
use deviceconnect.Session.{Session, session_type_terminal, session_type_port_forward}
use deviceconnect.Subject.{device_subject}
use deviceconnect.Store.Collection.{Collection}
use deviceconnect.Store.Devices.{Device}
use deviceconnect.Store.Sessions.{delete_session}
use deviceconnect.Workflows.{AuditLog}
use deviceconnect.App.{Submit, prepare_user_session, log_user_session, free_user_session}
use deviceconnect.FileTransfer.Requests.{Identity, missing_user_authentication}
use deviceconnect.Terminal.UserLoop.{
  Input, arrival, Status, running, returned, UserLoop, user_loop, new_user_loop, property_user_id,
}
use deviceconnect.Http.Replies.{Reply, Replies, error_reply}

-- "user disconnected"
abbrev user_disconnected : List ℕ
user_disconnected =
    117 ∷ 115 ∷ 101 ∷ 114 ∷ 32 ∷ 100 ∷ 105 ∷ 115 ∷ 99 ∷ 111 ∷ 110 ∷ 110 ∷ 101 ∷ 99 ∷ 116 ∷ 101 ∷ 100
    ∷ []

abbrev pub stop_message : Session → ProtoMsg
stop_message s = record {
  proto = shell;
  msg_type = stop_shell;
  session_id = s.id;
  properties = ("status", error_status) ∷ (property_user_id, text s.user_id) ∷ [];
  body = user_disconnected;
}

-- The messages that a connection published; the deferred function stops a terminal that runs.
abbrev pub all_sent : String → Session → UserLoop → List (String × ProtoMsg)
all_sent tenant s l =
    if l.terminal_running
    then l.sent ++ ((device_subject tenant s.device_id, stop_message s) ∷ [])
    else l.sent

-- What the deferred function puts into `errChan` for the writer.
abbrev pub propagated : UserLoop → Option Error
propagated l = elim l.status [ returned e ↦ e | running ↦ none ]

-- The end of `ConnectServeWS`: what was published, and the error for the writer.
unfoldable pub connect_serve_ws :
    String → Session → List Input → UserLoop × List (String × ProtoMsg) × Option Error
unfolding user_loop
connect_serve_ws tenant s inputs =
    let l = user_loop tenant s new_user_loop inputs in (l, all_sent tenant s l, propagated l)

abbrev pub invalid_or_failed : Error → Error → Reply
invalid_or_failed e validation_errors = error_reply 400 e
invalid_or_failed e _ = error_reply 500 e

-- The answer to an error of `PrepareUserSession`.
abbrev pub prepare_reply : Error → Reply
prepare_reply device_not_found = error_reply 404 device_not_found
prepare_reply device_not_connected = error_reply 404 device_not_connected
prepare_reply e = invalid_or_failed e (cause e)

abbrev pub new_session : Identity → String → ℕ → Session
new_session i device_id now = record {
  id = "";
  user_id = i.subject;
  device_id = device_id;
  types = [];
  start_ts = now;
  tenant_id = i.tenant;
  bytes_recorded = 0;
}

-- The freeing of a session that the writer of the websocket found over its limit: the types that the
-- session had then, and whether that was before the audit log refused an entry, if it did.
pub record LimitFree : Type 0 where
  pub types : List String
  pub is_first : Bool

-- How the calls to the network end, and what comes over the websocket. The writer runs beside the
-- read loop: `limit` is what it did to the session, and `logged_at` the time of the audit entries.
pub record Calls : Type 0 where
  pub subscribed : Option Error
  pub upgraded : Option Error
  pub inputs : List Input
  pub logged_at : ℕ
  pub limit : Option LimitFree

-- What `Connect` did: while it is open it has not returned. `freed` is what the deferred
-- `FreeUserSession` gave, where it was called, and `deletions` are the results of all calls of
-- `DeleteSession`, the last one first.
pub record Connection (Db : Type 0) : Type 0 where
  pub replies : Replies
  pub sent : List (String × ProtoMsg)
  pub is_open : Bool
  pub freed : Option (Option Error × List AuditLog)
  pub deletions : List (Result Session)
  pub db : Db

-- The type of session whose entry the first message of a protocol leads to.
abbrev pub session_type_of : Proto → String
session_type_of port_forward = session_type_port_forward
session_type_of _ = session_type_terminal

module _ (devices : Collection Device) (sessions : Collection Session)
    (context_tenant : Option String → String) (have_audit_logs : Bool) (submit : Submit)
    (calls : Calls) where
  -- The sessions, and the results of the deletions so far.
  abbrev pub Deleted : Type 0
  Deleted = List (Result Session) × sessions.Db

  abbrev pub delete : String → Session → sessions.Db → Result Session × sessions.Db
  delete tenant s db = delete_session sessions context_tenant (some tenant) s.id db

  abbrev pub free_session :
      String → Session → List String → sessions.Db → Option Error × sessions.Db × List AuditLog
  free_session tenant s types db =
      free_user_session sessions context_tenant have_audit_logs submit (some tenant) s.id types db

  -- `handleSessLimit`: the error of `FreeUserSession` is only logged.
  abbrev pub free_at_limit : String → Session → LimitFree → Deleted → Deleted
  free_at_limit tenant s f (ds, db) =
      ((delete tenant s db).0 ∷ ds, (free_session tenant s f.types db).1)

  abbrev pub limit_before : String → Session → Option LimitFree → Deleted → Deleted
  limit_before tenant s none x = x
  limit_before tenant s (some f) x = if f.is_first then free_at_limit tenant s f x else x

  abbrev pub limit_after : String → Session → Option LimitFree → Deleted → Deleted
  limit_after tenant s none x = x
  limit_after tenant s (some f) x = if f.is_first then x else free_at_limit tenant s f x

  abbrev pub log :
      String → Session → String → sessions.Db → Option Error × sessions.Db × List AuditLog
  log tenant s session_type db =
      log_user_session sessions context_tenant have_audit_logs submit (some tenant) calls.logged_at
        s session_type db

  -- What `LogUserSession` gives at a message, if it is called.
  abbrev pub audited : String → Session → sessions.Db → Input → Input
  audited tenant s db (arrival a) =
      arrival (record a { logged = (log tenant s (session_type_of a.msg.proto) db).0 })
  audited tenant s db i = i

  -- What `LogUserSession` does to the sessions where its entry is refused: it deletes the session.
  abbrev pub clean_refused : String → Session → Option String → Deleted → Deleted
  clean_refused tenant s none x = x
  clean_refused tenant s (some session_type) (ds, db) =
      ((delete tenant s db).0 ∷ ds, (log tenant s session_type db).1)

  -- The deferred `FreeUserSession`.
  abbrev pub free :
      String
      → Session
      → List String
      → Replies
      → List (String × ProtoMsg)
      → Deleted
      → Connection sessions.Db
  free tenant s types replies sent (ds, db) =
      let (e, db', entries) = free_session tenant s types db in
      record {
        replies = replies;
        sent = sent;
        is_open = false;
        freed = some (e, entries);
        deletions = (delete tenant s db).0 ∷ ds;
        db = db';
      }

  abbrev pub served :
      String
      → Session
      → Deleted
      → UserLoop
      → List (String × ProtoMsg)
      → Status
      → Connection sessions.Db
  served tenant s (ds, db) l sent running = record {
    replies = [];
    sent = l.sent;
    is_open = true;
    freed = none;
    deletions = ds;
    db = db;
  }
  served tenant s x l sent (returned e) = free tenant s l.types [] sent x

  -- The websocket: the read loop with the audit log's answers, and what both sides do to the
  -- sessions.
  abbrev pub serve : String → Session → Deleted → Connection sessions.Db
  serve tenant s x =
      let x' = limit_before tenant s calls.limit x in
      let (l, sent, e) = connect_serve_ws tenant s (map (audited tenant s x'.1) calls.inputs) in
      served tenant s (limit_after tenant s calls.limit (clean_refused tenant s l.refused x')) l
        sent l.status

  -- From the subscription on.
  abbrev pub connected : String → Session → sessions.Db → Connection sessions.Db
  connected tenant s db = elim calls.subscribed [
    | some e ↦
        free tenant s []
          (error_reply 500 (message "failed to establish internal device session") ∷ []) [] ([], db)
    | none ↦ (elim calls.upgraded [
      | some e ↦ free tenant s [] [] [] ([], db)
      | none ↦ serve tenant s ([], db)
    ])
  ]

  abbrev pub after_prepare : String → Option Error × Session × sessions.Db → Connection sessions.Db
  after_prepare tenant (some e, s, db) = record {
    replies = prepare_reply e ∷ [];
    sent = [];
    is_open = false;
    freed = none;
    deletions = [];
    db = db;
  }
  after_prepare tenant (none, s, db) = connected tenant s db

  -- `Connect`; `uuid` and `now` are what the random source and the clock give.
  unfoldable pub connect :
      Result String → ℕ → Identity → String → devices.Db → sessions.Db → Connection sessions.Db
  unfolding prepare_user_session log_user_session free_user_session connect_serve_ws
  connect uuid now i device_id ddb db =
      if i.is_user
      then after_prepare i.tenant (
          prepare_user_session devices sessions context_tenant uuid (new_session i device_id now)
            ddb db)
      else record {
        replies = error_reply 400 missing_user_authentication ∷ [];
        sent = [];
        is_open = false;
        freed = none;
        deletions = [];
        db = db;
      }

  -- Of a request without an identity a field of a nil pointer is read (the middleware of the router
  -- lets none through).
  unfoldable pub connect_request :
      Result String
      → ℕ
      → Option Identity
      → String
      → devices.Db
      → sessions.Db
      → Result (Connection sessions.Db)
  unfolding connect
  connect_request uuid now none device_id ddb db = Result.panic
  connect_request uuid now (some i) device_id ddb db =
      Result.ok (connect uuid now i device_id ddb db)
