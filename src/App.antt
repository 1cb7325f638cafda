-- ===== src/App.antt =====
-- app/app.go: the sessions of users, on the database and the audit log.
pub mod Sessions
pub mod Shutdown
pub mod FileTransfers
use deviceconnect.Prelude.{
  ℕ, String, Bool, true, false, List, [], ◌∷◌, ◌++◌, Option, none, some, str_eq, if◌then◌else◌,
}
use deviceconnect.Errors.{
  Error, Result, ok, err, panic, device_not_found, device_not_connected, nil_session, wrap, message,
}
use deviceconnect.Session.{Session, validate, session_type_terminal, session_type_port_forward}
use deviceconnect.Store.Collection.{Collection}
use deviceconnect.Store.Devices.{Device, get_device, device_status_connected}
use deviceconnect.Store.Sessions.{allocate_session, delete_session}
use deviceconnect.Workflows.{
  Action, terminal_open, terminal_close, port_forward_open, port_forward_close, download_file,
  upload_file, AuditLog,
}

-- `sess.ID` is generated where it is empty.
abbrev with_id : Result String → Session → Result Session
with_id (ok id) s = if str_eq s.id "" then ok (record s { id = id }) else ok s
with_id (err e) s = if str_eq s.id "" then err (wrap e "failed to generate session ID") else ok s
with_id panic s = if str_eq s.id "" then panic else ok s

-- What `GetDevice` of the app makes of the store's result.
abbrev pub known_device : Result (Option Device) → Result Device
known_device (ok (some d)) = ok d
known_device (ok none) = err device_not_found
known_device (err e) = err e
known_device panic = panic

-- The tests on the device in `PrepareUserSession`.
abbrev pub check_device : Result Device → Option Error
check_device (ok d) =
    if str_eq d.status device_status_connected then none else some device_not_connected
check_device (err e) = some e
check_device panic = none

module _ (devices : Collection Device) (sessions : Collection Session)
    (context_tenant : Option String → String) where
  -- `GetDevice`
  unfoldable pub app_get_device : String → String → devices.Db → Result Device
  unfolding get_device
  app_get_device tenant_id device_id db = known_device (get_device devices tenant_id device_id db)

  -- `PrepareUserSession` from `sess.Validate()` on, from the end.
  abbrev pub admit_device :
      Option Error → Session → sessions.Db → Option Error × Session × sessions.Db
  admit_device (some e) s db = (some e, s, db)
  admit_device none s db =
      let (e, db') = allocate_session sessions context_tenant s db in (e, s, db')

  abbrev pub admit :
      Option Error → Session → devices.Db → sessions.Db → Option Error × Session × sessions.Db
  admit (some e) s ddb db = (some (wrap e "app: cannot create invalid Session"), s, db)
  admit none s ddb db =
      admit_device (check_device (known_device (get_device devices s.tenant_id s.device_id ddb))) s
        db

  abbrev prepared :
      Session → Result Session → devices.Db → sessions.Db → Option Error × Session × sessions.Db
  prepared s (ok s') ddb db = admit (validate s') s' ddb db
  prepared s (err e) ddb db = (some e, s, db)
  prepared s panic ddb db = (none, s, db)

  -- `PrepareUserSession` of a session that is not nil; `uuid` is what `uuid.NewRandom` gives. The
  -- result is the error, the session as the caller then has it, and the database.
  unfoldable pub prepare_user_session :
      Result String → Session → devices.Db → sessions.Db → Option Error × Session × sessions.Db
  unfolding validate get_device allocate_session
  prepare_user_session uuid s = prepared s (with_id uuid s)

-- The entry of `LogUserSession` for a type of session.
abbrev pub open_action : String → Option (String × Action)
open_action t =
    if str_eq t session_type_port_forward
    then some ("User requested a new port forwarding session", port_forward_open)
    else if str_eq t session_type_terminal
    then some ("User requested a new terminal session", terminal_open)
    else none

abbrev pub session_log : Action → String → Session → ℕ → AuditLog
session_log action change s now = record {
  action = action;
  actor_id = s.user_id;
  object_id = s.device_id;
  change = change;
  meta_data = ("session_id", s.id) ∷ [];
  event_ts = now;
}

-- `FreeUserSession`: the actions of the types that are known.
abbrev pub close_action : String → Option Action
close_action t =
    if str_eq t session_type_port_forward
    then some port_forward_close
    else if str_eq t session_type_terminal
    then some terminal_close
    else none

-- The audit log: what was submitted, and how `SubmitAuditLog` ends.
abbrev pub Submit : Type 0
Submit = AuditLog → Option Error

module _ (sessions : Collection Session) (context_tenant : Option String → String)
    (have_audit_logs : Bool) (submit : Submit) where
  -- The session is deleted where its log entry was refused.
  abbrev pub clean_up : Error → Result Session × sessions.Db → Option Error × sessions.Db
  clean_up e (ok _, db) = (some (wrap e "failed to submit audit log"), db)
  clean_up e (err _, db) = (some (message "failed to clean up session state"), db)
  clean_up e (panic, db) = (none, db)

  abbrev pub log_open :
      Option String
      → ℕ
      → Session
      → Option (String × Action)
      → sessions.Db
      → Option Error × sessions.Db × List AuditLog
  log_open ctx now s none db = (some (message "unknown session type"), db, [])
  log_open ctx now s (some (change, action)) db =
      let entry = session_log action change s now in
      elim (submit entry) [
        | none ↦ (none, db, entry ∷ [])
        | some e ↦
            let (e', db') = clean_up e (delete_session sessions context_tenant ctx s.id db) in
            (e', db', entry ∷ [])
      ]

  -- `LogUserSession`: the error, the database and the entries submitted.
  unfoldable pub log_user_session :
      Option String
      → ℕ
      → Session
      → String
      → sessions.Db
      → Option Error × sessions.Db × List AuditLog
  unfolding delete_session
  log_user_session ctx now s session_type db =
      if have_audit_logs then log_open ctx now s (open_action session_type) db else (none, db, [])

  -- The loop of `FreeUserSession`; `EventTS` is left for `SubmitAuditLog` to set.
  unfoldable pub log_close : Session → List String → Option Error × List AuditLog
  log_close s [] = (none, [])
  log_close s (t ∷ ts) =
      let rest = log_close s ts in
      elim (close_action t) [
        | none ↦ rest
        | some action ↦
            let entry = session_log action "" s 0 in
            elim (submit entry) [
              | none ↦ (rest.0, entry ∷ rest.1)
              | some e ↦ (some (wrap e "failed to submit audit log"), entry ∷ [])
            ]
      ]

  abbrev pub freed :
      List String → Result Session × sessions.Db → Option Error × sessions.Db × List AuditLog
  freed types (err e, db) = (some e, db, [])
  freed types (panic, db) = (none, db, [])
  freed types (ok s, db) =
      if have_audit_logs
      then (let (e, entries) = log_close s types in (e, db, entries))
      else (none, db, [])

  -- `FreeUserSession`
  unfoldable pub free_user_session :
      Option String
      → String
      → List String
      → sessions.Db
      → Option Error × sessions.Db × List AuditLog
  unfolding delete_session log_close
  free_user_session ctx session_id types db =
      freed types (delete_session sessions context_tenant ctx session_id db)

-- `submitFileTransferAuditlog`, for `DownloadFile` and `UploadFile`
unfoldable pub submit_file_transfer_auditlog :
    Bool → Submit → ℕ → String → String → String → Action → String → Option Error
submit_file_transfer_auditlog have_audit_logs submit now user_id device_id path action change =
    if have_audit_logs
    then (elim (submit (record {
      action = action;
      actor_id = user_id;
      object_id = device_id;
      change = change;
      meta_data = ("path", path) ∷ [];
      event_ts = now;
    })) [ none ↦ none | some e ↦ some (wrap e "failed to submit audit log for file transfer") ])
    else none
