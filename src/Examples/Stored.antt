-- ===== src/Examples/Stored.antt =====
-- Devices and sessions in a database that is a list.
use deviceconnect.Prelude.{
  ◌<◌, ℕ, ◌≢◌, true, ◌+◌, String, [], ◌∷◌, Option, none, some, ◌≡◌, ◌≢◌, refl, true,
}
use deviceconnect.Errors.{Error, Result, ok}
use deviceconnect.Session.{Session, validate}
use deviceconnect.Workflows.{
  Action, AuditLog, terminal_open, terminal_close, port_forward_close, status, Response,
  submit_audit_log, validate_log,
}
use deviceconnect.Workflows.Submit.{submit_audit_log-none}
use deviceconnect.Store.Collection.{first}
use deviceconnect.FileTransfer.Requests.{
  Identity, FileTransferParams, get_file_transfer_params, get_file_transfer_params-params,
}
use deviceconnect.Store.Devices.{
  Device, is_device, get_device, set_device_connected, set_device_disconnected, provision_device,
  version_number, device_status_connected, get_device,
}
use deviceconnect.Store.Devices.Versions.{
  document, set_device_connected-version, set_device_disconnected-stale, provision_device-docs,
}
use deviceconnect.Store.Sessions.{delete_session, allocate_session}
use deviceconnect.App.{prepare_user_session, free_user_session}
use deviceconnect.App.Sessions.{
  prepare_user_session-none, free_user_session-twice, free_user_session-entries,
}
use deviceconnect.Examples.Database.{listed}

abbrev device : Device
device = record {
  id = "d1";
  tenant_id = "acme";
  status = "connected";
  created_ts = 1;
  updated_ts = 2;
  version = some 4;
}

abbrev session : Session
session = record {
  id = "s1";
  user_id = "u1";
  device_id = "d1";
  types = "terminal" ∷ "portforward" ∷ [];
  start_ts = 10;
  tenant_id = "acme";
  bytes_recorded = 0;
}

abbrev accept_all : AuditLog → Option Error
accept_all l = none

abbrev tenant_of : Option String → String
tenant_of none = ""
tenant_of (some t) = t

set_device_connected-version_example :
    let db' = (set_device_connected (listed Device) 9 "acme" "d1" (device ∷ [])).1 in
    (d : Device) × (document (listed Device) "acme" "d1" db' ≡ some d)
    × (d.version ≡ some 5)
    × (d.status ≡ device_status_connected)
    × ((old : Device)
        → document (listed Device) "acme" "d1" (device ∷ []) ≡ some old
        → 5 ≡ version_number old.version + 1)
unfolding set_device_connected
set_device_connected-version_example =
    set_device_connected-version (listed Device) "acme" "d1" 9 5 (device ∷ []) refl

set_device_disconnected-stale_example :
    let db₁ = (set_device_connected (listed Device) 5 "acme" "d1" []).1 in
    let db₂ = (set_device_connected (listed Device) 6 "acme" "d1" db₁).1 in
    (d : Device) × (document
        (listed Device)
        "acme"
        "d1"
        (set_device_disconnected (listed Device) 7 "acme" "d1" 1 db₂).1
      ≡ some d)
    × (d.status ≡ device_status_connected)
    × (d.version ≡ some 2)
unfolding set_device_connected set_device_disconnected
set_device_disconnected-stale_example =
    set_device_disconnected-stale (listed Device) "acme" "d1" 5 6 7 1 2 [] refl refl refl

provision_device-docs_example :
    (provision_device (listed Device) 9 "acme" "d1" (device ∷ [])).1 ≡ device ∷ []
unfolding provision_device
provision_device-docs_example =
    provision_device-docs (listed Device) "acme" "d1" 9 (device ∷ []) refl

prepare_user_session-none_example :
    let (e, s', db') =
      prepare_user_session
        (listed Device)
        (listed Session)
        tenant_of
        (ok "s9")
        (record session { id = "" })
        (device ∷ [])
        [] in
    (s' ≡ record session { id = "s9" })
    × (s'.id ≢ "")
    × (db' ≡ s' ∷ [])
    × ((d : Device) × (document (listed Device) "acme" "d1" (device ∷ []) ≡ some d)
        × (d.status ≡ device_status_connected))
unfolding prepare_user_session validate get_device allocate_session
prepare_user_session-none_example =
    prepare_user_session-none (listed Device) (listed Session) tenant_of "s9"
      (record session { id = "" }) (device ∷ []) [] refl

free_user_session-twice_example :
    let db' = (delete_session (listed Session) tenant_of (some "acme") "s1" (session ∷ [])).1 in
    (free_user_session
      (listed Session)
      tenant_of
      true
      accept_all
      (some "acme")
      "s1"
      session.types
      db').2
    ≡ []
unfolding delete_session
free_user_session-twice_example =
    free_user_session-twice (listed Session) tenant_of accept_all (some "acme") true "s1"
      session.types (session ∷ []) session refl refl

abbrev closing_entry : Action → AuditLog
closing_entry action = record {
  action = action;
  actor_id = "u1";
  object_id = "d1";
  change = "";
  meta_data = ("session_id", "s1") ∷ [];
  event_ts = 0;
}

free_user_session-entries_example :
    free_user_session
      (listed Session)
      tenant_of
      true
      accept_all
      (some "acme")
      "s1"
      session.types
      (session ∷ [])
    ≡ (none, [], closing_entry terminal_close ∷ closing_entry port_forward_close ∷ [])
unfolding delete_session
free_user_session-entries_example =
    free_user_session-entries (listed Session) tenant_of accept_all (some "acme") "s1" session.types
      (session ∷ []) session (λ l. refl) refl

abbrev caller : Identity
caller = record { subject = "u1"; tenant = "acme"; is_user = true }

abbrev granted : FileTransferParams
granted = record { tenant_id = "acme"; user_id = "u1"; session_id = "s1"; device = device }

get_file_transfer_params-params_example :
    (i : Identity) × (some caller ≡ some i)
    × (i.is_user ≡ true)
    × (granted.user_id ≡ i.subject)
    × (granted.tenant_id ≡ i.tenant)
    × (first (is_device i.tenant "d1") (device ∷ []) ≡ some granted.device)
    × (granted.device.status ≡ device_status_connected)
    × (◌≡◌ {A = Result String} (ok "s1") (ok granted.session_id))
unfolding get_file_transfer_params get_device
get_file_transfer_params-params_example =
    get_file_transfer_params-params (listed Device) (some caller) "d1" true (ok "s1") (device ∷ [])
      granted refl

abbrev opened_terminal : AuditLog
opened_terminal = record {
  action = terminal_open;
  actor_id = "u1";
  object_id = "d1";
  change = "";
  meta_data = [];
  event_ts = 0;
}

submit_audit_log-none_example :
    (◌≢◌ {A = String} "u1" "")
    × (◌≢◌ {A = String} "d1" "")
    × (◌≢◌ {A = ℕ} 7 0)
    × ((t : String) × (◌≡◌ {A = Option String} (some "acme") (some t)) × (t ≢ ""))
    × ((code : ℕ) × (Response.status 201 ≡ status code) × (code < 300))
unfolding submit_audit_log validate_log
submit_audit_log-none_example =
    submit_audit_log-none 7 (some "acme") (λ l. status 201) opened_terminal refl
