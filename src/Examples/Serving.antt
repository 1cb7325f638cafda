-- ===== src/Examples/Serving.antt =====
-- A user's connection to a device, and connections of devices at a shutdown.
use deviceconnect.Prelude.{
  ◌*◌, ◌≤◌, String, true, List, [], ◌∷◌, Option, none, some, ◌≡◌, ◌≢◌, ◌⊎◌, refl, arith, map,
}
use deviceconnect.Errors.{Error, ok, message, session_not_found}
use deviceconnect.Session.{Session, validate}
use deviceconnect.Workflows.{AuditLog}
use deviceconnect.Protocol.{ProtoMsg, shell, spawn_shell}
use deviceconnect.Store.Collection.{first, failed}
use deviceconnect.Store.Devices.{Device, get_device}
use deviceconnect.Store.Sessions.{allocate_session, delete_session}
use deviceconnect.App.{prepare_user_session, log_user_session}
use deviceconnect.App.Shutdown.{Step, Change, arrives, leaves, interval, run}
use deviceconnect.App.Shutdown.Registered.{starting, run-live, called, ticks}
use deviceconnect.Server.{init_and_run, sigusr1, returned}
use deviceconnect.Server.Graceful.{init_and_run-live}
use deviceconnect.FileTransfer.Requests.{Identity}
use deviceconnect.Terminal.UserLoop.{arrival, close_frame, user_step, user_loop}
use deviceconnect.Terminal.Connect.{Calls, connect, connect_serve_ws}
use deviceconnect.Terminal.Connect.Freed.{HasFailed, connect-IsFreed}
use deviceconnect.Examples.Database.{listed, to_found}

abbrev changes : List (Change String)
changes = arrives "a" ∷ arrives "b" ∷ leaves 0 ∷ arrives "c" ∷ []

run-live_example : map (λ x. x.1) (run starting changes).registry.shutdown_cancels ≡ "b" ∷ "c" ∷ []
run-live_example = run-live changes (omega arith)

init_and_run-live_example :
    let r = (run starting changes).registry in
    (steps : List (Step String)) × (init_and_run none none sigusr1 none 10 r ≡ returned steps)
    × (called steps ≡ "b" ∷ "c" ∷ [])
    × (ticks steps * interval 10 r ≤ 10)
init_and_run-live_example = init_and_run-live changes 10 (omega arith) (omega arith)

abbrev device : Device
device = record {
  id = "d1";
  tenant_id = "acme";
  status = "connected";
  created_ts = 1;
  updated_ts = 2;
  version = some 4;
}

abbrev user : Identity
user = record { subject = "u1"; tenant = "acme"; is_user = true }

abbrev tenant_of : Option String → String
tenant_of none = ""
tenant_of (some t) = t

abbrev accept_all : AuditLog → Option Error
accept_all l = none

abbrev refuse_terminal : AuditLog → Option Error
refuse_terminal l = some (message "refused")

abbrev spawn : ProtoMsg
spawn = record {
  proto = shell;
  msg_type = spawn_shell;
  session_id = "";
  properties = [];
  body = [];
}

-- The session is freed at its limit, and the audit log refuses the terminal.
abbrev calls : Calls
calls = record {
  subscribed = none;
  upgraded = none;
  inputs =
      arrival
        (record { msg = spawn; logged = none; bytes_recorded = 0; taken = 0; published = none })
      ∷ close_frame
      ∷ [];
  logged_at = 8;
  limit = some (record { types = []; is_first = true });
}

to_found-never : (o : Option Session) (e : Error) → to_found o ≢ failed e
to_found-never none e = λ h. cc
to_found-never (some s) e = λ h. cc

connect-IsFreed_example :
    let c =
      connect
        (listed Device)
        (listed Session)
        tenant_of
        true
        refuse_terminal
        calls
        (ok "s1")
        7
        user
        "d1"
        (device ∷ [])
        [] in
    (x : Option Error × List AuditLog) × (c.freed ≡ some x) × ((c.db ≡ []) ⊎ HasFailed c.deletions)
unfolding prepare_user_session connect connect_serve_ws validate get_device allocate_session
    log_user_session user_loop user_step delete_session
connect-IsFreed_example =
    connect-IsFreed (listed Device) (listed Session) tenant_of true refuse_terminal calls "s1" 7
      user "d1" (device ∷ []) [] refl (λ p q. to_found-never (first p q) session_not_found) refl
      refl refl refl
