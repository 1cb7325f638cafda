-- ===== src/Workflows.antt =====
-- client/workflows: the audit log entries, and their submission to the workflows service.
pub mod Submit
use deviceconnect.Prelude.{
  ℕ, String, Bool, false, not, ◌&&◌, List, Option, none, some, str_eq, ltb, ◌==◌, if◌then◌else◌,
}
use deviceconnect.Errors.{Error, validation_errors, wrap, message}

pub data Action : Type 0 where
  terminal_open terminal_close port_forward_open port_forward_close : Action
  download_file upload_file : Action

-- `AuditLog`: the actor is always a user and the object a device. `event_ts` 0 is the zero time.
pub record AuditLog : Type 0 where
  pub action : Action
  pub actor_id : String
  pub object_id : String
  pub change : String
  pub meta_data : List (String × String)
  pub event_ts : ℕ

-- `AuditLog.Validate`: the constants that the program uses are among those that are allowed, so
-- the ids and the time decide.
unfoldable pub validate_log : AuditLog → Option Error
validate_log l =
    if not (str_eq l.actor_id "") && (not (str_eq l.object_id "") && not (l.event_ts == 0))
    then none
    else some validation_errors

-- What `c.client.Do` gives: an error or the status code.
pub data Response : Type 0 where
  transport_error : Error → Response
  status : ℕ → Response

abbrev check_response : Response → Option Error
check_response (transport_error e) = some (wrap e "workflows: failed to submit auditlog")
check_response (status code) =
    if ltb code 300
    then none
    else if code == 404
    then some (message "workflows: workflow \"auditlogs\" not defined")
    else some (message "workflows: unexpected HTTP status from workflows service")

-- `if log.EventTS.IsZero() { log.EventTS = time.Now() }`
abbrev pub stamp : ℕ → AuditLog → AuditLog
stamp now l = if l.event_ts == 0 then record l { event_ts = now } else l

abbrev has_tenant : Option String → Bool
has_tenant none = false
has_tenant (some tenant) = not (str_eq tenant "")

-- `SubmitAuditLog` at the time `now`, in a context with the tenant `tenant`; `post` is the HTTP
-- exchange.
unfoldable pub submit_audit_log :
    ℕ → Option String → (AuditLog → Response) → AuditLog → Option Error
unfolding validate_log
submit_audit_log now tenant post log =
    let l = stamp now log in
    elim (validate_log l) [
      | some e ↦ some (wrap e "workflows: invalid AuditLog entry")
      | none ↦
          if has_tenant tenant
          then check_response (post l)
          else some (message "workflows: Context lacking tenant identity")
    ]
