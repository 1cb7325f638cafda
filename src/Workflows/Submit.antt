-- ===== src/Workflows/Submit.antt =====
-- client/workflows/client.go: when an audit entry counts as submitted.
use deviceconnect.Prelude.{
  ℕ, ◌<◌, String, true, Option, none, some, str_eq_iff, if◌then◌else◌, ◌≡◌, ◌≢◌, refl, arith,
  if_elim,
}
use deviceconnect.Errors.{Error, wrap, message}
use deviceconnect.Workflows.{
  AuditLog, validate_log, Response, transport_error, status, check_response, stamp, has_tenant,
  submit_audit_log,
}

check_response-none :
    (r : Response) → check_response r ≡ none → (code : ℕ) × (r ≡ status code) × (code < 300)
check_response-none (transport_error e) h = absurd cc
check_response-none (status code) h = (code, refl, ground arith)

validate_log-none :
    (l : AuditLog)
    → validate_log l ≡ none
    → (l.actor_id ≢ "") × (l.object_id ≢ "") × (l.event_ts ≢ 0)
unfolding validate_log
validate_log-none l h = ground (arith, str_eq_iff l.actor_id "", str_eq_iff l.object_id "")

has_tenant-true : (o : Option String) → has_tenant o ≡ true → (t : String) × (o ≡ some t) × (t ≢ "")
has_tenant-true none h = cc
has_tenant-true (some t) h = (t, refl, ground (arith, str_eq_iff t ""))

-- An entry is submitted without an error only with a time (its own or the present one), an actor
-- and an object, in the name of a tenant, and when the service answered with a status below 300.
pub submit_audit_log-none :
    (now : ℕ) (tenant : Option String) (post : AuditLog → Response) (log : AuditLog)
    → submit_audit_log now tenant post log ≡ none
    → ((stamp now log).actor_id ≢ "")
      × ((stamp now log).object_id ≢ "")
      × ((stamp now log).event_ts ≢ 0)
      × ((t : String) × (tenant ≡ some t) × (t ≢ ""))
      × ((code : ℕ) × (post (stamp now log) ≡ status code) × (code < 300))
unfolding submit_audit_log
submit_audit_log-none now tenant post log = by_validation (validate_log (stamp now log)) refl
  where
    l : AuditLog
    l = stamp now log

    by_validation :
        (x : Option Error)
        → validate_log l ≡ x
        → (elim x as (λ _. Option Error) [
          | some e ↦ some (wrap e "workflows: invalid AuditLog entry")
          | none ↦
              if has_tenant tenant
              then check_response (post l)
              else some (message "workflows: Context lacking tenant identity")
        ])
          ≡ none
        → (l.actor_id ≢ "")
          × (l.object_id ≢ "")
          × (l.event_ts ≢ 0)
          × ((t : String) × (tenant ≡ some t) × (t ≢ ""))
          × ((code : ℕ) × (post l ≡ status code) × (code < 300))
    by_validation (some e) v = λ h. absurd cc
    by_validation none v =
        let (a, o, t) = validate_log-none l v in
        if_elim
          (λ r.
            r ≡ none
            → (l.actor_id ≢ "")
              × (l.object_id ≢ "")
              × (l.event_ts ≢ 0)
              × ((t : String) × (tenant ≡ some t) × (t ≢ ""))
              × ((code : ℕ) × (post l ≡ status code) × (code < 300)))
          (has_tenant tenant) (check_response (post l)) _
          (λ named h. (a, o, t, has_tenant-true tenant named, check_response-none (post l) h))
          (λ _ h. absurd cc)
