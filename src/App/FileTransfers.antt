-- ===== src/App/FileTransfers.antt =====
-- app/app.go: the audit log of file transfers.
use deviceconnect.Prelude.{
  ℕ, String, Bool, true, [], ◌∷◌, Option, none, some, if◌then◌else◌, ◌≡◌, refl, false, ◌⊎◌, inl,
  inr,
}
use mathlib.Core.Path.{subst}
use deviceconnect.Errors.{Error, wrap}
use deviceconnect.Workflows.{Action, AuditLog}
use deviceconnect.App.{Submit, submit_file_transfer_auditlog}

-- The entry of a transfer.
abbrev pub transfer_entry : ℕ → String → String → String → Action → String → AuditLog
transfer_entry now user device path action change = record {
  action = action;
  actor_id = user;
  object_id = device;
  change = change;
  meta_data = ("path", path) ∷ [];
  event_ts = now;
}

pub submit_file_transfer_auditlog-none :
    (have_audit_logs : Bool) (submit : Submit) (now : ℕ) (user device path : String)
    (action : Action) (change : String)
    → submit_file_transfer_auditlog have_audit_logs submit now user device path action change ≡ none
    → have_audit_logs ≡ true
    → submit (transfer_entry now user device path action change) ≡ none
unfolding submit_file_transfer_auditlog
submit_file_transfer_auditlog-none have_audit_logs submit now user device path action change h
      logs =
    by_result (submit (transfer_entry now user device path action change))
      (subst (λ b. (if b then logged else none) ≡ none) logs h)
  where
    logged : Option Error
    logged =
        elim (submit (transfer_entry now user device path action change)) as (λ _. Option Error) [
          | none ↦ none
          | some e ↦ some (wrap e "failed to submit audit log for file transfer")
        ]

    by_result :
        (x : Option Error)
        → (elim x as (λ _. Option Error) [
          | none ↦ none
          | some e ↦ some (wrap e "failed to submit audit log for file transfer")
        ])
          ≡ none
        → x ≡ none
    by_result none e = refl
    by_result (some y) e = absurd cc

pub audited_or_off :
    {P : Type 0} (have_audit_logs : Bool)
    → (have_audit_logs ≡ true → P)
    → (have_audit_logs ≡ false) ⊎ P
audited_or_off true f = inr (f refl)
audited_or_off false f = inl refl
