-- ===== src/Terminal/Connect/Freed.antt =====
-- api/http/management.go, app/app.go and store/mongo: a connection leaves no session behind.
use deviceconnect.Prelude.{
  ℕ, String, Bool, true, false, List, [], ◌∷◌, ◌++◌, Option, none, some, str_eq_iff, map, if_elim,
  ◌≡◌, ◌≢◌, ◌⊎◌, inl, inr, refl, sym, ap, ◌∙◌, arith,
}
use mathlib.Core.Path.{subst}
use deviceconnect.Errors.{Error, Result, ok, err, panic, message, session_not_found}
use deviceconnect.Protocol.{ProtoMsg}
use deviceconnect.Session.{Session}
use deviceconnect.Store.Collection.{Collection, Found, found, no_documents, failed, first, remove}
use deviceconnect.Store.Devices.{Device}
use deviceconnect.Store.Sessions.{is_session, delete_session, to_session}
use deviceconnect.Workflows.{Action, AuditLog}
use deviceconnect.App.{
  Submit, prepare_user_session, free_user_session, freed, log_user_session, log_open, clean_up,
  open_action, session_log,
}
use deviceconnect.App.Sessions.{prepare_user_session-none}
use deviceconnect.FileTransfer.Requests.{Identity}
use deviceconnect.Terminal.UserLoop.{Status, running, returned, UserLoop}
use deviceconnect.Http.Replies.{Replies, error_reply}
use deviceconnect.Terminal.Connect.{
  Calls, Connection, LimitFree, delete, free_session, free_at_limit, limit_before, limit_after, log,
  clean_refused, audited, free, served, serve, connected, after_prepare, connect, new_session,
  connect_serve_ws,
}

first-append :
    {Doc : Type 0} (p : Doc → Bool) (ds : List Doc) (d : Doc)
    → first p ds ≡ none
    → p d ≡ true
    → (first p (ds ++ (d ∷ [])) ≡ some d) × (remove p (ds ++ (d ∷ [])) ≡ ds)
first-append p [] d h t = ground (arith, t)
first-append p (x ∷ ds) d h t = ground (arith, first-append p ds d, t, h)

-- A deletion failed otherwise than by finding no session.
abbrev pub HasFailed : List (Result Session) → Type 0
HasFailed [] = ⊥
HasFailed (err e ∷ rs) = (e ≢ session_not_found) ⊎ HasFailed rs
HasFailed (_ ∷ rs) = HasFailed rs

HasFailed-cons :
    (r : Result Session) (rs : List (Result Session)) → HasFailed rs → HasFailed (r ∷ rs)
HasFailed-cons (ok s) rs h = h
HasFailed-cons (err e) rs h = inr h
HasFailed-cons panic rs h = h

module _ (devices : Collection Device) (sessions : Collection Session)
    (context_tenant : Option String → String) (have_audit_logs : Bool) (submit : Submit)
    (calls : Calls) where
  open sessions use {Db, docs}

  -- The sessions are those of before, or a deletion failed.
  abbrev pub IsRestored : List Session → List (Result Session) × Db → Type 0
  IsRestored before (rs, db) = (docs db ≡ before) ⊎ HasFailed rs

  -- The session is among them, or it is gone, or a deletion failed.
  abbrev IsKept : List Session → Session → List (Result Session) × Db → Type 0
  IsKept before s (rs, db) = (docs db ≡ before ++ (s ∷ [])) ⊎ IsRestored before (rs, db)

  freed-db :
      (types : List String) (r : Result Session) (db : Db)
      → (freed sessions context_tenant have_audit_logs submit types (r, db)).1 ≡ db
  freed-db types (ok s) db =
      if_elim (λ (x : Option Error × Db × List AuditLog). x.1 ≡ db) have_audit_logs _ _ (λ _. refl)
        (λ _. refl)
  freed-db types (err e) db = refl
  freed-db types panic db = refl

  module _ (tenant : String) (s : Session) where
    free_session-db :
        (types : List String) (db : Db)
        → (free_session devices sessions context_tenant have_audit_logs submit calls tenant s types
            db).1
          ≡ (delete devices sessions context_tenant have_audit_logs submit calls tenant s db).1
    unfolding free_user_session
    free_session-db types db =
        freed-db types (delete_session sessions context_tenant (some tenant) s.id db).0
          (delete_session sessions context_tenant (some tenant) s.id db).1

    clean_up-db :
        (e : Error) (r : Result Session) (db : Db)
        → (clean_up sessions context_tenant have_audit_logs submit e (r, db)).1 ≡ db
    clean_up-db e (ok _) db = refl
    clean_up-db e (err _) db = refl
    clean_up-db e panic db = refl

    abbrev IsLogged : Db → Option Error × Db × List AuditLog → Type 0
    IsLogged db x =
        (x.1 ≡ db) ⊎ (x.1 ≡ (delete_session sessions context_tenant (some tenant) s.id db).1)

    -- Logging leaves the sessions as they are, or deletes the session.
    log-db :
        (session_type : String) (db : Db)
        → let db' =
            (log devices sessions context_tenant have_audit_logs submit calls tenant s session_type
              db).1 in
          (db' ≡ db)
          ⊎ (db'
              ≡ (delete devices sessions context_tenant have_audit_logs submit calls tenant s db).1)
    unfolding log_user_session
    log-db session_type db =
        if_elim (IsLogged db) have_audit_logs
          (log_open sessions context_tenant have_audit_logs submit (some tenant) calls.logged_at s
            (open_action session_type) db)
          (none, db, []) (λ _. by_action (open_action session_type)) (λ _. inl refl)
      where
        by_submit :
            (change : String) (action : Action) (r : Option Error)
            → IsLogged db (elim r as (λ _. Option Error × Db × List AuditLog) [
              | none ↦ (none, db, session_log action change s calls.logged_at ∷ [])
              | some e ↦
                  let (e', db') =
                    clean_up sessions context_tenant have_audit_logs submit e
                      (delete_session sessions context_tenant (some tenant) s.id db) in
                  (e', db', session_log action change s calls.logged_at ∷ [])
            ])
        by_submit change action none = inl refl
        by_submit change action (some e) = inr (
            clean_up-db e (delete_session sessions context_tenant (some tenant) s.id db).0
              (delete_session sessions context_tenant (some tenant) s.id db).1)

        by_action :
            (a : Option (String × Action))
            → IsLogged db (
                log_open sessions context_tenant have_audit_logs submit
                  (some tenant)
                  calls.logged_at
                  s
                  a
                  db)
        by_action none = inl refl
        by_action (some (change, action)) =
            by_submit change action (submit (session_log action change s calls.logged_at))

    module _ (before : List Session) (named : context_tenant (some tenant) ≡ tenant)
        (foreign : (p : Session → Bool) (db : Db)
          → (sessions.find_one_and_delete p db).0 ≢ failed session_not_found)
        (new : first (is_session tenant s.id) before ≡ none) (own : s.tenant_id ≡ tenant) where
      -- A deletion restores the sessions, once or again.
      delete-IsRestored :
          (rs : List (Result Session)) (db : Db)
          → IsKept before s (rs, db)
          → let (r, db') =
              delete devices sessions context_tenant have_audit_logs submit calls tenant s db in
            IsRestored before (r ∷ rs, db')
      unfolding delete_session
      delete-IsRestored rs db h = by_found (sessions.find_one_and_delete p db).0 refl h
        where
          p : Session → Bool
          p = is_session (context_tenant (some tenant)) s.id

          mine : p s ≡ true
          mine = ground (
            arith,
            str_eq_iff s.id s.id,
            str_eq_iff s.tenant_id (context_tenant (some tenant)),
            own ∙ sym named,
          )

          new_here : first p before ≡ none
          new_here = subst (λ t. first (is_session t s.id) before ≡ none) (sym named) new

          db' : Db
          db' = (sessions.find_one_and_delete p db).1

          by_found :
              (x : Found Session)
              → (sessions.find_one_and_delete p db).0 ≡ x
              → IsKept before s (rs, db)
              → IsRestored before (to_session (some tenant) x ∷ rs, db')
          by_found x k (inr (inr bad)) = inr (HasFailed-cons (to_session (some tenant) x) rs bad)
          by_found (failed e) k _ = inr (inl (λ q. foreign p db (k ∙ ap failed q)))
          by_found (found d) k (inl all) = inl (
              (sessions.find_one_and_delete_found p db d k).1
              ∙ (ap (remove p) all ∙ (first-append p before s new_here mine).1))
          by_found (found d) k (inr (inl gone)) =
              let there = (sessions.find_one_and_delete_found p db d k).0 in
              let absent = ap (first p) gone ∙ new_here in absurd cc
          by_found no_documents k (inl all) =
              let absent = (sessions.find_one_and_delete_none p db k).0 in
              let there = ap (first p) all ∙ (first-append p before s new_here mine).0 in absurd cc
          by_found no_documents k (inr (inl gone)) =
              inl ((sessions.find_one_and_delete_none p db k).1 ∙ gone)

      weakened : (x : List (Result Session) × Db) → IsRestored before x → IsKept before s x
      weakened (rs, db) h = inr h

      free_at_limit-IsKept :
          (f : LimitFree) (x : List (Result Session) × Db)
          → IsKept before s x
          → IsKept before s (
              free_at_limit devices sessions context_tenant have_audit_logs submit calls tenant s f
                x)
      free_at_limit-IsKept f (rs, db) h =
          let (r, db') =
            delete devices sessions context_tenant have_audit_logs submit calls tenant s db in
          inr (
            subst (λ q. IsRestored before (r ∷ rs, q)) (sym (free_session-db f.types db))
              (delete-IsRestored rs db h))

      limit_before-IsKept :
          (f : Option LimitFree) (x : List (Result Session) × Db)
          → IsKept before s x
          → IsKept before s (
              limit_before devices sessions context_tenant have_audit_logs submit calls tenant s f
                x)
      limit_before-IsKept none x h = h
      limit_before-IsKept (some f) x h =
          if_elim (IsKept before s) f.is_first
            (free_at_limit devices sessions context_tenant have_audit_logs submit calls tenant s f
              x)
            x (λ _. free_at_limit-IsKept f x h) (λ _. h)

      limit_after-IsKept :
          (f : Option LimitFree) (x : List (Result Session) × Db)
          → IsKept before s x
          → IsKept before s (
              limit_after devices sessions context_tenant have_audit_logs submit calls tenant s f x)
      limit_after-IsKept none x h = h
      limit_after-IsKept (some f) x h =
          if_elim (IsKept before s) f.is_first x
            (free_at_limit devices sessions context_tenant have_audit_logs submit calls tenant s f
              x)
            (λ _. h) (λ _. free_at_limit-IsKept f x h)

      IsKept-cons :
          (r : Result Session) (rs : List (Result Session)) (db : Db)
          → IsKept before s (rs, db)
          → IsKept before s (r ∷ rs, db)
      IsKept-cons r rs db (inl all) = inl all
      IsKept-cons r rs db (inr (inl gone)) = inr (inl gone)
      IsKept-cons r rs db (inr (inr bad)) = inr (inr (HasFailed-cons r rs bad))

      clean_refused-IsKept :
          (t : Option String) (x : List (Result Session) × Db)
          → IsKept before s x
          → IsKept before s (
              clean_refused devices sessions context_tenant have_audit_logs submit calls tenant s t
                x)
      clean_refused-IsKept none x h = h
      clean_refused-IsKept (some t) (rs, db) h = by_log (log-db t db)
        where
          r : Result Session
          r = (delete devices sessions context_tenant have_audit_logs submit calls tenant s db).0

          db' : Db
          db' = (log devices sessions context_tenant have_audit_logs submit calls tenant s t db).1

          by_log :
              (db' ≡ db)
                ⊎ (db'
                    ≡ (delete devices sessions context_tenant have_audit_logs submit calls tenant s
                        db).1)
              → IsKept before s (r ∷ rs, db')
          by_log (inl same) =
              subst (λ q. IsKept before s (r ∷ rs, q)) (sym same) (IsKept-cons r rs db h)
          by_log (inr gone) =
              subst (λ q. IsKept before s (r ∷ rs, q)) (sym gone) (inr (delete-IsRestored rs db h))

      -- The end of a connection: it is freed, and the sessions are restored.
      abbrev IsFreed : Connection Db → Type 0
      IsFreed c =
          c.is_open ≡ false
          → (x : Option Error × List AuditLog) × (c.freed ≡ some x)
            × IsRestored before (c.deletions, c.db)

      free-IsFreed :
          (types : List String) (replies : Replies) (sent : List (String × ProtoMsg))
          (x : List (Result Session) × Db)
          → IsKept before s x
          → IsFreed (
              free devices sessions context_tenant have_audit_logs submit calls tenant s types
                replies sent x)
      free-IsFreed types replies sent (rs, db) h =
          let (r, db') =
            delete devices sessions context_tenant have_audit_logs submit calls tenant s db in
          λ _. (
            _,
            refl,
            subst (λ q. IsRestored before (r ∷ rs, q)) (sym (free_session-db types db))
                (delete-IsRestored rs db h),
          )

      served-IsFreed :
          (x : List (Result Session) × Db) (l : UserLoop) (sent : List (String × ProtoMsg))
          (y : Status)
          → IsKept before s x
          → IsFreed (
              served devices sessions context_tenant have_audit_logs submit calls tenant s x l sent
                y)
      served-IsFreed (rs, db) l sent running h = λ q. absurd cc
      served-IsFreed x l sent (returned e) h = free-IsFreed l.types [] sent x h

      serve-IsFreed :
          (x : List (Result Session) × Db)
          → IsKept before s x
          → IsFreed (serve devices sessions context_tenant have_audit_logs submit calls tenant s x)
      serve-IsFreed x h =
          let x' =
            limit_before devices sessions context_tenant have_audit_logs submit calls tenant s
              calls.limit x in
          let (l, sent, e) = connect_serve_ws tenant s (
            map (audited devices sessions context_tenant have_audit_logs submit calls tenant s x'.1)
              calls.inputs) in
          served-IsFreed
            (limit_after devices sessions context_tenant have_audit_logs submit calls tenant s
              calls.limit
              (clean_refused devices sessions context_tenant have_audit_logs submit calls tenant s
                l.refused x'))
            l sent l.status
            (limit_after-IsKept calls.limit
              (clean_refused devices sessions context_tenant have_audit_logs submit calls tenant s
                l.refused x')
              (clean_refused-IsKept l.refused x' (limit_before-IsKept calls.limit x h)))

      connected-IsFreed :
          (db : Db)
          → docs db ≡ before ++ (s ∷ [])
          → IsFreed
              (connected devices sessions context_tenant have_audit_logs submit calls tenant s db)
      connected-IsFreed db all = by_subscription calls.subscribed
        where
          failure : Replies
          failure = error_reply 500 (message "failed to establish internal device session") ∷ []

          by_upgrade :
              (x : Option Error)
              → IsFreed (elim x as (λ _. Connection Db) [
                | some e ↦
                    free devices sessions context_tenant have_audit_logs submit calls tenant s [] []
                      []
                      ([], db)
                | none ↦
                    serve devices sessions context_tenant have_audit_logs submit calls tenant s
                      ([], db)
              ])
          by_upgrade (some e) = free-IsFreed [] [] [] ([], db) (inl all)
          by_upgrade none = serve-IsFreed ([], db) (inl all)

          by_subscription :
              (x : Option Error)
              → IsFreed (elim x as (λ _. Connection Db) [
                | some e ↦
                    free devices sessions context_tenant have_audit_logs submit calls tenant s []
                      failure []
                      ([], db)
                | none ↦ (elim calls.upgraded [
                  | some e ↦
                      free devices sessions context_tenant have_audit_logs submit calls tenant s []
                        [] []
                        ([], db)
                  | none ↦
                      serve devices sessions context_tenant have_audit_logs submit calls tenant s
                        ([], db)
                ])
              ])
          by_subscription (some e) = free-IsFreed [] failure [] ([], db) (inl all)
          by_subscription none = by_upgrade calls.upgraded

  -- A user's connection that is no longer open has freed its session: where it ended at the
  -- subscription, at the upgrade, by a refused audit entry (whose handling deletes the session
  -- before) or otherwise, and whether or not the session was freed before because it was over its
  -- limit. Where the session was prepared without an error, under an id that the tenant did not have,
  -- and the driver does not give the store's own error, `FreeUserSession` was called at the end, and
  -- the sessions are again those of before, unless one of the deletions failed otherwise than by
  -- finding no session. (Other connections are not part of the run.)
  pub connect-IsFreed :
      (uuid : String) (now : ℕ) (i : Identity) (device_id : String) (ddb : devices.Db) (db : Db)
      → context_tenant (some i.tenant) ≡ i.tenant
      → ((p : Session → Bool) (q : Db)
          → (sessions.find_one_and_delete p q).0 ≢ failed session_not_found)
      → first (is_session i.tenant uuid) (docs db) ≡ none
      → i.is_user ≡ true
      → (prepare_user_session devices sessions context_tenant
          (ok uuid)
          (new_session i device_id now)
          ddb
          db).0
        ≡ none
      → let c =
          connect devices sessions context_tenant have_audit_logs submit calls
            (ok uuid)
            now
            i
            device_id
            ddb
            db in
        c.is_open ≡ false
        → (x : Option Error × List AuditLog) × (c.freed ≡ some x)
          × IsRestored (docs db) (c.deletions, c.db)
  unfolding connect
  connect-IsFreed uuid now i device_id ddb db named foreign new user prepared = rw user (
      by_prepared
        (prepare_user_session devices sessions context_tenant (ok uuid)
          (new_session i device_id now) ddb db)
        prepared
        (prepare_user_session-none devices sessions context_tenant uuid
          (new_session i device_id now) ddb db prepared).0
        (prepare_user_session-none devices sessions context_tenant uuid
          (new_session i device_id now) ddb db prepared).2)
    where
      by_prepared :
          (x : Option Error × Session × Db)
          → x.0 ≡ none
          → x.1 ≡ record (new_session i device_id now) { id = uuid }
          → docs x.2 ≡ docs db ++ (x.1 ∷ [])
          → let c =
              after_prepare devices sessions context_tenant have_audit_logs submit calls i.tenant
                x in
            c.is_open ≡ false
            → (y : Option Error × List AuditLog) × (c.freed ≡ some y)
              × IsRestored (docs db) (c.deletions, c.db)
      by_prepared (some e, s, q) p is all = absurd cc
      by_prepared (none, s, q) p is all =
          connected-IsFreed i.tenant s (docs db) named foreign
            (ap (λ (z : Session). first (is_session i.tenant z.id) (docs db)) is ∙ new)
            (ap (λ (z : Session). z.tenant_id) is) q all
