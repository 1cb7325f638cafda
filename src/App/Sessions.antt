-- ===== src/App/Sessions.antt =====
-- app/app.go: what holds of a session that was prepared, logged and freed.
use deviceconnect.Workflows.{port_forward_close, terminal_close}
use deviceconnect.App.{admit_device, freed}
use deviceconnect.Prelude.{
  String, Bool, true, List, [], ◌∷◌, ◌++◌, Option, none, some, str_eq, str_eq_iff, if◌then◌else◌,
  ◌≡◌, ◌≢◌, refl, sym, ap, ◌∙◌, arith, Bool-cases, inl, inr,
}
use deviceconnect.Errors.{Error, Result, ok, err, panic}
use deviceconnect.Session.{Session, validate}
use deviceconnect.Store.Collection.{Collection, first, remove, Found, found, no_documents, failed}
use deviceconnect.Store.Devices.{Device, get_device, device_status_connected, is_device}
use deviceconnect.Store.Sessions.{
  allocate_session, delete_session, is_session, set_tenant, to_session,
}
use deviceconnect.Workflows.{Action, AuditLog}
use deviceconnect.App.{
  known_device, check_device, prepare_user_session, admit, session_log, Submit, log_close,
  free_user_session,
}

validate-none : (s : Session) → validate s ≡ none → s.id ≢ ""
unfolding validate
validate-none s h = ground (arith, str_eq_iff s.id "")

get_device-found :
    (c : Collection Device) (tenant device : String) (db : c.Db)
    → check_device (known_device (get_device c tenant device db)) ≡ none
    → (d : Device) × (first (is_device tenant device) (c.docs db) ≡ some d)
      × (d.status ≡ device_status_connected)
unfolding get_device
get_device-found c tenant device db h = by_result (c.find_one (is_device tenant device) db) refl h
  where
    by_result :
        (r : Found Device)
        → c.find_one (is_device tenant device) db ≡ r
        → check_device (
            known_device
              (elim r [ found d ↦ ok (some d) | no_documents ↦ ok none | failed e ↦ err e ]))
          ≡ none
        → (d : Device) × (first (is_device tenant device) (c.docs db) ≡ some d)
          × (d.status ≡ device_status_connected)
    by_result (found d) e k = (
      d,
      c.find_one_found (is_device tenant device) db d e,
      ground (arith, str_eq_iff d.status device_status_connected),
    )
    by_result no_documents e k = cc
    by_result (failed x) e k = cc

module _ (sessions : Collection Session) (context_tenant : Option String → String) where
  open sessions use {docs}

  allocate_session-none :
      (s : Session) (db : sessions.Db)
      → (allocate_session sessions context_tenant s db).0 ≡ none
      → docs (allocate_session sessions context_tenant s db).1 ≡ docs db ++ (s ∷ [])
  unfolding allocate_session
  allocate_session-none s db h = ground (arith, sessions.insert_one_done s db)

  -- A deletion that gave a session found it in the collection and removed it.
  delete_session-ok :
      (ctx : Option String) (id : String) (db : sessions.Db) (s : Session)
      → (delete_session sessions context_tenant ctx id db).0 ≡ ok s
      → (d : Session) × (s ≡ set_tenant ctx d)
        × (first (is_session (context_tenant ctx) id) (docs db) ≡ some d)
        × (docs (delete_session sessions context_tenant ctx id db).1
            ≡ remove (is_session (context_tenant ctx) id) (docs db))
  unfolding delete_session
  delete_session-ok ctx id db s h =
      by_result (sessions.find_one_and_delete (is_session (context_tenant ctx) id) db).0 refl h
    where
      p : Session → Bool
      p = is_session (context_tenant ctx) id

      by_result :
          (r : Found Session)
          → (sessions.find_one_and_delete p db).0 ≡ r
          → to_session ctx r ≡ ok s
          → (d : Session) × (s ≡ set_tenant ctx d)
            × (first p (docs db) ≡ some d)
            × (docs (sessions.find_one_and_delete p db).1 ≡ remove p (docs db))
      by_result (found d) e k =
          let law = sessions.find_one_and_delete_found p db d e in (d, cc, law.0, law.1)
      by_result no_documents e k = cc
      by_result (failed x) e k = cc

module _ (devices : Collection Device) (sessions : Collection Session)
    (context_tenant : Option String → String) where
  -- What is known after a preparation without an error that ended with session `s`.
  abbrev IsPrepared :
      Session → devices.Db → sessions.Db → Option Error × Session × sessions.Db → Type 0
  IsPrepared s ddb db (_, s', db') =
      (s' ≡ s)
      × (s'.id ≢ "")
      × (sessions.docs db' ≡ sessions.docs db ++ (s' ∷ []))
      × ((d : Device) × (first (is_device s'.tenant_id s'.device_id) (devices.docs ddb) ≡ some d)
          × (d.status ≡ device_status_connected))

  admit_device-none :
      (x : Option Error) (s : Session) (ddb : devices.Db) (db : sessions.Db)
      → check_device (known_device (get_device devices s.tenant_id s.device_id ddb)) ≡ x
      → validate s ≡ none
      → (admit_device devices sessions context_tenant x s db).0 ≡ none
      → IsPrepared s ddb db (admit_device devices sessions context_tenant x s db)
  admit_device-none (some e) s ddb db c v h = cc
  admit_device-none none s ddb db c v h = (
    refl,
    validate-none s v,
    allocate_session-none sessions context_tenant s db h,
    get_device-found devices s.tenant_id s.device_id ddb c,
  )

  admit-none :
      (x : Option Error) (s : Session) (ddb : devices.Db) (db : sessions.Db)
      → validate s ≡ x
      → (admit devices sessions context_tenant x s ddb db).0 ≡ none
      → IsPrepared s ddb db (admit devices sessions context_tenant x s ddb db)
  admit-none (some e) s ddb db v h = cc
  admit-none none s ddb db v h =
      admit_device-none
        (check_device (known_device (get_device devices s.tenant_id s.device_id ddb))) s ddb db refl
        v h

  -- A session that is prepared without an error is in the database, with an id that is not empty
  -- (the one that it had, or else the new one), and the database knows its device as connected.
  pub prepare_user_session-none :
      (uuid : String) (s : Session) (ddb : devices.Db) (db : sessions.Db)
      → let (e, s', db') =
          prepare_user_session devices sessions context_tenant (ok uuid) s ddb db in
        e ≡ none
        → (s' ≡ (if str_eq s.id "" then record s { id = uuid } else s))
          × (s'.id ≢ "")
          × (sessions.docs db' ≡ sessions.docs db ++ (s' ∷ []))
          × ((d : Device) × (first (is_device s'.tenant_id s'.device_id) (devices.docs ddb)
                ≡ some d)
              × (d.status ≡ device_status_connected))
  unfolding prepare_user_session
  prepare_user_session-none uuid s ddb db = elim (Bool-cases (str_eq s.id "")) [
    | inl empty ↦
        rw empty
          (admit-none (validate (record s { id = uuid })) (record s { id = uuid }) ddb db refl)
    | inr given ↦ rw given (admit-none (validate s) s ddb db refl)
  ]

module _ (sessions : Collection Session) (context_tenant : Option String → String)
    (submit : Submit) where
  freed_twice :
      (ctx : Option String) (have : Bool) (id : String) (types : List String) (db : sessions.Db)
      (r : Result Session)
      → (delete_session sessions context_tenant ctx id db).0 ≡ r
      → first (is_session (context_tenant ctx) id) (sessions.docs db) ≡ none
      → (freed sessions context_tenant have submit types
          (r, (delete_session sessions context_tenant ctx id db).1)).2
        ≡ []
  freed_twice ctx have id types db (ok s) e gone =
      let (d, _, there, _) = delete_session-ok sessions context_tenant ctx id db s e in
      absurd (not_both (sym gone ∙ there))
    where
      not_both : {x : Session} → ◌≡◌ {A = Option Session} none (some x) → ⊥
      not_both q = cc
  freed_twice ctx have id types db (err x) e gone = refl
  freed_twice ctx have id types db panic e gone = refl

  -- A session is closed in the audit log once: when it was deleted and no second document of its id
  -- is left, freeing it again submits no entry, whatever types are given. (A session that is over
  -- its limit is freed at once, and again when its connection ends.)
  pub free_user_session-twice :
      (ctx : Option String) (have : Bool) (id : String) (types' : List String) (db : sessions.Db)
      (s : Session)
      → (delete_session sessions context_tenant ctx id db).0 ≡ ok s
      → first
          (is_session (context_tenant ctx) id)
          (remove (is_session (context_tenant ctx) id) (sessions.docs db))
        ≡ none
      → let db' = (delete_session sessions context_tenant ctx id db).1 in
        (free_user_session sessions context_tenant have submit ctx id types' db').2 ≡ []
  unfolding free_user_session
  free_user_session-twice ctx have id types' db s e unique =
      let (_, _, _, removed) = delete_session-ok sessions context_tenant ctx id db s e in
      let db' = (delete_session sessions context_tenant ctx id db).1 in
      freed_twice ctx have id types' db' (delete_session sessions context_tenant ctx id db').0 refl
        (ap (first (is_session (context_tenant ctx) id)) removed ∙ unique)

  -- The entry for the end of a session: its user on its device.
  abbrev pub close_entry : Action → Session → AuditLog
  close_entry action s = record {
    action = action;
    actor_id = s.user_id;
    object_id = s.device_id;
    change = "";
    meta_data = ("session_id", s.id) ∷ [];
    event_ts = 0;
  }

  -- The entries for the types of a session, in their order.
  abbrev pub close_entries : Session → List String → List AuditLog
  close_entries s [] = []
  close_entries s (t ∷ ts) =
      if str_eq t "portforward"
      then close_entry port_forward_close s ∷ close_entries s ts
      else if str_eq t "terminal"
      then close_entry terminal_close s ∷ close_entries s ts
      else close_entries s ts

  log_close-accepted :
      (s : Session) (types : List String)
      → ((l : AuditLog) → submit l ≡ none)
      → log_close sessions context_tenant true submit s types ≡ (none, close_entries s types)
  unfolding log_close
  log_close-accepted s [] all = refl
  log_close-accepted s (t ∷ ts) all = ground (
    arith,
    all (session_log port_forward_close "" s 0),
    all (session_log terminal_close "" s 0),
    log_close-accepted s ts all,
  )

  -- Where audit logs are on and the audit log takes every entry, freeing a session without an error
  -- submits, of the stored session, one entry for each of the types given that is a terminal or a
  -- port forwarding, in their order and no other: the user and the device of the session and its id,
  -- with the action that closes the type.
  pub free_user_session-entries :
      (ctx : Option String) (id : String) (types : List String) (db : sessions.Db) (s : Session)
      → ((l : AuditLog) → submit l ≡ none)
      → (delete_session sessions context_tenant ctx id db).0 ≡ ok s
      → free_user_session sessions context_tenant true submit ctx id types db
        ≡ (none, (delete_session sessions context_tenant ctx id db).1, close_entries s types)
  unfolding free_user_session
  free_user_session-entries ctx id types db s all e = rw (e, log_close-accepted s types all) refl
