-- ===== src/Store/Sessions.antt =====
-- store/mongo/datastore_mongo.go: the sessions. `context_tenant` is what `mstore.WithTenantID` of
-- go-lib-micro takes for the tenant out of a context with this identity, or with none.
use deviceconnect.Prelude.{String, Bool, ◌&&◌, Option, none, some, str_eq}
use deviceconnect.Errors.{Error, Result, ok, err, session_not_found, wrap}
use deviceconnect.Session.{Session, validate}
use deviceconnect.Store.Collection.{Collection, Found, found, no_documents, failed}

abbrev pub is_session : String → String → Session → Bool
is_session tenant_id session_id s = str_eq s.id session_id && str_eq s.tenant_id tenant_id

-- `if idty := identity.FromContext(ctx); idty != nil { sess.TenantID = idty.Tenant }`
abbrev pub set_tenant : Option String → Session → Session
set_tenant none s = s
set_tenant (some tenant) s = record s { tenant_id = tenant }

abbrev pub to_session : Option String → Found Session → Result Session
to_session ctx (found s) = ok (set_tenant ctx s)
to_session ctx no_documents = err session_not_found
to_session ctx (failed e) = err e

module _ (c : Collection Session) (context_tenant : Option String → String) where
  open c use {Db, find_one, insert_one, find_one_and_delete}

  abbrev inserted : Option Error × Db → Option Error × Db
  inserted (none, db) = (none, db)
  inserted (some e, db) = (some (wrap e "store: failed to allocate session"), db)

  -- `AllocateSession`
  unfoldable pub allocate_session : Session → Db → Option Error × Db
  unfolding validate
  allocate_session s db = elim (validate s) [
    | some e ↦ (some (wrap e "store: cannot allocate invalid Session"), db)
    | none ↦ inserted (insert_one s db)
  ]

  -- `DeleteSession`
  unfoldable pub delete_session : Option String → String → Db → Result Session × Db
  delete_session ctx session_id db =
      let (r, db') = find_one_and_delete (is_session (context_tenant ctx) session_id) db in
      (to_session ctx r, db')

  -- `GetSession`
  unfoldable pub get_session : Option String → String → Db → Result Session
  get_session ctx session_id db =
      to_session ctx (find_one (is_session (context_tenant ctx) session_id) db)
