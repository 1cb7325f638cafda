-- ===== src/Http/Tenants.antt =====
-- api/http/internal.go, app/app.go and store/mongo/datastore_mongo.go: `DeleteTenant`.
use deviceconnect.Prelude.{
  String, Bool, List, [], ◌∷◌, Option, none, some, str_eq, str_eq_iff, if◌then◌else◌, ◌≡◌, refl,
  arith, ap, ◌∙◌,
}
use deviceconnect.Errors.{Error, Result, ok, err, panic}
use deviceconnect.Store.Collection.{Collection, remove_all}
use deviceconnect.Http.Replies.{Replies, error_reply, status_reply}

-- The documents of a tenant.
abbrev pub of_tenant : {Doc : Type 0} → (Doc → String) → String → Doc → Bool
of_tenant tenant_id tenant d = str_eq (tenant_id d) tenant

abbrev pub tenant_docs : {Doc : Type 0} → (Doc → String) → String → List Doc → List Doc
tenant_docs tenant_id tenant [] = []
tenant_docs tenant_id tenant (d ∷ ds) =
    if of_tenant tenant_id tenant d
    then d ∷ tenant_docs tenant_id tenant ds
    else tenant_docs tenant_id tenant ds

tenant_docs-remove_all :
    {Doc : Type 0} (tenant_id : Doc → String) (tenant other : String) (ds : List Doc)
    → tenant_docs tenant_id other (remove_all (of_tenant tenant_id tenant) ds)
      ≡ (if str_eq other tenant then [] else tenant_docs tenant_id other ds)
tenant_docs-remove_all tenant_id tenant other [] = ground arith
tenant_docs-remove_all tenant_id tenant other (d ∷ ds) = ground (
  arith,
  str_eq_iff (tenant_id d) tenant,
  str_eq_iff (tenant_id d) other,
  str_eq_iff other tenant,
  tenant_docs-remove_all tenant_id tenant other ds,
)

-- The collections of the database are of one type of documents, of which the tenant is known.
module _ {Doc : Type 0} (tenant_id : Doc → String) (c : Collection Doc)
    (context_tenant : Option String → String) where
  open c use {Db, docs, delete_many}

  abbrev pub next : Option Error × Db → List Db → Option Error × List Db → Option Error × List Db
  next (some e, db) dbs rest = (some e, db ∷ dbs)
  next (none, db) dbs (e, rest) = (e, db ∷ rest)

  -- The store's `DeleteTenant`: an error leaves the collections that come later as they are.
  unfoldable pub delete_tenant : Option String → Result (List Db) → Option Error × List Db
  delete_tenant ctx (err e) = (some e, [])
  delete_tenant ctx panic = (none, [])
  delete_tenant ctx (ok []) = (none, [])
  delete_tenant ctx (ok (db ∷ dbs)) =
      next (delete_many (of_tenant tenant_id (context_tenant ctx)) db) dbs
        (delete_tenant ctx (ok dbs))

  -- The app's `DeleteTenant` gives the tenant to the context.
  unfoldable pub app_delete_tenant : String → Result (List Db) → Option Error × List Db
  unfolding delete_tenant
  app_delete_tenant tenant dbs = delete_tenant (some tenant) dbs

  -- `InternalController.DeleteTenant`: after an error it goes on.
  abbrev pub answered : Option Error → Replies
  answered none = status_reply 204 ∷ []
  answered (some e) = error_reply 500 e ∷ status_reply 204 ∷ []

  unfoldable pub delete_tenant_handler : String → Result (List Db) → Replies × List Db
  unfolding app_delete_tenant
  delete_tenant_handler tenant dbs =
      let (e, dbs') = app_delete_tenant tenant dbs in (answered e, dbs')

  -- The tenant has no documents, and every other tenant those of before.
  abbrev pub AreDeleted : String → List Db → List Db → Type 0
  AreDeleted tenant [] dbs' = dbs' ≡ []
  AreDeleted tenant (db ∷ dbs) [] = ⊥
  AreDeleted tenant (db ∷ dbs) (db' ∷ dbs') =
      ((other : String)
        → tenant_docs tenant_id other (docs db')
          ≡ (if str_eq other tenant then [] else tenant_docs tenant_id other (docs db)))
      × AreDeleted tenant dbs dbs'

  app_delete_tenant-none :
      (tenant : String) (dbs : List Db)
      → context_tenant (some tenant) ≡ tenant
      → (app_delete_tenant tenant (ok dbs)).0 ≡ none
      → AreDeleted tenant dbs (app_delete_tenant tenant (ok dbs)).1
  unfolding app_delete_tenant
  app_delete_tenant-none tenant [] named = λ h. refl
  app_delete_tenant-none tenant (db ∷ dbs) named =
      by_delete (delete_many p db).0 refl (app_delete_tenant-none tenant dbs named)
    where
      p : Doc → Bool
      p = of_tenant tenant_id (context_tenant (some tenant))

      rest : Option Error × List Db
      rest = delete_tenant (some tenant) (ok dbs)

      by_delete :
          (x : Option Error)
          → (delete_many p db).0 ≡ x
          → (rest.0 ≡ none → AreDeleted tenant dbs rest.1)
          → (next (x, (delete_many p db).1) dbs rest).0 ≡ none
          → AreDeleted tenant (db ∷ dbs) (next (x, (delete_many p db).1) dbs rest).1
      by_delete (some e) d ih h = absurd cc
      by_delete none d ih h = (
        λ other.
            ap (tenant_docs tenant_id other) (c.delete_many_done p db d)
            ∙ (ap (λ t. tenant_docs tenant_id other (remove_all (of_tenant tenant_id t) (docs db)))
                  named
                ∙ tenant_docs-remove_all tenant_id tenant other (docs db)),
        ih h,
      )

  -- A deletion that is answered with 204 alone, where the collections could be listed, leaves no
  -- document of the tenant in any of them and takes none from another tenant (the context's tenant
  -- is the one it was given).
  pub delete_tenant_handler-AreDeleted :
      (tenant : String) (dbs : List Db)
      → context_tenant (some tenant) ≡ tenant
      → (delete_tenant_handler tenant (ok dbs)).0 ≡ status_reply 204 ∷ []
      → AreDeleted tenant dbs (delete_tenant_handler tenant (ok dbs)).1
  unfolding delete_tenant_handler
  delete_tenant_handler-AreDeleted tenant dbs named h =
      app_delete_tenant-none tenant dbs named (by_error (delete_tenant (some tenant) (ok dbs)).0 h)
    where
      by_error : (x : Option Error) → answered x ≡ status_reply 204 ∷ [] → x ≡ none
      by_error none e = refl
      by_error (some x) e = absurd cc
