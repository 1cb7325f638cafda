-- ===== src/Http/Devices.antt =====
-- api/http/management.go, `GetDevice`, and api/http/device.go, `Provision` and `Delete`.
use deviceconnect.Prelude.{
  ℕ, String, true, List, [], ◌∷◌, Option, none, some, str_eq, str_eq_iff, if◌then◌else◌, if_elim,
  ◌≡◌, refl, arith, ap, ◌∙◌, ◌⊎◌, inl, inr, Bool-cases,
}
use deviceconnect.Errors.{Error, Result, ok, err, panic, message, wrap}
use deviceconnect.Store.Collection.{Collection, first, change, Found, found, no_documents, failed}
use deviceconnect.Store.Devices.{
  Device, is_device, get_device, provision_device, delete_device, provisioned,
}
use deviceconnect.App.{known_device}
use deviceconnect.FileTransfer.Requests.{Identity, missing_user_authentication}
use deviceconnect.Http.Replies.{
  Replies, error_reply, device_reply, status_reply, device_error_reply,
}

-- What `c.GetRawData` and `json.Unmarshal` give: the id of the device in the request.
pub data Payload : Type 0 where
  unread : Payload
  invalid : Error → Payload
  device_id : String → Payload

abbrev pub found_reply : Result Device → Replies
found_reply (ok d) = device_reply d ∷ []
found_reply (err e) = device_error_reply e ∷ []
found_reply panic = []

module _ (c : Collection Device) where
  open c use {Db, docs}

  -- `ManagementController.GetDevice`
  unfoldable pub get_device_handler : Option Identity → String → Db → Replies
  unfolding get_device
  get_device_handler none id db = error_reply 400 missing_user_authentication ∷ []
  get_device_handler (some i) id db =
      if i.is_user
      then found_reply (known_device (get_device c i.tenant id db))
      else error_reply 400 missing_user_authentication ∷ []

  -- The answers to the app's `ProvisionDevice` and `DeleteDevice`.
  abbrev pub changed : ℕ → String → Option Error × Db → Replies × Db
  changed status text (none, db) = (status_reply status ∷ [], db)
  changed status text (some e, db) = (error_reply 500 (wrap e text) ∷ [], db)

  -- `Provision`; `now` is the time of the store.
  unfoldable pub provision : ℕ → String → Payload → Db → Replies × Db
  unfolding provision_device
  provision now tenant unread db = (error_reply 400 (message "bad request") ∷ [], db)
  provision now tenant (invalid e) db = (error_reply 400 (wrap e "invalid payload") ∷ [], db)
  provision now tenant (device_id id) db =
      if str_eq id ""
      then (error_reply 400 (message "device_id is empty") ∷ [], db)
      else changed 201 "error provisioning the device" (provision_device c now tenant id db)

  -- `Delete`
  unfoldable pub delete : String → String → Db → Replies × Db
  unfolding delete_device
  delete tenant id db = changed 202 "error deleting the device" (delete_device c tenant id db)

  first-provisioned :
      (now : ℕ) (tenant id : String) (ds : List Device)
      → (d : Device) × (first
            (is_device tenant id)
            (change (is_device tenant id) (λ d. d) (some (provisioned now tenant id)) ds)
          ≡ some d)
  first-provisioned now tenant id [] =
      (provisioned now tenant id, ground (arith, str_eq_iff id id, str_eq_iff tenant tenant))
  first-provisioned now tenant id (x ∷ ds) =
      let (d, e) = first-provisioned now tenant id ds in
      elim (Bool-cases (is_device tenant id x)) [
        | inl y ↦ (x, ground arith)
        | inr n ↦ (d, ground (arith, e))
      ]

  provision_device-first :
      (now : ℕ) (tenant id : String) (db : Db)
      → (provision_device c now tenant id db).0 ≡ none
      → (d : Device) × (first (is_device tenant id) (docs (provision_device c now tenant id db).1)
          ≡ some d)
  unfolding provision_device
  provision_device-first now tenant id db e =
      let p = is_device tenant id in
      let (d, there) = first-provisioned now tenant id (docs db) in
      (
        d,
        ap (first p) (c.update_one_done p (λ x. x) (some (provisioned now tenant id)) db e) ∙ there,
      )

  get_device_handler-first :
      (i : Identity) (id : String) (db : Db) (d : Device)
      → i.is_user ≡ true
      → first (is_device i.tenant id) (docs db) ≡ some d
      → ((d : Device) × (first (is_device i.tenant id) (docs db) ≡ some d)
          × (get_device_handler (some i) id db ≡ device_reply d ∷ []))
        ⊎ ((e : Error) × (c.find_one (is_device i.tenant id) db ≡ failed e))
  unfolding get_device_handler get_device
  get_device_handler-first i id db d user there =
      rw user (by_found (c.find_one (is_device i.tenant id) db) refl)
    where
      by_found :
          (x : Found Device)
          → c.find_one (is_device i.tenant id) db ≡ x
          → ((d : Device) × (first (is_device i.tenant id) (docs db) ≡ some d)
              × (found_reply (
                    known_device (elim x as (λ _. Result (Option Device)) [
                      | found d ↦ ok (some d)
                      | no_documents ↦ ok none
                      | failed e ↦ err e
                    ]))
                  ≡ device_reply d ∷ []))
            ⊎ ((e : Error) × (x ≡ failed e))
      by_found (found y) e = inl (y, c.find_one_found (is_device i.tenant id) db y e, refl)
      by_found no_documents e =
          let none_there = c.find_one_none (is_device i.tenant id) db e in absurd cc
      by_found (failed x) e = inr (x, refl)

  -- A device that was provisioned with the answer 201 is found by the users of its tenant: asked
  -- for it in the database that is left, `GetDevice` answers with a device, unless the store fails.
  pub provision-get_device_handler :
      (now : ℕ) (i : Identity) (id : String) (db : Db)
      → i.is_user ≡ true
      → (provision now i.tenant (device_id id) db).0 ≡ status_reply 201 ∷ []
      → let db' = (provision now i.tenant (device_id id) db).1 in
        ((d : Device) × (first (is_device i.tenant id) (docs db') ≡ some d)
          × (get_device_handler (some i) id db' ≡ device_reply d ∷ []))
        ⊎ ((e : Error) × (c.find_one (is_device i.tenant id) db' ≡ failed e))
  unfolding provision
  provision-get_device_handler now i id db user =
      if_elim P (str_eq id "") (error_reply 400 (message "device_id is empty") ∷ [], db)
        (changed 201 "error provisioning the device" (provision_device c now i.tenant id db))
        (λ _ h. absurd cc) (λ _. by_update (provision_device c now i.tenant id db).0 refl)
    where
      P : Replies × Db → Type 0
      P (replies, db') =
          replies ≡ status_reply 201 ∷ []
          → ((d : Device) × (first (is_device i.tenant id) (docs db') ≡ some d)
              × (get_device_handler (some i) id db' ≡ device_reply d ∷ []))
            ⊎ ((e : Error) × (c.find_one (is_device i.tenant id) db' ≡ failed e))

      by_update :
          (x : Option Error)
          → (provision_device c now i.tenant id db).0 ≡ x
          → P (
              changed 201 "error provisioning the device"
                (x, (provision_device c now i.tenant id db).1))
      by_update none e = λ _.
          let (d, there) = provision_device-first now i.tenant id db e in
          get_device_handler-first i id (provision_device c now i.tenant id db).1 d user there
      by_update (some x) e = λ h. absurd cc
