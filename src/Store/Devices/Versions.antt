-- ===== src/Store/Devices/Versions.antt =====
-- store/mongo/datastore_mongo.go: a connection that ends late does not mark the device as
-- disconnected while a newer one is open.
use deviceconnect.Store.Devices.{provisioned, first_connected}
use deviceconnect.Prelude.{Option-cases}
use deviceconnect.Prelude.{
  ℕ, ◌+◌, String, Bool, true, false, List, [], ◌∷◌, ◌++◌, Option, none, some, str_eq_iff,
  if◌then◌else◌, ◌≡◌, refl, sym, ◌∙◌, ap, arith, Bool-cases, inl, inr,
}
use deviceconnect.Store.Collection.{Collection, Found, found, no_documents, failed, first, change}
use deviceconnect.Store.Devices.{
  Device, is_device, is_device_version, is_version, version_number, connected_now, disconnected_now,
  device_status_connected, set_device_connected, set_device_disconnected, provision_device,
  to_version,
}

module _ (tenant_id device_id : String) where
  abbrev mine : Device → Bool
  mine = is_device tenant_id device_id

  -- The selected device after a change that keeps its ids.
  first-change :
      (f : Device → Device) (u : Option Device) (ds : List Device) (d : Device)
      → ((x : Device) → mine (f x) ≡ mine x)
      → first mine ds ≡ some d
      → first mine (change mine f u ds) ≡ some (f d)
  first-change f u [] d k h = cc
  first-change f none (x ∷ ds) d k h = ground (arith, k x, first-change f none ds d k)
  first-change f (some v) (x ∷ ds) d k h = ground (arith, k x, first-change f (some v) ds d k)

  -- An update that names the version of the selected device reaches it.
  first-change_version :
      (f : Device → Device) (v : ℕ) (ds : List Device) (d : Device)
      → ((x : Device) → mine (f x) ≡ mine x)
      → first mine ds ≡ some d
      → is_version v d.version ≡ true
      → first mine (change (is_device_version tenant_id device_id v) f none ds) ≡ some (f d)
  first-change_version f v [] d k h e = cc
  first-change_version f v (x ∷ ds) d k h e = ground (arith, k x, first-change_version f v ds d k)

  -- An update that names another version leaves the selected device alone.
  first-change_stale :
      (f : Device → Device) (v : ℕ) (ds : List Device) (d : Device)
      → ((x : Device) → mine (f x) ≡ mine x)
      → first mine ds ≡ some d
      → is_version v d.version ≡ false
      → first mine (change (is_device_version tenant_id device_id v) f none ds) ≡ some d
  first-change_stale f v [] d k h e = cc
  first-change_stale f v (x ∷ ds) d k h e = ground (arith, k x, first-change_stale f v ds d k)

  first-found : (ds : List Device) (d : Device) → first mine ds ≡ some d → mine d ≡ true
  first-found [] d h = cc
  first-found (x ∷ ds) d h = ground (arith, first-found ds d)

  first-change_new :
      (f : Device → Device) (u : Device) (ds : List Device)
      → mine u ≡ true
      → first mine ds ≡ none
      → first mine (change mine f (some u) ds) ≡ some u
  first-change_new f u [] m h = ground arith
  first-change_new f u (x ∷ ds) m h = ground (arith, first-change_new f u ds m)

abbrev IsVersionFound : ℕ → Found Device → Type 0
IsVersionFound v r = (d : Device) × (r ≡ found d) × (version_number d.version ≡ v)

to_version-none :
    (c : Collection Device) (r : Found Device) (v : ℕ)
    → to_version c r ≡ (v, none)
    → IsVersionFound v r
to_version-none c (found d) v h = (d, refl, ground arith)
to_version-none c no_documents v h = cc
to_version-none c (failed e) v h = cc

module _ (c : Collection Device) (tenant_id device_id : String) where
  open c use {Db, docs}

  -- The document of the device.
  abbrev pub document : Db → Option Device
  document db = first (is_device tenant_id device_id) (docs db)

  abbrev fresh : ℕ → Device
  fresh now = first_connected now tenant_id device_id

  fresh-mine : (now : ℕ) → is_device tenant_id device_id (fresh now) ≡ true
  fresh-mine now = ground (arith, str_eq_iff device_id device_id, str_eq_iff tenant_id tenant_id)

  connected_document :
      (now : ℕ) (ds : List Device) (d : Device)
      → first
          (is_device tenant_id device_id)
          (change (is_device tenant_id device_id) (connected_now now) (some (fresh now)) ds)
        ≡ some d
      → (d.status ≡ device_status_connected)
        × ((old : Device)
            → first (is_device tenant_id device_id) ds ≡ some old
            → version_number d.version ≡ version_number old.version + 1)
        × (d.version ≡ some (version_number d.version))
  connected_document now ds d h = elim (Option-cases (first (is_device tenant_id device_id) ds)) [
    | inl missing ↦
        let e =
          sym (
            first-change_new tenant_id device_id (connected_now now) (fresh now) ds (fresh-mine now)
              missing)
          ∙ h in
        (ground arith, (λ old g. ground arith), ground arith)
    | inr (x, there) ↦
        let e =
          sym (
            first-change tenant_id device_id (connected_now now) (some (fresh now)) ds x (λ y. refl)
              there)
          ∙ h in
        (ground arith, (λ old g. ground arith), ground arith)
  ]

  -- Connecting without an error leaves a document that is connected and bears the version that was
  -- returned; a
  -- device that was there has got the version after its last one.
  pub set_device_connected-version :
      (now v : ℕ) (db : Db)
      → (set_device_connected c now tenant_id device_id db).0 ≡ (v, none)
      → let db' = (set_device_connected c now tenant_id device_id db).1 in
        (d : Device) × (document db' ≡ some d)
        × (d.version ≡ some v)
        × (d.status ≡ device_status_connected)
        × ((old : Device) → document db ≡ some old → v ≡ version_number old.version + 1)
  unfolding set_device_connected
  set_device_connected-version now v db h =
      let p = is_device tenant_id device_id in
      let r = c.find_one_and_update p (connected_now now) (some (fresh now)) db in
      let (d, e, ve) = to_version-none c r.0 v h in
      let (changed, there) =
        c.find_one_and_update_done p (connected_now now) (some (fresh now)) db d e in
      let (st, vs, there_v) = connected_document now (docs db) d there in
      (d, ap (first p) changed ∙ there, there_v ∙ ap some ve, st, λ old g. sym ve ∙ vs old g)

  pub set_device_disconnected-version :
      (now v : ℕ) (db : Db) (d : Device)
      → document db ≡ some d
      → (set_device_disconnected c now tenant_id device_id v db).0 ≡ none
      → document (set_device_disconnected c now tenant_id device_id v db).1
        ≡ some (if is_version v d.version then disconnected_now now d else d)
  unfolding set_device_disconnected
  set_device_disconnected-version now v db d there h =
      let p = is_device tenant_id device_id in
      let changed = ap (first p) (
        c.update_one_done (is_device_version tenant_id device_id v) (disconnected_now now) none db
          h) in
      elim (Bool-cases (is_version v d.version)) [
        | inl same ↦ rw same (
            changed
            ∙ first-change_version tenant_id device_id (disconnected_now now) v (docs db) d
                (λ y. refl) there (ground arith))
        | inr other ↦ rw other (
            changed
            ∙ first-change_stale tenant_id device_id (disconnected_now now) v (docs db) d
                (λ y. refl) there other)
      ]

  -- Two connections of a device, and then the end of the first one, where the three updates succeed:
  -- the device is still connected, with the version of the second connection.
  pub set_device_disconnected-stale :
      (t₁ t₂ t₃ v₁ v₂ : ℕ) (db : Db)
      → (set_device_connected c t₁ tenant_id device_id db).0 ≡ (v₁, none)
      → let db₁ = (set_device_connected c t₁ tenant_id device_id db).1 in
        (set_device_connected c t₂ tenant_id device_id db₁).0 ≡ (v₂, none)
        → let db₂ = (set_device_connected c t₂ tenant_id device_id db₁).1 in
          (set_device_disconnected c t₃ tenant_id device_id v₁ db₂).0 ≡ none
          → (d : Device) × (document (set_device_disconnected c t₃ tenant_id device_id v₁ db₂).1
              ≡ some d)
            × (d.status ≡ device_status_connected)
            × (d.version ≡ some v₂)
  set_device_disconnected-stale t₁ t₂ t₃ v₁ v₂ db h₁ h₂ h₃ =
      let db₁ = (set_device_connected c t₁ tenant_id device_id db).1 in
      let db₂ = (set_device_connected c t₂ tenant_id device_id db₁).1 in
      let (d₁, e₁, w₁, s₁, _) = set_device_connected-version t₁ v₁ db h₁ in
      let (d₂, e₂, w₂, s₂, later) = set_device_connected-version t₂ v₂ db₁ h₂ in
      let newer : v₂ ≡ v₁ + 1 = later d₁ e₁ ∙ ap (λ x. version_number x + 1) w₁ in
      let other : is_version v₁ d₂.version ≡ false = rw w₂ (ground arith) in
      (
        d₂,
        set_device_disconnected-version t₃ v₁ db₂ d₂ e₂ h₃
            ∙ ap (λ b. some (if b then disconnected_now t₃ d₂ else d₂)) other,
        s₂,
        w₂,
      )

  change-provisioned :
      (u : Device) (ds : List Device)
      → change (is_device tenant_id device_id) (λ d. d) (some u) ds
        ≡ (elim (first (is_device tenant_id device_id) ds) [ some d ↦ ds | none ↦ ds ++ (u ∷ []) ])
  change-provisioned u [] = refl
  change-provisioned u (d ∷ ds) =
      ground (arith, Bool-cases (is_device tenant_id device_id d), change-provisioned u ds)

  -- Provisioning that succeeds leaves the whole collection as it is where the device is there, and
  -- adds one document, of unknown status and without a version, where it is not.
  pub provision_device-docs :
      (now : ℕ) (db : Db)
      → (provision_device c now tenant_id device_id db).0 ≡ none
      → docs (provision_device c now tenant_id device_id db).1 ≡ (elim (document db) [
        | some d ↦ docs db
        | none ↦
            docs db
            ++ (record {
              id = device_id;
              tenant_id = tenant_id;
              status = "unknown";
              created_ts = now;
              updated_ts = now;
              version = none;
            }
                ∷ [])
      ])
  unfolding provision_device
  provision_device-docs now db h =
      c.update_one_done (is_device tenant_id device_id) (λ x. x)
        (some (provisioned now tenant_id device_id)) db h
      ∙ change-provisioned (provisioned now tenant_id device_id) (docs db)
