-- ===== src/Store/Devices.antt =====
-- store/mongo/datastore_mongo.go: the devices. A tenant's device is selected by both its ids; its
-- version counts its connections.
pub mod Versions
use deviceconnect.Prelude.{
  ℕ, ◌+◌, String, Bool, true, false, ◌&&◌, List, [], ◌∷◌, Option, none, some, str_eq, ◌==◌,
  if◌then◌else◌,
}
use deviceconnect.Errors.{Error, Result, ok, err}
use deviceconnect.Store.Collection.{Collection, Found, found, no_documents, failed}

-- model/device.go
abbrev pub device_status_disconnected : String
device_status_disconnected = "disconnected"

abbrev pub device_status_connected : String
device_status_connected = "connected"

abbrev pub device_status_unknown : String
device_status_unknown = "unknown"

-- `model.Device` with the fields of its document: the tenant and the version, which a device that
-- was only provisioned lacks.
pub record Device : Type 0 where
  pub id : String
  pub tenant_id : String
  pub status : String
  pub created_ts : ℕ
  pub updated_ts : ℕ
  pub version : Option ℕ

-- `bson.M{"_id": deviceID, "tenant_id": tenantID}`
abbrev pub is_device : String → String → Device → Bool
is_device tenant_id device_id d = str_eq d.id device_id && str_eq d.tenant_id tenant_id

-- A filter on a version selects no document that lacks it.
abbrev pub is_version : ℕ → Option ℕ → Bool
is_version v none = false
is_version v (some w) = w == v

-- The version as it is decoded, and as `$inc` takes it.
abbrev pub version_number : Option ℕ → ℕ
version_number none = 0
version_number (some v) = v

abbrev pub is_device_version : String → String → ℕ → Device → Bool
is_device_version tenant_id device_id version d =
    is_device tenant_id device_id d && is_version version d.version

-- `$set` and `$inc` of `SetDeviceConnected`
abbrev pub connected_now : ℕ → Device → Device
connected_now now d = record d {
  status = device_status_connected;
  updated_ts = now;
  version = some (version_number d.version + 1);
}

abbrev pub disconnected_now : ℕ → Device → Device
disconnected_now now d = record d { status = device_status_disconnected; updated_ts = now }

-- The documents that the two upserts insert.
abbrev pub provisioned : ℕ → String → String → Device
provisioned now tenant_id device_id = record {
  id = device_id;
  tenant_id = tenant_id;
  status = device_status_unknown;
  created_ts = now;
  updated_ts = now;
  version = none;
}

abbrev pub first_connected : ℕ → String → String → Device
first_connected now tenant_id device_id = record {
  id = device_id;
  tenant_id = tenant_id;
  status = device_status_connected;
  created_ts = now;
  updated_ts = now;
  version = some 1;
}

module _ (c : Collection Device) where
  open c use {Db, find_one, update_one, find_one_and_update, delete_one}

  -- `ProvisionDevice`: the update has only `$setOnInsert`.
  unfoldable pub provision_device : ℕ → String → String → Db → Option Error × Db
  provision_device now tenant_id device_id =
      update_one (is_device tenant_id device_id) (λ d. d)
        (some (provisioned now tenant_id device_id))

  -- `DeleteDevice`
  unfoldable pub delete_device : String → String → Db → Option Error × Db
  delete_device tenant_id device_id = delete_one (is_device tenant_id device_id)

  abbrev to_device : Found Device → Result (Option Device)
  to_device (found d) = ok (some d)
  to_device no_documents = ok none
  to_device (failed e) = err e

  -- `GetDevice`: `ok none` is a nil device with no error.
  unfoldable pub get_device : String → String → Db → Result (Option Device)
  get_device tenant_id device_id db = to_device (find_one (is_device tenant_id device_id) db)

  abbrev to_version : Found Device → ℕ × Option Error
  to_version (found d) = (version_number d.version, none)
  to_version no_documents = (0, some (Error.message "mongo: no documents in result"))
  to_version (failed e) = (0, some e)

  -- `SetDeviceConnected`: the version is 0 where there is an error.
  unfoldable pub set_device_connected : ℕ → String → String → Db → (ℕ × Option Error) × Db
  set_device_connected now tenant_id device_id db =
      let (r, db') =
        find_one_and_update (is_device tenant_id device_id) (connected_now now)
          (some (first_connected now tenant_id device_id)) db in
      (to_version r, db')

  -- `SetDeviceDisconnected`: there is no upsert, so its `$setOnInsert` has no effect.
  unfoldable pub set_device_disconnected : ℕ → String → String → ℕ → Db → Option Error × Db
  set_device_disconnected now tenant_id device_id version =
      update_one (is_device_version tenant_id device_id version) (disconnected_now now) none
