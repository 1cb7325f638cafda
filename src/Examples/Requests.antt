-- ===== src/Examples/Requests.antt =====
-- Requests of a tenant's users, and the deletion of the tenant.
use deviceconnect.Prelude.{String, true, List, [], ◌∷◌, Option, none, some, ◌≡◌, ◌↔◌, refl, length}
use deviceconnect.Errors.{Error, ok}
use deviceconnect.FileTransfer.Requests.{Identity}
use deviceconnect.Http.Origins.{check_origin, IsAccepted, check_origin-IsAccepted}
use deviceconnect.Http.Tenants.{delete_tenant_handler, AreDeleted, delete_tenant_handler-AreDeleted}
use deviceconnect.Protocol.{ProtoMsg}
use deviceconnect.Store.Devices.{Device}
use deviceconnect.Store.Uuid.{
  Value, uuid_encode_value, uuid_decode_value, binary, zeros, uuid_encode_value-decode,
}
use deviceconnect.Examples.Database.{listed}

check_origin-IsAccepted_example :
    (check_origin ("https://a" ∷ "https://b" ∷ []) (some ("https://b" ∷ [])) ≡ true)
    ↔ IsAccepted ("https://a" ∷ "https://b" ∷ []) (some ("https://b" ∷ []))
check_origin-IsAccepted_example =
    check_origin-IsAccepted ("https://a" ∷ "https://b" ∷ []) (some ("https://b" ∷ []))

abbrev user : Identity
user = record { subject = "u1"; tenant = "acme"; is_user = true }

abbrev device_of : String → Device
device_of tenant = record {
  id = "d1";
  tenant_id = tenant;
  status = "connected";
  created_ts = 1;
  updated_ts = 2;
  version = some 4;
}

abbrev tenant_of_device : Device → String
tenant_of_device d = d.tenant_id

abbrev tenant_of : Option String → String
tenant_of none = ""
tenant_of (some t) = t

abbrev both : List Device
both = device_of "acme" ∷ device_of "other" ∷ []

delete_tenant_handler-AreDeleted_example :
    AreDeleted tenant_of_device
      (listed Device)
      tenant_of
      "acme"
      (both ∷ [])
      (delete_tenant_handler tenant_of_device (listed Device) tenant_of "acme" (ok (both ∷ []))).1
unfolding delete_tenant_handler
delete_tenant_handler-AreDeleted_example =
    delete_tenant_handler-AreDeleted tenant_of_device (listed Device) tenant_of "acme" (both ∷ [])
      refl refl

uuid_encode_value-decode_example :
    (length (zeros 16) ≡ 16)
    × ((w : Value) × (uuid_encode_value true (zeros 16) ≡ ok w)
        × (uuid_decode_value true w ≡ ok (zeros 16)))
unfolding uuid_decode_value
uuid_encode_value-decode_example =
    uuid_encode_value-decode true (binary (zeros 16) 3 none) (zeros 16) refl

abbrev published_to : String → ProtoMsg → Option Error
published_to subject m = none
