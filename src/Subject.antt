-- ===== src/Subject.antt =====
-- model/session.go: the NATS subjects of sessions and devices.
pub mod Injective
use Prim.Native.String.{◌++◌}
use deviceconnect.Prelude.{String, str_eq, if◌then◌else◌}

-- `GetSessionSubject`
unfoldable pub session_subject : String → String → String
session_subject tenant_id session_id =
    if str_eq tenant_id ""
    then "session" ++ ("." ++ session_id)
    else "session" ++ ("." ++ (tenant_id ++ ("." ++ session_id)))

-- `GetDeviceSubject`
unfoldable pub device_subject : String → String → String
device_subject tenant_id device_id =
    if str_eq tenant_id ""
    then "device" ++ ("." ++ device_id)
    else "device" ++ ("." ++ (tenant_id ++ ("." ++ device_id)))
