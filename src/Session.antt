-- ===== src/Session.antt =====
-- model/session.go: a user's session with a device.
use deviceconnect.Prelude.{
  ℕ, String, not, ◌&&◌, List, Option, none, some, str_eq, ◌==◌, if◌then◌else◌,
}
use deviceconnect.Errors.{Error, validation_errors}

abbrev pub session_type_terminal : String
session_type_terminal = "terminal"

abbrev pub session_type_port_forward : String
session_type_port_forward = "portforward"

-- `model.Session`; the zero time is 0.
pub record Session : Type 0 where
  pub id : String
  pub user_id : String
  pub device_id : String
  pub types : List String
  pub start_ts : ℕ
  pub tenant_id : String
  pub bytes_recorded : ℕ

-- `Session.Validate`: `validation.Required` refuses the empty text and the zero time.
unfoldable pub validate : Session → Option Error
validate s =
    if not (str_eq s.id "")
      && (not (str_eq s.user_id "") && (not (str_eq s.device_id "") && not (s.start_ts == 0)))
    then none
    else some validation_errors
