-- ===== src/Errors.antt =====
-- Go's `error` values, and the results of fallible functions. A sentinel that the code compares
-- errors with is a constructor of its own; an error made by a library is `external`.
use deviceconnect.Prelude.{ℕ, String}

pub data Error : Type 0 where
  -- app/app.go
  device_not_found device_not_connected nil_session : Error
  -- store/datastore.go, store/mongo/datastore_mongo.go
  session_not_found unknown_control_message_type recording_data_inconsistent : Error
  -- app/control.go and package io
  unknown_message short_buffer short_write eof unexpected_eof : Error
  -- `validation.Errors` of ozzo-validation
  validation_errors : Error
  -- api/http/management_filetransfer.go
  file_transfer_marshalling file_transfer_unmarshalling file_transfer_publishing : Error
  file_transfer_timeout file_transfer_failed : Error
  file_transfer_not_implemented file_transfer_disabled : Error
  -- `ctx.Err()`
  context_done : Error
  -- `errors.New(s)`, `errors.Wrap(e, s)`, `NewError(e, code)`
  message : String → Error
  wrap : Error → String → Error
  with_status : Error → ℕ → Error
  external : ℕ → Error

-- `errors.Cause` of pkg/errors follows `Wrap`.
abbrev pub cause : Error → Error
cause (wrap e _) = cause e
cause e = e

pub data Result {ℓ} (A : Type ℓ) : Type ℓ where
  ok : A → Result A
  err : Error → Result A
  -- a run-time panic, such as an index out of range
  panic : Result A

infixl 5 ◌>>=◌ ◌>>◌
abbrev pub ◌>>=◌ {ℓ κ} : {A : Type ℓ} {B : Type κ} → Result A → (A → Result B) → Result B
ok a >>= f = f a
err e >>= f = err e
panic >>= f = panic

abbrev pub ◌>>◌ {ℓ} : {B : Type ℓ} → Result (Unit {0}) → Result B → Result B
m >> k = m >>= λ _. k
