-- ===== src/FileTransfer/Requests.antt =====
-- api/http/management_filetransfer.go: which requests lead to a transfer (`getFileTransferParams`),
-- and how an error is answered (`handleResponseError`).
use deviceconnect.Prelude.{
  ℕ, String, List, [], ◌∷◌, Bool, true, false, Option, none, some, str_eq, str_eq_iff, leb,
  if◌then◌else◌, if_elim, ◌≡◌, refl, ◌∙◌, arith,
}
use deviceconnect.Errors.{
  Error, Result, ok, err, panic, device_not_found, device_not_connected, file_transfer_timeout,
  file_transfer_failed, file_transfer_not_implemented, file_transfer_disabled, wrap, with_status,
  message,
}
use deviceconnect.Subject.{device_subject, session_subject}
use deviceconnect.FileTransfer.Messages.{Packet}
use deviceconnect.Store.Collection.{Collection, Found, found, no_documents, failed, first}
use deviceconnect.Store.Devices.{Device, is_device, get_device, device_status_connected}
use deviceconnect.App.{known_device}

-- `identity.Identity`, as far as it is looked at.
pub record Identity : Type 0 where
  pub subject : String
  pub tenant : String
  pub is_user : Bool

pub record FileTransferParams : Type 0 where
  pub tenant_id : String
  pub user_id : String
  pub session_id : String
  pub device : Device

-- The parameters that a user gets for a device.
abbrev pub params_for : Identity → Device → String → FileTransferParams
params_for i d s = record { tenant_id = i.tenant; user_id = i.subject; session_id = s; device = d }

-- A message that is published: on which subject, and with which session in its header.
pub record Sent : Type 0 where
  pub subject : String
  pub session_id : String
  pub packet : Packet

-- `deviceTopic` and `sessionTopic`
abbrev pub device_topic : FileTransferParams → String
device_topic p = device_subject p.tenant_id p.device.id

abbrev pub session_topic : FileTransferParams → String
session_topic p = session_subject p.tenant_id p.session_id

abbrev pub publish : FileTransferParams → Packet → Sent
publish p m = record { subject = device_topic p; session_id = p.session_id; packet = m }

abbrev pub publish_all : FileTransferParams → List Packet → List Sent
publish_all p [] = []
publish_all p (m ∷ ms) = publish p m ∷ publish_all p ms

-- The parameters, or the status and the error.
pub data Params : Type 0 where
  params : FileTransferParams → Params
  refused : ℕ → Error → Params
  crashed : Params

abbrev pub missing_user_authentication : Error
missing_user_authentication = message "missing or non-user identity in the authorization headers"

-- `newFileTransferSessionID`
abbrev with_session : Identity → Device → Result String → Params
with_session id d (ok session) =
    params
      (record { tenant_id = id.tenant; user_id = id.subject; session_id = session; device = d })
with_session id d _ = refused 500 (message "failed to generate session ID")

-- The tests on what the app's `GetDevice` gave; `has_body` is
-- `c.Request.Method == GET || c.Request.Body != nil`.
abbrev with_device : Identity → Bool → Result String → Result Device → Params
with_device id has_body session (ok d) =
    if str_eq d.status device_status_connected
    then (if has_body
        then with_session id d session
        else refused 400 (message "missing request body"))
    else refused 409 device_not_connected
with_device id has_body session (err device_not_found) = refused 404 device_not_found
with_device id has_body session (err e) = refused 400 e
with_device id has_body session panic = crashed

module _ (c : Collection Device) where
  open c use {Db, docs}

  abbrev for_identity : Option Identity → String → Bool → Result String → Db → Params
  for_identity none device_id has_body session db = refused 401 missing_user_authentication
  for_identity (some id) device_id has_body session db =
      if id.is_user
      then with_device id has_body session (known_device (get_device c id.tenant device_id db))
      else refused 401 missing_user_authentication

  unfoldable pub get_file_transfer_params :
      Option Identity → String → Bool → Result String → Db → Params
  unfolding get_device
  get_file_transfer_params id device_id has_body session db =
      for_identity id device_id has_body session db

-- `errors.As(err, &statusError)`: the status of the outermost error that has one.
abbrev pub status_of : Error → Option ℕ
status_of (with_status e code) = some code
status_of (wrap e text) = status_of e
status_of file_transfer_timeout = some 408
status_of file_transfer_failed = some 400
status_of file_transfer_not_implemented = some 502
status_of file_transfer_disabled = some 502
status_of e = none

-- The text of an answer: that of the error, or a general one.
pub data Text : Type 0 where
  of_error : Error → Text
  internal_error : Text

-- `handleResponseError`: nothing is answered where the response was begun.
unfoldable pub handle_response_error : Bool → Error → Option (ℕ × Text)
handle_response_error true e = none
handle_response_error false e =
    let code : ℕ = elim (status_of e) [ some n ↦ n | none ↦ 500 ] in
    some (code, (if leb 500 code then internal_error else of_error e))

abbrev Granted : Identity → Result String → Result Device → FileTransferParams → Type 0
Granted i session x p =
    (p.user_id ≡ i.subject)
    × (p.tenant_id ≡ i.tenant)
    × (x ≡ ok p.device)
    × (p.device.status ≡ device_status_connected)
    × (session ≡ ok p.session_id)

session-Granted :
    (i : Identity) (d : Device) (session : Result String) (p : FileTransferParams)
    → d.status ≡ device_status_connected
    → with_session i d session ≡ params p
    → Granted i session (ok d) p
session-Granted i d (ok x) p c h = ground arith
session-Granted i d (err e) p c h = absurd cc
session-Granted i d panic p c h = absurd cc

device-Granted :
    (i : Identity) (has_body : Bool) (session : Result String) (x : Result Device)
    (p : FileTransferParams)
    → with_device i has_body session x ≡ params p
    → Granted i session x p
device-Granted i has_body session (ok d) p =
    if_elim (λ r. r ≡ params p → Granted i session (ok d) p)
      (str_eq d.status device_status_connected) _ (refused 409 device_not_connected)
      (λ connected.
        if_elim (λ r. r ≡ params p → Granted i session (ok d) p) has_body (with_session i d session)
          (refused 400 (message "missing request body"))
          (λ _ h.
            session-Granted i d session p
              ((str_eq_iff d.status device_status_connected).0 connected) h)
          (λ _ h. absurd cc))
      (λ _ h. absurd cc)
device-Granted i has_body session (err device_not_found) p = λ h. absurd cc
device-Granted i has_body session (err e) p = λ h. absurd cc
device-Granted i has_body session panic p = λ h. absurd cc

pub known_device-found :
    (c : Collection Device) (tenant device_id : String) (db : c.Db) (d : Device)
    → known_device (get_device c tenant device_id db) ≡ ok d
    → first (is_device tenant device_id) (c.docs db) ≡ some d
unfolding get_device
known_device-found c tenant device_id db d =
    by_result (c.find_one (is_device tenant device_id) db) refl
  where
    by_result :
        (r : Found Device)
        → c.find_one (is_device tenant device_id) db ≡ r
        → known_device (elim r as (λ _. Result (Option Device)) [
          | found x ↦ ok (some x)
          | no_documents ↦ ok none
          | failed e ↦ err e
        ])
          ≡ ok d
        → first (is_device tenant device_id) (c.docs db) ≡ some d
    by_result (found x) e k = c.find_one_found (is_device tenant device_id) db d (e ∙ cc)
    by_result no_documents e k = cc
    by_result (failed x) e k = cc

pub params-params_for :
    (i : Identity) (p : FileTransferParams)
    → p.user_id ≡ i.subject
    → p.tenant_id ≡ i.tenant
    → p ≡ params_for i p.device p.session_id
params-params_for i p subject tenant = λ j. record {
  tenant_id = tenant j;
  user_id = subject j;
  session_id = p.session_id;
  device = p.device;
}

-- A request gets parameters only from a user, for a device that the user's own tenant has and that
-- is connected; the transfer is made in the name of that user.
pub get_file_transfer_params-params :
    (c : Collection Device) (id : Option Identity) (device_id : String) (has_body : Bool)
    (session : Result String) (db : c.Db) (p : FileTransferParams)
    → get_file_transfer_params c id device_id has_body session db ≡ params p
    → (i : Identity) × (id ≡ some i)
      × (i.is_user ≡ true)
      × (p.user_id ≡ i.subject)
      × (p.tenant_id ≡ i.tenant)
      × (first (is_device i.tenant device_id) (c.docs db) ≡ some p.device)
      × (p.device.status ≡ device_status_connected)
      × (session ≡ ok p.session_id)
unfolding get_file_transfer_params
get_file_transfer_params-params c none device_id has_body session db p = λ h. absurd cc
get_file_transfer_params-params c (some i) device_id has_body session db p =
    let x = known_device (get_device c i.tenant device_id db) in
    if_elim
      (λ r.
        r ≡ params p
        → (j : Identity) × (some i ≡ some j)
          × (j.is_user ≡ true)
          × (p.user_id ≡ j.subject)
          × (p.tenant_id ≡ j.tenant)
          × (first (is_device j.tenant device_id) (c.docs db) ≡ some p.device)
          × (p.device.status ≡ device_status_connected)
          × (session ≡ ok p.session_id))
      i.is_user (with_device i has_body session x) (refused 401 missing_user_authentication)
      (λ user h.
        let (subject, tenant, there, connected, named) = device-Granted i has_body session x p h in
        (
          i,
          refl,
          user,
          subject,
          tenant,
          known_device-found c i.tenant device_id db p.device there,
          connected,
          named,
        ))
      (λ _ h. absurd cc)
