-- ===== src/FileTransfer/UploadHandler/Guards.antt =====
-- api/http/management_filetransfer.go: `UploadFile`, and what has to hold before a device hears of an
-- upload.
use deviceconnect.Prelude.{
  ℕ, String, List, Option, none, some, Bool, true, false, not, ◌&&◌, str_eq, starts_with,
  str_eq_iff, if◌then◌else◌, if_elim, ◌≡◌, ◌≢◌, ◌⊎◌, refl, ap, ◌∙◌, arith,
}
use mathlib.Core.Path.{subst}
use deviceconnect.Errors.{Error, Result, ok, err, panic, wrap}
use deviceconnect.Store.Collection.{Collection, first}
use deviceconnect.Store.Devices.{Device, is_device, device_status_connected}
use deviceconnect.Workflows.{Action, AuditLog}
use deviceconnect.App.{Submit, submit_file_transfer_auditlog}
use deviceconnect.App.FileTransfers.{
  transfer_entry, submit_file_transfer_auditlog-none, audited_or_off,
}
use deviceconnect.FileTransfer.Requests.{
  params_for, params-params_for, Identity, FileTransferParams, Params, params, refused,
  get_file_transfer_params, get_file_transfer_params-params,
}
use deviceconnect.FileTransfer.UploadHandler.{Network, Response, Library, upload_file_response}
use deviceconnect.FileTransfer.UploadHandler.Form.{
  ℤ, NextPart, UploadFileRequest, parse_upload_file_request, is_valid_upload,
}

-- What `UploadFile` does: an answer by its own, or that of `uploadFileResponse`. The chunks come
-- from the file of the request.
pub data Handled : Type 0 where
  answered : ℕ → Error → Handled
  served : UploadFileRequest → Response → Handled
  aborted : Handled

abbrev pub path_of : UploadFileRequest → String
path_of r = elim r.path [ some path ↦ path | none ↦ "" ]

-- The entry of the audit log for an upload.
abbrev pub upload_entry : ℕ → String → String → String → AuditLog
upload_entry now user device path =
    transfer_entry now user device path Action.upload_file "User uploaded a file to the device"

is_valid_upload-path :
    (r : UploadFileRequest)
    → is_valid_upload r ≡ true
    → (r.has_file ≡ true)
      × ((path : String) × (r.path ≡ some path)
          × (path ≢ "")
          × (starts_with path "/" ≡ true)
          × (path_of r ≡ path))
is_valid_upload-path r = by_path r.path refl
  where
    by_path :
        (x : Option String)
        → r.path ≡ x
        → (elim x as (λ _. Bool) [
          | some path ↦ not (str_eq path "") && starts_with path "/"
          | none ↦ false
        ]
            && r.has_file)
          ≡ true
        → (r.has_file ≡ true)
          × ((path : String) × (r.path ≡ some path)
              × (path ≢ "")
              × (starts_with path "/" ≡ true)
              × (path_of r ≡ path))
    by_path none e h = absurd cc
    by_path (some path) e h = (
      ground (arith, h),
      (
        path,
        e,
        ground (arith, h, str_eq_iff path ""),
        ground (arith, h),
        ap (λ x. let q : String = elim x as (λ _. String) [ some y ↦ y | none ↦ "" ] in q) e,
      ),
    )

module _ (c : Collection Device) (have_audit_logs : Bool) (submit : Submit) (now : ℕ)
    (lib : Library) (network : UploadFileRequest → Network) where
  abbrev pub after_audit : FileTransferParams → UploadFileRequest → Option Error → Handled
  after_audit p r (some e) = answered 500 (wrap e "bad request")
  after_audit p r none = served r (upload_file_response lib (network r) p)

  abbrev pub for_request : FileTransferParams → Result UploadFileRequest → Handled
  for_request p (ok r) =
      if is_valid_upload r
      then after_audit p r (
          submit_file_transfer_auditlog have_audit_logs submit now p.user_id p.device.id (path_of r)
            Action.upload_file "User uploaded a file to the device")
      else answered 400 (wrap Error.validation_errors "bad request")
  for_request p (err e) = answered 400 e
  for_request p panic = aborted

  abbrev pub for_params : Result UploadFileRequest → Params → Handled
  for_params request (params p) = for_request p request
  for_params request (refused status e) = answered status e
  for_params request Params.crashed = aborted

  -- `UploadFile`
  unfoldable pub upload_file_handler :
      (String → Result ℤ)
      → (String → Result ℕ)
      → Option Identity
      → String
      → Bool
      → Result String
      → Result (List NextPart)
      → c.Db
      → Handled
  unfolding get_file_transfer_params submit_file_transfer_auditlog parse_upload_file_request
      upload_file_response
  upload_file_handler atoi parse_octal id device_id has_body session reader db =
      for_params (parse_upload_file_request atoi parse_octal reader)
        (get_file_transfer_params c id device_id has_body session db)

  abbrev IsServed :
      FileTransferParams
      → UploadFileRequest
      → Response
      → Result UploadFileRequest
      → Handled
      → Type 0
  IsServed p r response x h =
      h ≡ served r response
      → (x ≡ ok r)
        × (is_valid_upload r ≡ true)
        × (have_audit_logs ≡ true
            → submit (upload_entry now p.user_id p.device.id (path_of r)) ≡ none)
        × (response ≡ upload_file_response lib (network r) p)

  for_request-IsServed :
      (p : FileTransferParams) (x : Result UploadFileRequest) (r : UploadFileRequest)
      (response : Response)
      → IsServed p r response x (for_request p x)
  for_request-IsServed p (ok q) r response =
      if_elim (IsServed p r response (ok q)) (is_valid_upload q) (after_audit p q audit)
        (answered 400 (wrap Error.validation_errors "bad request"))
        (λ valid. by_audit audit refl valid) (λ _ h. absurd cc)
    where
      audit : Option Error
      audit =
          submit_file_transfer_auditlog have_audit_logs submit now p.user_id p.device.id (path_of q)
            Action.upload_file "User uploaded a file to the device"

      by_audit :
          (y : Option Error)
          → audit ≡ y
          → is_valid_upload q ≡ true
          → IsServed p r response (ok q) (after_audit p q y)
      by_audit (some e) k valid = λ h. absurd cc
      by_audit none k valid = λ h.
          let same : q ≡ r = cc in
          (
            ap ok same,
            subst (λ z. is_valid_upload z ≡ true) same valid,
            λ logs.
                subst (λ z. submit (upload_entry now p.user_id p.device.id (path_of z)) ≡ none) same
                  (submit_file_transfer_auditlog-none have_audit_logs submit now p.user_id
                    p.device.id (path_of q) Action.upload_file "User uploaded a file to the device"
                    k logs),
            cc,
          )
  for_request-IsServed p (err e) r response = λ h. absurd cc
  for_request-IsServed p panic r response = λ h. absurd cc

  -- An upload is begun only for a user, to a connected device of the user's own tenant, with a form
  -- that could be parsed and has a file and an absolute path, and where there are audit logs only
  -- after its entry was accepted, which names the user, the device and the path; it is the
  -- response for that user, that device and the session that was generated.
  pub upload_file_handler-served :
      (atoi : String → Result ℤ) (parse_octal : String → Result ℕ) (id : Option Identity)
      (device_id : String) (has_body : Bool) (session : Result String)
      (reader : Result (List NextPart)) (db : c.Db) (r : UploadFileRequest) (response : Response)
      → upload_file_handler atoi parse_octal id device_id has_body session reader db
        ≡ served r response
      → (i : Identity) × (d : Device) × (s : String) × (id ≡ some i)
        × (i.is_user ≡ true)
        × (first (is_device i.tenant device_id) (c.docs db) ≡ some d)
        × (d.status ≡ device_status_connected)
        × (parse_upload_file_request atoi parse_octal reader ≡ ok r)
        × (r.has_file ≡ true)
        × ((path : String) × (r.path ≡ some path)
            × (path ≢ "")
            × (starts_with path "/" ≡ true)
            × ((have_audit_logs ≡ false) ⊎ (submit (upload_entry now i.subject d.id path) ≡ none)))
        × (response ≡ upload_file_response lib (network r) (params_for i d s))
  unfolding upload_file_handler
  upload_file_handler-served atoi parse_octal id device_id has_body session reader db r response =
      by_params (get_file_transfer_params c id device_id has_body session db) refl
    where
      request : Result UploadFileRequest
      request = parse_upload_file_request atoi parse_octal reader

      by_params :
          (x : Params)
          → get_file_transfer_params c id device_id has_body session db ≡ x
          → for_params request x ≡ served r response
          → (i : Identity) × (d : Device) × (s : String) × (id ≡ some i)
            × (i.is_user ≡ true)
            × (first (is_device i.tenant device_id) (c.docs db) ≡ some d)
            × (d.status ≡ device_status_connected)
            × (request ≡ ok r)
            × (r.has_file ≡ true)
            × ((path : String) × (r.path ≡ some path)
                × (path ≢ "")
                × (starts_with path "/" ≡ true)
                × ((have_audit_logs ≡ false)
                    ⊎ (submit (upload_entry now i.subject d.id path) ≡ none)))
            × (response ≡ upload_file_response lib (network r) (params_for i d s))
      by_params (params p) e h =
          let (i, some_i, user, subject, tenant, there, connected, named) =
            get_file_transfer_params-params c id device_id has_body session db p e in
          let (parsed, valid, audited, same) = for_request-IsServed p request r response h in
          let (has_file, (path, is_path, nonempty, absolute, is_it)) =
            is_valid_upload-path r valid in
          (
            i,
            p.device,
            p.session_id,
            some_i,
            user,
            there,
            connected,
            parsed,
            has_file,
            (
              path,
              is_path,
              nonempty,
              absolute,
              audited_or_off have_audit_logs (λ logs.
                  subst (λ q. submit (upload_entry now i.subject p.device.id q) ≡ none) is_it
                    (subst (λ u. submit (upload_entry now u p.device.id (path_of r)) ≡ none) subject
                      (audited logs))),
            ),
            same ∙ ap (upload_file_response lib (network r)) (params-params_for i p subject tenant),
          )
      by_params (refused status e) k h = absurd cc
      by_params Params.crashed k h = absurd cc
