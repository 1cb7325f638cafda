-- ===== src/FileTransfer/DownloadHandler/Guards.antt =====
-- api/http/management_filetransfer.go: what has to hold before a device hears of a download, and
-- before a file's bytes are answered.
use deviceconnect.Prelude.{
  ℕ, String, starts_with, [], ◌∷◌, ◌++◌, Option, none, some, Bool, true, false, str_eq_iff,
  if◌then◌else◌, if_elim, ◌≡◌, ◌≢◌, ◌⊎◌, inl, inr, refl, ap, ◌∙◌, arith,
}
use mathlib.Core.Path.{subst}
use deviceconnect.Errors.{Error, Result, ok, err, panic, wrap}
use deviceconnect.Store.Collection.{Collection, first}
use deviceconnect.Store.Devices.{Device, is_device, device_status_connected}
use deviceconnect.Workflows.{Action, AuditLog}
use deviceconnect.App.{Submit, submit_file_transfer_auditlog}
use deviceconnect.App.FileTransfers.{
  transfer_entry, submit_file_transfer_auditlog-none, audited_or_off,
}
use deviceconnect.Subject.{device_subject}
use deviceconnect.FileTransfer.DownloadHandler.Subjects.{AreTo, download_file_response-AreOwn}
use deviceconnect.FileTransfer.Open.{Opening}
use deviceconnect.FileTransfer.Download.{Status, running, returned, crashed, Download}
use deviceconnect.FileTransfer.Requests.{
  params-params_for, session_topic, publish_all, params_for, Identity, FileTransferParams, Params,
  params, refused, get_file_transfer_params, get_file_transfer_params-params, handle_response_error,
}
use deviceconnect.FileTransfer.DownloadHandler.{
  FileInfo, write_headers, Network, Response, Library, new_response, reply, closing, not_regular,
  has_regular_mode, finish_transfer, transfer, with_headers, answer_info, stat_result, stat_message,
  after_handshake, handshake, download_file_response, Handled, answered, served, is_valid_path,
  after_audit, for_params, download_file_handler, bad_path,
}

reply-written : (begun : Bool) (e : Error) (r : Response) → (reply begun e r).written ≡ r.written
unfolding handle_response_error
reply-written true e r = refl
reply-written false e r = refl

reply-headers : (begun : Bool) (e : Error) (r : Response) → (reply begun e r).headers ≡ r.headers
unfolding handle_response_error
reply-headers true e r = refl
reply-headers false e r = refl

module _ (lib : Library) (n : Network) (is_head : Bool) (p : FileTransferParams)
    (path : String) where
  -- What was answered of a file.
  abbrev IsAnswered : Response → Type 0
  IsAnswered r =
      ((r.headers ≡ none) × (r.written ≡ []))
      ⊎ ((info : FileInfo) × (stat_result lib n is_head p path ≡ ok info)
          × (has_regular_mode lib n is_head p path info.mode ≡ true)
          × (r.headers ≡ some (write_headers lib.base info))
          × (r.written ≡ (if is_head then [] else (transfer lib n is_head p path).written)))

  finish_transfer-answered :
      (r : Response) (d : Download) (s : Status)
      → ((finish_transfer lib n is_head p path r d s).headers ≡ r.headers)
        × ((finish_transfer lib n is_head p path r d s).written ≡ d.written)
  finish_transfer-answered r d running = (refl, refl)
  finish_transfer-answered r d (returned none) = (refl, refl)
  finish_transfer-answered r d (returned (some e)) =
      (reply-headers (lib.begun d) e _, reply-written (lib.begun d) e _)
  finish_transfer-answered r d crashed = (refl, refl)

  answer_info-IsAnswered :
      (r : Response) (x : Result FileInfo)
      → stat_result lib n is_head p path ≡ x
      → r.headers ≡ none
      → r.written ≡ []
      → IsAnswered (answer_info lib n is_head p path r x)
  answer_info-IsAnswered r (ok info) e h w =
      if_elim IsAnswered (has_regular_mode lib n is_head p path info.mode)
        (with_headers lib n is_head p path r info) (closing p (reply false not_regular r))
        (λ regular. let (a, b) = by_method is_head in inr (info, e, regular, a, b))
        (λ _. inl (reply-headers false not_regular r ∙ h, reply-written false not_regular r ∙ w))
    where
      d : Download
      d = transfer lib n is_head p path

      headers' : Response
      headers' = record r { headers = some (write_headers lib.base info) }

      by_method :
          (b : Bool)
          → let q : Response =
              if b
              then closing p headers'
              else finish_transfer lib n is_head p path headers' d d.status in
            (q.headers ≡ some (write_headers lib.base info))
            × (q.written ≡ (if b then [] else d.written))
      by_method true = (refl, w)
      by_method false = finish_transfer-answered headers' d d.status
  answer_info-IsAnswered r (err e) k h w =
      let x = wrap e "failed to retrieve file info" in
      inl (reply-headers false x r ∙ h, reply-written false x r ∙ w)
  answer_info-IsAnswered r panic k h w = inl (h, w)

  -- Headers and bytes are answered only for a file that the device described as a regular one: the
  -- headers are those of its description, and the bytes are those that the transfer wrote, or
  -- none for a HEAD request. Otherwise neither is answered.
  pub download_file_response-IsAnswered : IsAnswered (download_file_response lib n is_head p path)
  unfolding download_file_response
  download_file_response-IsAnswered = by_subscription (n.subscribed (session_topic p))
    where
      by_handshake : (o : Opening) → IsAnswered (after_handshake lib n is_head p path o)
      by_handshake (some e, sent) =
          let q : Response = record new_response { sent = publish_all p sent } in
          inl (reply-headers false e q, reply-written false e q)
      by_handshake (none, sent) =
          answer_info-IsAnswered
            (record new_response {
              sent = publish_all p sent ++ (stat_message lib n is_head p path ∷ []);
            })
            (stat_result lib n is_head p path) refl refl refl

      by_subscription :
          (x : Option Error)
          → IsAnswered (elim x as (λ _. Response) [
            | some e ↦ reply false (wrap e "failed to subscribe to the mesages") new_response
            | none ↦ after_handshake lib n is_head p path (handshake lib n is_head p path)
          ])
      by_subscription none = by_handshake (handshake lib n is_head p path)
      by_subscription (some e) =
          let x = wrap e "failed to subscribe to the mesages" in
          inl (reply-headers false x new_response, reply-written false x new_response)

-- The entry of the audit log for a download.
abbrev pub download_entry : ℕ → String → String → String → AuditLog
download_entry now user device path =
    transfer_entry now user device path Action.download_file
      "User downloaded a file from the device"

module _ (c : Collection Device) (have_audit_logs : Bool) (submit : Submit) (now : ℕ)
    (lib : Library) (n : Network) (is_head : Bool) where
  abbrev IsServed : String → FileTransferParams → Response → Handled → Type 0
  IsServed path p r h =
      h ≡ served r
      → (is_valid_path c have_audit_logs submit now lib n is_head path ≡ true)
        × (have_audit_logs ≡ true → submit (download_entry now p.user_id p.device.id path) ≡ none)
        × (r ≡ download_file_response lib n is_head p path)

  for_params-IsServed :
      (path : String) (p : FileTransferParams) (r : Response)
      → IsServed path p r (for_params c have_audit_logs submit now lib n is_head path (params p))
  for_params-IsServed path p r =
      if_elim (IsServed path p r) (is_valid_path c have_audit_logs submit now lib n is_head path)
        (after_audit c have_audit_logs submit now lib n is_head p path x) (answered 400 bad_path)
        (λ valid. by_audit x refl valid) (λ _ h. absurd cc)
    where
      x : Option Error
      x =
          submit_file_transfer_auditlog have_audit_logs submit now p.user_id p.device.id path
            Action.download_file "User downloaded a file from the device"

      by_audit :
          (y : Option Error)
          → x ≡ y
          → is_valid_path c have_audit_logs submit now lib n is_head path ≡ true
          → IsServed path p r (after_audit c have_audit_logs submit now lib n is_head p path y)
      by_audit (some e) k valid = λ h. absurd cc
      by_audit none k valid = λ h. (
        valid,
        submit_file_transfer_auditlog-none have_audit_logs submit now p.user_id p.device.id path
            Action.download_file "User downloaded a file from the device" k,
        cc,
      )

  -- A download is begun only for a user, from a connected device of the user's own tenant, with a path
  -- that is not empty and begins with a slash, and where there are audit logs only after its entry
  -- was accepted, which names the user, the device and the path. It is the response for that user,
  -- that device, the session that was generated and that path; all its messages go to the subject of
  -- that device in the user's tenant, under that session.
  pub download_file_handler-served :
      (id : Option Identity) (device_id : String) (has_body : Bool) (session : Result String)
      (path : String) (db : c.Db) (r : Response)
      → download_file_handler c have_audit_logs submit now lib n is_head id device_id has_body
          session path db
        ≡ served r
      → (i : Identity) × (d : Device) × (s : String) × (id ≡ some i)
        × (i.is_user ≡ true)
        × (first (is_device i.tenant device_id) (c.docs db) ≡ some d)
        × (d.status ≡ device_status_connected)
        × (path ≢ "")
        × (starts_with path "/" ≡ true)
        × ((have_audit_logs ≡ false) ⊎ (submit (download_entry now i.subject d.id path) ≡ none))
        × (session ≡ ok s)
        × AreTo (device_subject i.tenant d.id) s r.sent
        × (r ≡ download_file_response lib n is_head (params_for i d s) path)
  unfolding download_file_handler
  download_file_handler-served id device_id has_body session path db r =
      by_params (get_file_transfer_params c id device_id has_body session db) refl
    where
      by_params :
          (x : Params)
          → get_file_transfer_params c id device_id has_body session db ≡ x
          → for_params c have_audit_logs submit now lib n is_head path x ≡ served r
          → (i : Identity) × (d : Device) × (s : String) × (id ≡ some i)
            × (i.is_user ≡ true)
            × (first (is_device i.tenant device_id) (c.docs db) ≡ some d)
            × (d.status ≡ device_status_connected)
            × (path ≢ "")
            × (starts_with path "/" ≡ true)
            × ((have_audit_logs ≡ false) ⊎ (submit (download_entry now i.subject d.id path) ≡ none))
            × (session ≡ ok s)
            × AreTo (device_subject i.tenant d.id) s r.sent
            × (r ≡ download_file_response lib n is_head (params_for i d s) path)
      by_params (params p) e h =
          let (i, some_i, user, subject, tenant, there, connected, named) =
            get_file_transfer_params-params c id device_id has_body session db p e in
          let (valid, audited, same) = for_params-IsServed path p r h in
          let own = params-params_for i p subject tenant in
          (
            i,
            p.device,
            p.session_id,
            some_i,
            user,
            there,
            connected,
            ground (arith, valid, str_eq_iff path ""),
            ground (arith, valid),
            audited_or_off have_audit_logs (λ logs.
                subst (λ u. submit (download_entry now u p.device.id path) ≡ none) subject
                  (audited logs)),
            named,
            subst
                (λ (q : FileTransferParams).
                  AreTo (device_subject q.tenant_id q.device.id) q.session_id r.sent)
                own (rw same (download_file_response-AreOwn lib n is_head p path)),
            same ∙ ap (λ q. download_file_response lib n is_head q path) own,
          )
      by_params (refused status e) k h = absurd cc
      by_params Params.crashed k h = absurd cc
