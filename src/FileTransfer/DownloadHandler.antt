-- ===== src/FileTransfer/DownloadHandler.antt =====
-- api/http/management_filetransfer.go: `DownloadFile` and `downloadFileResponse`, from the request to
-- the end of the response. How the calls to the network end is the input.
pub mod Closing
pub mod Guards
pub mod Subjects
use deviceconnect.Prelude.{
  ℕ, String, List, [], ◌∷◌, ◌++◌, Option, none, some, Bool, true, false, not, ◌&&◌, str_eq,
  starts_with, if◌then◌else◌,
}
use deviceconnect.Errors.{Error, Result, ok, err, panic, message, wrap, with_status}
use deviceconnect.Protocol.{Proto, close_session, stat, int64}
use deviceconnect.Store.Collection.{Collection}
use deviceconnect.Store.Devices.{Device}
use deviceconnect.App.{Submit, submit_file_transfer_auditlog}
use deviceconnect.Workflows.{Action}
use deviceconnect.FileTransfer.Messages.{Packet, Sending, DeviceError, transfer_message}
use deviceconnect.FileTransfer.Open.{
  Answer, Opening, control_message, file_transfer_handshake, stat_file,
}
use deviceconnect.FileTransfer.Download.{
  Event, Status, running, returned, crashed, Download, download_file,
}
use deviceconnect.FileTransfer.Requests.{
  Identity, FileTransferParams, Sent, session_topic, publish, publish_all, Params, params, refused,
  get_file_transfer_params, Text, handle_response_error,
}

-- `wsft.FileInfo`, as far as it is looked at.
pub record FileInfo : Type 0 where
  pub path : Option String
  pub uid : Option ℕ
  pub gid : Option ℕ
  pub mode : Option ℕ
  pub size : Option ℕ

-- The value of a header: a text, or a number that is printed in base 10 (`%d`) or 8 (`%o`).
pub data HeaderValue : Type 0 where
  plain attachment : String → HeaderValue
  decimal octal : ℕ → HeaderValue

abbrev pub Headers : Type 0
Headers = List (String × HeaderValue)

-- A header that is added where its value is there.
abbrev pub add_header : String → (ℕ → HeaderValue) → Option ℕ → Headers
add_header name f none = []
add_header name f (some n) = (name, f n) ∷ []

-- `path.Base` is given.
abbrev pub path_headers : (String → String) → Option String → Headers
path_headers base none = []
path_headers base (some path) =
    ("Content-Disposition", attachment (base path)) ∷ ("X-MEN-File-Path", plain path) ∷ []

-- `writeHeaders`
unfoldable pub write_headers : (String → String) → FileInfo → Headers
write_headers base i =
    (("Content-Type", plain "application/octet-stream") ∷ path_headers base i.path)
    ++ (add_header "X-MEN-File-UID" decimal i.uid
        ++ (add_header "X-MEN-File-GID" decimal i.gid
            ++ (add_header "X-MEN-File-Mode" octal i.mode
                ++ add_header "X-MEN-File-Size" decimal i.size)))

-- What the network gives to `downloadFileResponse`, and how its calls end.
pub record Network : Type 0 where
  -- of the subscription to a subject
  pub subscribed : String → Option Error
  pub versions : List ℕ
  pub opening : Sending
  pub opening_answer : Answer
  pub stat_sending : Sending
  pub stat_answer : Answer
  pub requested : Sending
  pub events : List Event

-- What the function has done: the error that it answered with, the headers, the bytes of the file,
-- and the messages for the device. A response that waits has not returned yet.
pub record Response : Type 0 where
  pub replies : List (ℕ × Text)
  pub headers : Option Headers
  pub written : List ℕ
  pub sent : List Sent
  pub waiting : Bool
  pub panicked : Bool

-- What is taken from the packages that the function calls: the packing of the two requests for a
-- path, the unpacking of bodies, `path.Base`,
-- `os.FileMode.IsRegular`, and whether the response was begun (`c.Writer.Written()`).
pub record Library : Type 0 where
  pub pack_stat : String → List ℕ
  pub pack_get : String → List ℕ
  pub unpack_accept : Option (List ℕ) → Result (List Proto)
  pub unpack_handshake_error : Packet → DeviceError
  pub unpack_stat : Option (List ℕ) → Result FileInfo
  pub unpack_stat_error : Option (List ℕ) → DeviceError
  pub unpack_error : Option (List ℕ) → Result DeviceError
  pub unpack_info : Option (List ℕ) → Result ℕ
  pub base : String → String
  pub is_regular : ℕ → Bool
  pub begun : Download → Bool

abbrev pub new_response : Response
new_response = record {
  replies = [];
  headers = none;
  written = [];
  sent = [];
  waiting = false;
  panicked = false;
}

abbrev pub reply : Bool → Error → Response → Response
reply begun e r = elim (handle_response_error begun e) [
  | none ↦ r
  | some answer ↦ record r { replies = r.replies ++ (answer ∷ []) }
]

-- The deferred message that closes the session.
abbrev pub closing : FileTransferParams → Response → Response
closing p r = record r { sent = r.sent ++ (publish p (control_message close_session none) ∷ []) }

abbrev pub not_regular : Error
not_regular = with_status (message "path is not a regular file") 400

module _ (lib : Library) (n : Network) (is_head : Bool) (p : FileTransferParams)
    (path : String) where
  abbrev pub has_regular_mode : Option ℕ → Bool
  has_regular_mode none = false
  has_regular_mode (some mode) = lib.is_regular mode

  -- `h.downloadFile(...)` and what follows it.
  abbrev pub finish_transfer : Response → Download → Status → Response
  finish_transfer r d running = record r {
    written = d.written;
    sent = r.sent ++ publish_all p d.sent;
    waiting = true;
  }
  finish_transfer r d (returned none) =
      closing p (record r { written = d.written; sent = r.sent ++ publish_all p d.sent })
  finish_transfer r d (returned (some e)) = closing p (
      reply (lib.begun d) e
        (record r { written = d.written; sent = r.sent ++ publish_all p d.sent }))
  finish_transfer r d crashed =
      closing p
        (record r { written = d.written; sent = r.sent ++ publish_all p d.sent; panicked = true })

  -- The transfer of the file, once the headers are written.
  abbrev pub transfer : Download
  transfer =
      download_file lib.unpack_error lib.unpack_info p.session_id p.user_id (lib.pack_get path)
        n.requested n.events

  abbrev pub with_headers : Response → FileInfo → Response
  with_headers r info =
      let r' = record r { headers = some (write_headers lib.base info) } in
      if is_head then closing p r' else finish_transfer r' transfer transfer.status

  abbrev pub answer_info : Response → Result FileInfo → Response
  answer_info r (ok info) =
      if has_regular_mode info.mode
      then with_headers r info
      else closing p (reply false not_regular r)
  answer_info r (err e) = closing p (reply false (wrap e "failed to retrieve file info") r)
  answer_info r panic = closing p (record r { panicked = true })

  abbrev pub stat_message : Sent
  stat_message =
      publish p (transfer_message p.session_id p.user_id stat (some (lib.pack_stat path)) (int64 0))

  abbrev pub stat_result : Result FileInfo
  stat_result = stat_file lib.unpack_stat lib.unpack_stat_error n.stat_sending n.stat_answer

  abbrev pub after_handshake : Opening → Response
  after_handshake (some e, sent) = reply false e (record new_response { sent = publish_all p sent })
  after_handshake (none, sent) =
      answer_info (record new_response { sent = publish_all p sent ++ (stat_message ∷ []) })
        stat_result

  abbrev pub handshake : Opening
  handshake =
      file_transfer_handshake lib.unpack_accept lib.unpack_handshake_error n.versions n.opening
        n.opening_answer

  -- `downloadFileResponse`
  unfoldable pub download_file_response : Response
  unfolding handle_response_error transfer_message file_transfer_handshake stat_file download_file
  download_file_response = elim (n.subscribed (session_topic p)) [
    | some e ↦ reply false (wrap e "failed to subscribe to the mesages") new_response
    | none ↦ after_handshake handshake
  ]

-- What `DownloadFile` does: an answer by its own, or that of `downloadFileResponse`.
pub data Handled : Type 0 where
  answered : ℕ → Error → Handled
  served : Response → Handled
  aborted : Handled

abbrev pub bad_path : Error
bad_path = wrap Error.validation_errors "bad request"

module _ (c : Collection Device) (have_audit_logs : Bool) (submit : Submit) (now : ℕ)
    (lib : Library) (n : Network) (is_head : Bool) where
  -- `DownloadFileRequest.Validate`: the path is required and matches `^/`.
  abbrev pub is_valid_path : String → Bool
  is_valid_path path = not (str_eq path "") && starts_with path "/"

  abbrev pub after_audit : FileTransferParams → String → Option Error → Handled
  after_audit p path (some e) = answered 500 (wrap e "bad request")
  after_audit p path none = served (download_file_response lib n is_head p path)

  abbrev pub for_params : String → Params → Handled
  for_params path (params p) =
      if is_valid_path path
      then after_audit p path (
          submit_file_transfer_auditlog have_audit_logs submit now p.user_id p.device.id path
            Action.download_file "User downloaded a file from the device")
      else answered 400 bad_path
  for_params path (refused status e) = answered status e
  for_params path Params.crashed = aborted

  -- `DownloadFile`
  unfoldable pub download_file_handler :
      Option Identity → String → Bool → Result String → String → c.Db → Handled
  unfolding get_file_transfer_params submit_file_transfer_auditlog download_file_response
  download_file_handler id device_id has_body session path db =
      for_params path (get_file_transfer_params c id device_id has_body session db)
