-- ===== src/FileTransfer/UploadHandler.antt =====
-- api/http/management_filetransfer.go: `UploadFile` and `uploadFileResponse`, from the request to the
-- end of the response. How the calls to the network end is the input.
pub mod Form
pub mod Answers
pub mod Guards
use deviceconnect.Prelude.{
  ℕ, String, List, [], ◌∷◌, ◌++◌, Option, none, some, Bool, true, false, not, ◌&&◌, str_eq, ltb,
  if◌then◌else◌,
}
use deviceconnect.Errors.{
  Error, Result, ok, err, panic, message, wrap, with_status, file_transfer_timeout,
  file_transfer_not_implemented, file_transfer_disabled,
}
use deviceconnect.Protocol.{Proto, MsgType, close_session, put, error, int64}
use deviceconnect.Store.Collection.{Collection}
use deviceconnect.Store.Devices.{Device}
use deviceconnect.App.{Submit, submit_file_transfer_auditlog}
use deviceconnect.Workflows.{Action}
use deviceconnect.FileTransfer.Messages.{
  Packet, Sending, sent_result, Body, error_body, DeviceError, transfer_message, decode_message,
}
use deviceconnect.FileTransfer.Open.{Answer, Opening, control_message, file_transfer_handshake}
use deviceconnect.FileTransfer.Upload.{
  Round, Status, reading, draining, created, refused, Upload, upload_file,
}
use deviceconnect.FileTransfer.Requests.{
  Identity, FileTransferParams, Sent, session_topic, publish, publish_all, Params, params,
  get_file_transfer_params, status_of,
}

-- The device's answer to the request of an upload, within the timeout or not.
pub data PutAnswer : Type 0 where
  silent : PutAnswer
  answer : Result Packet → PutAnswer

pub record Network : Type 0 where
  -- of the subscription to a subject
  pub subscribed : String → Option Error
  pub versions : List ℕ
  pub opening : Sending
  pub opening_answer : Answer
  pub put_request : List ℕ
  pub put_sending : Sending
  pub put_answer : PutAnswer
  pub rounds : List Round
  pub acks : List (Option ℕ)

-- The packages' functions that unpack bodies.
pub record Library : Type 0 where
  pub unpack_accept : Option (List ℕ) → Result (List Proto)
  pub unpack_handshake_error : Packet → DeviceError
  pub unpack_error : Option (List ℕ) → Result DeviceError
  pub unpack_info : Option (List ℕ) → Result ℕ

-- What the function has done. A response that waits has not returned yet.
pub record Response : Type 0 where
  pub reply : Option (ℕ × Error)
  pub is_created : Bool
  pub sent : List Sent
  pub waiting : Bool
  pub panicked : Bool

abbrev pub new_response : Response
new_response = record {
  reply = none;
  is_created = false;
  sent = [];
  waiting = false;
  panicked = false;
}

-- The deferred answer: the status of the error itself goes before `errorStatusCode`.
abbrev pub respond : ℕ → Error → Response → Response
respond status e r =
    let code : ℕ = elim (status_of e) [ some n ↦ n | none ↦ status ] in
    record r { reply = some (code, e) }

abbrev pub closing : FileTransferParams → Response → Response
closing p r = record r { sent = r.sent ++ (publish p (control_message close_session none) ∷ []) }

-- `errorStatusCode` for an error of the handshake.
abbrev pub handshake_status : Error → ℕ
handshake_status file_transfer_timeout = 408
handshake_status file_transfer_not_implemented = 502
handshake_status file_transfer_disabled = 502
handshake_status e = 500

module _ (lib : Library) (n : Network) (p : FileTransferParams) where
  -- `uploadFileResponseWriter`, after which the session is closed.
  abbrev pub finish_upload : Response → Upload → Status → Response
  finish_upload r u created =
      closing p (record r { is_created = true; sent = r.sent ++ publish_all p u.sent })
  finish_upload r u (refused status e) =
      closing p (respond status e (record r { sent = r.sent ++ publish_all p u.sent }))
  finish_upload r u _ = record r { sent = r.sent ++ publish_all p u.sent; waiting = true }

  abbrev pub upload : Upload
  upload = upload_file p.session_id p.user_id n.rounds n.acks

  -- `errorMsg.Code` where it is positive
  abbrev pub refusal : DeviceError → Error
  refusal e = with_status (message e.text) (if ltb 0 e.code then e.code else 400)

  -- The `switch` on the type of the answer: every other message lets the upload begin.
  abbrev pub answered : Response → MsgType → Body → Response
  answered r error (error_body e) = closing p (respond 500 (refusal e) r)
  -- `msgBody.(*ws.Error)` of another body
  answered r error _ = closing p (record r { panicked = true })
  answered r _ b = finish_upload r upload upload.status

  abbrev pub decoded : Response → Result (Packet × Body) → Response
  decoded r (ok (m, b)) = answered r m.msg_type b
  decoded r (err e) = closing p (respond 500 e r)
  decoded r panic = closing p (record r { panicked = true })

  abbrev pub put_answered : Response → PutAnswer → Response
  put_answered r silent = closing p (respond 408 file_transfer_timeout r)
  put_answered r (answer m) = decoded r (decode_message lib.unpack_error lib.unpack_info m)

  abbrev pub put_message : Sent
  put_message =
      publish p (transfer_message p.session_id p.user_id put (some n.put_request) (int64 0))

  abbrev pub put_sent : Response → Option Error → Response
  put_sent r (some e) = closing p (respond 500 e r)
  put_sent r none = put_answered r n.put_answer

  abbrev pub after_handshake : Opening → Response
  after_handshake (some e, sent) =
      respond (handshake_status e) e (record new_response { sent = publish_all p sent })
  after_handshake (none, sent) =
      put_sent (record new_response { sent = publish_all p sent ++ (put_message ∷ []) })
        (sent_result n.put_sending)

  abbrev pub handshake : Opening
  handshake =
      file_transfer_handshake lib.unpack_accept lib.unpack_handshake_error n.versions n.opening
        n.opening_answer

  -- `uploadFileResponse`
  unfoldable pub upload_file_response : Response
  unfolding file_transfer_handshake transfer_message sent_result decode_message upload_file
  upload_file_response = elim (n.subscribed (session_topic p)) [
    | some e ↦ respond 500 (wrap e "failed to subscribe to the mesages") new_response
    | none ↦ after_handshake handshake
  ]
