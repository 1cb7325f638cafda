-- ===== src/FileTransfer/Upload.antt =====
-- api/http/management_filetransfer.go: `uploadFileResponseWriter`, which sends the chunks of a file
-- and waits for the device to acknowledge them, and `uploadFileResponseHandleInboundMessages`, which
-- reads the acknowledgements. The two run side by side: what the writer finds in the channels when
-- it looks into them is its input.
pub mod Created
pub mod Inbounds
use deviceconnect.Prelude.{
  ℕ, suc, ◌+◌, ◌*◌, String, List, [], ◌∷◌, ◌++◌, length, Option, none, some, Bool, true, false, ltb,
  ◌==◌, if◌then◌else◌,
}
use deviceconnect.Errors.{
  Error, Result, ok, err, panic, file_transfer_timeout, unexpected_eof, message,
}
use deviceconnect.Protocol.{MsgType, error, put, ack, chunk, ping, pong, int64, negative}
use deviceconnect.Recording.Stream.{is_failure}
use deviceconnect.FileTransfer.Messages.{
  Packet, Sending, sent_result, transfer_message, Body, error_body, DeviceError, device_error,
  prop_offset, decode_message,
}

abbrev pub file_transfer_buffer_size : ℕ
file_transfer_buffer_size = 4096

abbrev pub ack_sliding_window_recv : ℕ
ack_sliding_window_recv = 20

-- What the `select` of a round that is over the window finds.
pub data Waited : Type 0 where
  failed : Error → Waited
  acked : ℕ → Waited
  timed_out : Waited

-- A round: the bytes that `request.File.Read` gives and its error, how the publishing of the chunk
-- ends, what a wait gives if there is one, and what is in `errorChan` if there is none.
pub record Round : Type 0 where
  pub data_read : List ℕ
  pub read_error : Option Error
  pub sending : Sending
  pub waited : Waited
  pub polled : Option Error

pub data Status : Type 0 where
  reading : Status
  -- every chunk was sent, and the last acknowledgements are waited for
  draining : Status
  -- 201
  created : Status
  -- `errorStatusCode` and `responseError`
  refused : ℕ → Error → Status

pub record Upload : Type 0 where
  pub status : Status
  pub offset : ℕ
  pub latest_ack : ℕ
  pub sent : List Packet

abbrev pub malformed_body : Error
malformed_body = message "malformed request body: did not find closing multipart boundary"

-- The answer to a read that failed; the status is 500 where nothing sets it.
abbrev pub read_failed : Option Error → Upload → Upload
read_failed (some unexpected_eof) u = record u { status = refused 400 malformed_body }
read_failed (some e) u = record u { status = refused 500 e }
read_failed none u = u

module _ (session_id user_id : String) where
  abbrev pub chunk_message : Option (List ℕ) → ℕ → Packet
  chunk_message body offset = transfer_message session_id user_id chunk body (int64 offset)

  abbrev pub wait : Waited → Upload → Upload
  wait (failed e) u = record u { status = refused 400 e }
  wait (acked n) u = record u { latest_ack = n }
  wait timed_out u = record u { status = refused 408 file_transfer_timeout }

  abbrev pub poll : Option Error → Upload → Upload
  poll none u = u
  poll (some e) u = record u { status = refused 400 e }

  -- After a chunk was sent and the offset moved.
  abbrev pub window : Round → Upload → Upload
  window r u =
      if ltb (u.latest_ack + file_transfer_buffer_size * ack_sliding_window_recv) u.offset
      then wait r.waited u
      else poll r.polled u

  abbrev pub sent_chunk : Round → Option Error → Upload → Upload
  sent_chunk r (some e) u = record u {
    status = refused 500 e;
    sent = u.sent ++ (chunk_message (some r.data_read) u.offset ∷ []);
  }
  sent_chunk r none u = window r (record u {
    offset = u.offset + length r.data_read;
    sent = u.sent ++ (chunk_message (some r.data_read) u.offset ∷ []);
  })

  -- The end of the file: a chunk without a body.
  abbrev pub sent_last : Option Error → Upload → Upload
  sent_last (some e) u = record u {
    status = refused 500 e;
    sent = u.sent ++ (chunk_message none u.offset ∷ []);
  }
  sent_last none u = record u {
    status = draining;
    sent = u.sent ++ (chunk_message none u.offset ∷ []);
  }

  unfoldable pub upload_round : Upload → Round → Upload
  unfolding sent_result transfer_message
  upload_round u r =
      if is_failure r.read_error
      then read_failed r.read_error u
      else if length r.data_read == 0
      then sent_last (sent_result r.sending) u
      else sent_chunk r (sent_result r.sending) u

  -- The first loop of the writer.
  unfoldable pub upload_loop : Upload → List Round → Upload
  unfolding upload_round
  upload_loop u [] = u
  upload_loop u (r ∷ rounds) =
      let u' = upload_round u r in
      let rest = upload_loop u' rounds in elim u'.status [ reading ↦ rest | _ ↦ u' ]

  -- The second loop: `none` is a wait that timed out. With no wait left it has not returned.
  unfoldable pub drain : Upload → List (Option ℕ) → Upload
  drain u [] = if ltb u.latest_ack u.offset then u else record u { status = created }
  drain u (a ∷ acks) =
      let rest = λ (n : ℕ). drain (record u { latest_ack = n }) acks in
      if ltb u.latest_ack u.offset
      then elim a [
        | some n ↦ rest n
        | none ↦ record u { status = refused 408 file_transfer_timeout }
      ]
      else record u { status = created }

  -- `uploadFileResponseWriter`
  unfoldable pub upload_file : List Round → List (Option ℕ) → Upload
  unfolding upload_loop drain
  upload_file rounds acks =
      let u =
        upload_loop (record { status = reading; offset = 0; latest_ack = 0; sent = [] }) rounds in
      elim u.status [ draining ↦ drain u acks | _ ↦ u ]

-- The variables of the reader of the device's messages: the latest offset, the channel that holds
-- it for the writer, the errors and the answers that were sent.
pub record Inbound : Type 0 where
  pub latest_ack_offset : ℕ
  pub latest_ack_offsets : Option ℕ
  pub errors : List Error
  pub answers : List Packet
  pub done : Bool

module _ (unpack_error : Option (List ℕ) → Result DeviceError)
    (unpack_info : Option (List ℕ) → Result ℕ) (session_id user_id : String) where
  -- An ACK counts if its offset is beyond the latest; it takes the place of one not yet read.
  abbrev pub acknowledged : Option ℕ → Inbound → Inbound
  acknowledged none i = i
  acknowledged (some n) i =
      if ltb i.latest_ack_offset n
      then record i { latest_ack_offset = n; latest_ack_offsets = some n }
      else i

  abbrev pub answered : Option Error → Inbound → Inbound
  answered none i = record i {
    answers = i.answers ++ (transfer_message session_id user_id pong none negative ∷ []);
  }
  answered (some e) i = record i {
    answers = i.answers ++ (transfer_message session_id user_id pong none negative ∷ []);
    errors = i.errors ++ (e ∷ []);
  }

  abbrev pub inbound : MsgType → Packet × Body → Option Error → Inbound → Inbound
  inbound error (m, error_body e) failure i = record i {
    errors = i.errors ++ (device_error e 400 ∷ []);
    done = true;
  }
  -- `msgBody.(*ws.Error)` of another body cannot come: the decoding of an error gives an error body
  inbound error (m, _) failure i = record i { done = true }
  inbound ack (m, b) failure i = acknowledged (prop_offset m.properties) i
  inbound ping (m, b) failure i = answered failure i
  inbound _ (m, b) failure i = i

  -- One message, and how the publishing of a pong ends.
  unfoldable pub inbound_step : Inbound → Result Packet → Sending → Inbound
  unfolding sent_result decode_message transfer_message
  inbound_step i m sending = elim (decode_message unpack_error unpack_info m) [
    | ok (p, b) ↦ inbound p.msg_type (p, b) (sent_result sending) i
    | err e ↦ record i { errors = i.errors ++ (e ∷ []); done = true }
    | panic ↦ record i { done = true }
  ]
