-- ===== src/FileTransfer/Download.antt =====
-- api/http/management_filetransfer.go: `downloadFile`. The input is what comes from the device's
-- channel, with how the calls end that it leads to.
pub mod Content
pub mod Served
use deviceconnect.Prelude.{
  ℕ, suc, ◌+◌, String, List, [], ◌∷◌, ◌++◌, length, Option, none, some, Bool, true, false, leb,
  ◌==◌, if◌then◌else◌,
}
use deviceconnect.Errors.{
  Error, Result, ok, err, panic, file_transfer_timeout, file_transfer_failed, wrap, with_status,
}
use deviceconnect.Protocol.{MsgType, error, get, ack, chunk, ping, pong, int64, negative}
use deviceconnect.FileTransfer.Messages.{
  Packet, Sending, sent_result, transfer_message, Body, no_body, error_body, info_body, DeviceError,
  device_error, prop_offset, decode_message,
}

abbrev pub ack_sliding_window_send : ℕ
ack_sliding_window_send = 10

pub data Event : Type 0 where
  -- the channel was closed: no message within the timeout
  channel_closed : Event
  -- `<-ctx.Done()`
  cancelled : Error → Event
  -- a message, and how the calls of `bw.Write` or `bw.Flush` and of the publishing end
  received : Result Packet → Option Error → Sending → Event

pub data Status : Type 0 where
  running : Status
  returned : Option Error → Status
  crashed : Status

-- The variables of the loop, the bytes that `bw` took, and the messages sent.
pub record Download : Type 0 where
  pub status : Status
  pub latest_offset : ℕ
  pub number_of_chunks : ℕ
  pub written : List ℕ
  pub sent : List Packet

module _ (unpack_error : Option (List ℕ) → Result DeviceError)
    (unpack_info : Option (List ℕ) → Result ℕ) (session_id user_id : String) where
  abbrev pub ack_message : ℕ → Packet
  ack_message offset = transfer_message session_id user_id ack none (int64 offset)

  abbrev pub pong_message : Packet
  pong_message = transfer_message session_id user_id pong none negative

  -- A message is sent, and the function returns where that fails.
  abbrev pub send : Packet → Option Error → Download → Download
  send m none d = record d { sent = d.sent ++ (m ∷ []) }
  send m (some e) d = record d { sent = d.sent ++ (m ∷ []); status = returned (some e) }

  -- The last chunk has no body: it is acknowledged and the output is flushed.
  abbrev pub finish : Option Error → Option Error → Download → Download
  finish flushed none d = record d {
    sent = d.sent ++ (ack_message d.latest_offset ∷ []);
    status = returned flushed;
  }
  finish flushed (some e) d = record d {
    sent = d.sent ++ (ack_message d.latest_offset ∷ []);
    status = returned (some e);
  }

  -- `numberOfChunks >= ackSlidingWindowSend`
  abbrev pub acknowledge : Option Error → Download → Download
  acknowledge failure d =
      if leb ack_sliding_window_send d.number_of_chunks
      then send (ack_message d.latest_offset) failure (record d { number_of_chunks = 0 })
      else d

  abbrev pub write_chunk : List ℕ → Option Error → Option Error → Download → Download
  write_chunk body (some e) failure d = record d {
    latest_offset = d.latest_offset + length body;
    status = returned (some e);
  }
  write_chunk body none failure d = acknowledge failure (record d {
    latest_offset = d.latest_offset + length body;
    written = d.written ++ body;
    number_of_chunks = d.number_of_chunks + 1;
  })

  abbrev pub at_offset : Option ℕ → ℕ → Bool
  at_offset none n = false
  at_offset (some m) n = m == n

  abbrev pub wrong_offset : Error
  wrong_offset = with_status (wrap file_transfer_failed "wrong offset received") 500

  abbrev pub receive_chunk :
      Packet → Option (List ℕ) → Option Error → Option Error → Download → Download
  receive_chunk m none stored failure d = finish stored failure d
  receive_chunk m (some body) stored failure d =
      if at_offset (prop_offset m.properties) d.latest_offset
      then write_chunk body stored failure d
      else record d { status = returned (some wrong_offset) }

  -- `switch msg.Header.MsgType`
  abbrev pub receive : MsgType → Packet × Body → Option Error → Option Error → Download → Download
  receive error (m, error_body e) stored failure d = record d {
    status = returned (some (device_error e 500));
  }
  -- `msgBody.(*ws.Error)` of another body
  receive error (m, _) stored failure d = record d { status = crashed }
  receive chunk (m, b) stored failure d = receive_chunk m m.body stored failure d
  receive ping (m, b) stored failure d = send pong_message failure d
  receive _ (m, b) stored failure d = d

  abbrev pub handle : Result (Packet × Body) → Option Error → Option Error → Download → Download
  handle (ok (m, b)) stored failure d = receive m.msg_type (m, b) stored failure d
  handle (err e) stored failure d = record d { status = returned (some e) }
  handle panic stored failure d = record d { status = crashed }

  unfoldable pub download_step : Download → Event → Download
  unfolding sent_result decode_message transfer_message
  download_step d channel_closed = record d { status = returned (some file_transfer_timeout) }
  download_step d (cancelled e) = record d { status = returned (some e) }
  download_step d (received m stored sending) =
      handle (decode_message unpack_error unpack_info m) stored (sent_result sending) d

  unfoldable pub download_loop : Download → List Event → Download
  unfolding download_step
  download_loop d [] = d
  download_loop d (e ∷ events) =
      let d' = download_step d e in
      let rest = download_loop d' events in elim d'.status [ running ↦ rest | _ ↦ d' ]

  -- `downloadFile`: `request` is the packed `GetFile`, `requested` how its publishing ends.
  unfoldable pub download_file : List ℕ → Sending → List Event → Download
  unfolding download_loop
  download_file request requested events =
      let first : Download = record {
        status = running;
        latest_offset = 0;
        number_of_chunks = 0;
        written = [];
        sent = transfer_message session_id user_id get (some request) (int64 0) ∷ [];
      } in
      elim (sent_result requested) [
        | none ↦ download_loop first events
        | some e ↦ record first { status = returned (some e) }
      ]
