-- ===== src/Examples/Transfers.antt =====
-- A file of five bytes is downloaded and uploaded, and a terminal's output is passed on.
use deviceconnect.Prelude.{
  ℕ, ◌≤◌, List, [], ◌∷◌, ◌++◌, length, Option, none, some, false, ◌≡◌, refl,
}
use deviceconnect.Errors.{Result, ok, err, short_buffer}
use deviceconnect.Protocol.{
  MsgType, Proto, file_transfer, shell, control, chunk, ping, accept, int64, shell_command,
}
use deviceconnect.Session.{Session}
use deviceconnect.FileTransfer.Messages.{Packet, published, DeviceError, decode_message}
use deviceconnect.FileTransfer.Download.{
  Event, received, returned, Download, ack_message, download_file,
}
use deviceconnect.FileTransfer.Download.Content.{Brings, download_file_complete}
use deviceconnect.FileTransfer.Download.Served.{download_file_served}
use deviceconnect.FileTransfer.Upload.Inbounds.{IsLatest, inbound_step-Advances}
use deviceconnect.FileTransfer.Upload.{Inbound, inbound_step, Round, timed_out, upload_file}
use deviceconnect.FileTransfer.Upload.Created.{chunk_messages, upload_file-created}
use deviceconnect.Terminal.DeviceLoop.{Input, from_device}

abbrev no_error : Option (List ℕ) → Result DeviceError
no_error body = err short_buffer

abbrev no_info : Option (List ℕ) → Result ℕ
no_info body = err short_buffer

abbrev chunk_at : ℕ → Option (List ℕ) → Packet
chunk_at offset body = record {
  proto = file_transfer;
  msg_type = chunk;
  properties = ("offset", int64 offset) ∷ [];
  body = body;
}

abbrev pinged : Packet
pinged = record { proto = control; msg_type = ping; properties = []; body = none }

abbrev events : List Event
events =
    received (ok (chunk_at 0 (some (1 ∷ 2 ∷ 3 ∷ [])))) none published
    ∷ received (ok pinged) none published
    ∷ received (ok (chunk_at 3 (some (4 ∷ 5 ∷ [])))) none published
    ∷ received (ok (chunk_at 5 none)) none published
    ∷ []

abbrev downloaded : Download
downloaded = download_file no_error no_info "s1" "u1" (9 ∷ []) published events

download_file_complete_example :
    Brings no_error no_info "s1" "u1" events 0 downloaded.written
    × ((front : List Packet) × (downloaded.sent
          ≡ front ++ (ack_message no_error no_info "s1" "u1" (length downloaded.written) ∷ [])))
unfolding download_file decode_message
download_file_complete_example =
    download_file_complete no_error no_info "s1" "u1" (9 ∷ []) published events refl

download_file_served_example : downloaded.status ≡ returned none
unfolding decode_message
download_file_served_example =
    download_file_served no_error no_info "s1" "u1" (9 ∷ []) events (1 ∷ 2 ∷ 3 ∷ 4 ∷ 5 ∷ [])
      (refl, (4 ∷ 5 ∷ [], refl, (refl, ([], refl, refl))))
      (refl, refl, (refl, refl, (refl, refl, (refl, refl, tt))))

abbrev piece : List ℕ → Round
piece bs = record {
  data_read = bs;
  read_error = none;
  sending = published;
  waited = timed_out;
  polled = none;
}

abbrev rounds : List Round
rounds = piece (1 ∷ 2 ∷ 3 ∷ []) ∷ piece (4 ∷ 5 ∷ []) ∷ piece [] ∷ []

upload_file-created_example :
    ((upload_file "s1" "u1" rounds (some 5 ∷ [])).sent
      ≡ chunk_messages "s1" "u1" 0 ((1 ∷ 2 ∷ 3 ∷ []) ∷ (4 ∷ 5 ∷ []) ∷ []))
    × (5 ≤ (upload_file "s1" "u1" rounds (some 5 ∷ [])).latest_ack)
unfolding upload_file
upload_file-created_example = upload_file-created "s1" "u1" rounds (some 5 ∷ []) refl

abbrev accepting : Packet
accepting = record { proto = control; msg_type = accept; properties = []; body = none }

abbrev files_only : Option (List ℕ) → Result (List Proto)
files_only body = ok (shell ∷ file_transfer ∷ [])

abbrev unread : Packet → DeviceError
unread m = record { text = ""; code = 0 }

abbrev session : Session
session = record {
  id = "s1";
  user_id = "u1";
  device_id = "d1";
  types = [];
  start_ts = 10;
  tenant_id = "acme";
  bytes_recorded = 0;
}

abbrev shown : Input
shown = from_device (record {
  msg = record {
    proto = shell;
    msg_type = shell_command;
    session_id = "s1";
    properties = [];
    body = 36 ∷ [];
  };
  now = 2000000000;
  taken = 7;
  written = none;
})

abbrev acking : Packet
acking = record (chunk_at 5 none) { msg_type = MsgType.ack }

inbound_step-Advances_example :
    let i : Inbound = record {
      latest_ack_offset = 3;
      latest_ack_offsets = some 3;
      errors = [];
      answers = [];
      done = false;
    } in
    let i' = inbound_step no_error no_info "s1" "u1" i (ok acking) published in
    (3 ≤ i'.latest_ack_offset) × IsLatest no_error no_info "s1" "u1" i'
inbound_step-Advances_example =
    inbound_step-Advances no_error no_info "s1" "u1"
      (record {
        latest_ack_offset = 3;
        latest_ack_offsets = some 3;
        errors = [];
        answers = [];
        done = false;
      })
      (ok acking) published refl
