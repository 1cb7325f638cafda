-- ===== src/Examples/Files.antt =====
-- A file is downloaded from a device and uploaded to it, from the request to the answer.
use deviceconnect.Prelude.{
  ℕ, ◌≤◌, String, starts_with, true, false, List, [], ◌∷◌, ◌++◌, length, Option, none, some, ◌≡◌,
  ◌≢◌, ◌⊎◌, refl,
}
use deviceconnect.Errors.{Error, Result, ok, err, short_buffer}
use deviceconnect.Protocol.{
  Proto, file_transfer, control, accept, chunk, ack, file_info, int64, close_session,
}
use deviceconnect.Store.Collection.{first}
use deviceconnect.Store.Devices.{Device, is_device, get_device, device_status_connected}
use deviceconnect.Workflows.{AuditLog}
use deviceconnect.FileTransfer.Messages.{Packet, published, DeviceError}
use deviceconnect.FileTransfer.Open
use deviceconnect.FileTransfer.Open.{control_message, file_transfer_handshake, stat_file}
use deviceconnect.FileTransfer.Download.{Event, channel_closed, received}
use deviceconnect.FileTransfer.Upload.{Round, timed_out}
use deviceconnect.FileTransfer.Upload.Created.{pieces, joined, chunk_messages}
use deviceconnect.FileTransfer.Requests.{
  params_for, publish, publish_all, Identity, FileTransferParams, get_file_transfer_params,
}
use deviceconnect.FileTransfer.DownloadHandler
use deviceconnect.FileTransfer.DownloadHandler.Closing.{IsClosed, download_file_response-IsClosed}
use deviceconnect.FileTransfer.DownloadHandler.Guards.{download_entry, download_file_handler-served}
use deviceconnect.FileTransfer.DownloadHandler.Subjects.{AreTo}
use deviceconnect.Subject.{device_subject}
use deviceconnect.FileTransfer.UploadHandler
use deviceconnect.FileTransfer.UploadHandler.Answers.{IsWilling, upload_file_response-created}
use deviceconnect.Examples.Database.{listed}

abbrev packet : Proto → Packet
packet p = record { proto = p; msg_type = accept; properties = []; body = none }

abbrev accepting : Packet
accepting = packet control

abbrev describing : Packet
describing = record (packet file_transfer) { msg_type = file_info }

abbrev acking : Packet
acking = record (packet file_transfer) { msg_type = ack }

abbrev chunk_at : ℕ → Option (List ℕ) → Packet
chunk_at offset body = record {
  proto = file_transfer;
  msg_type = chunk;
  properties = ("offset", int64 offset) ∷ [];
  body = body;
}

abbrev events : List Event
events =
    received (ok (chunk_at 0 (some (1 ∷ 2 ∷ [])))) none published
    ∷ received (ok (chunk_at 2 none)) none published
    ∷ []

abbrev no_error : Option (List ℕ) → Result DeviceError
no_error body = err short_buffer

abbrev no_info : Option (List ℕ) → Result ℕ
no_info body = err short_buffer

abbrev unread : Packet → DeviceError
unread m = record { text = ""; code = 0 }

abbrev files_only : Option (List ℕ) → Result (List Proto)
files_only body = ok (file_transfer ∷ [])

abbrev described : DownloadHandler.FileInfo
described = record {
  path = some "/etc/hosts";
  uid = some 0;
  gid = none;
  mode = some 420;
  size = some 2;
}

abbrev download_library : DownloadHandler.Library
download_library = record {
  pack_stat = λ path. 8 ∷ [];
  pack_get = λ path. 9 ∷ [];
  unpack_accept = files_only;
  unpack_handshake_error = unread;
  unpack_stat = λ body. ok described;
  unpack_stat_error = λ body. record { text = ""; code = 0 };
  unpack_error = no_error;
  unpack_info = no_info;
  base = λ path. "hosts";
  is_regular = λ mode. true;
  begun = λ d. true;
}

abbrev download_network : DownloadHandler.Network
download_network = record {
  subscribed = λ topic. none;
  versions = 1 ∷ [];
  opening = published;
  opening_answer = Open.answer (ok accepting);
  stat_sending = published;
  stat_answer = Open.answer (ok describing);
  requested = published;
  events = events ++ (channel_closed ∷ []);
}

abbrev device : Device
device = record {
  id = "d1";
  tenant_id = "acme";
  status = "connected";
  created_ts = 1;
  updated_ts = 2;
  version = some 4;
}

abbrev user : Identity
user = record { subject = "u1"; tenant = "acme"; is_user = true }

abbrev accept_all : AuditLog → Option Error
accept_all l = none

abbrev granted : FileTransferParams
granted = params_for user device "s1"

download_file_response-IsClosed_example :
    IsClosed download_library download_network false granted "/etc/hosts"
      (publish_all granted
          (DownloadHandler.handshake download_library download_network false granted "/etc/hosts").1
        ++ (DownloadHandler.stat_message download_library download_network false granted
              "/etc/hosts"
            ∷ []))
      (DownloadHandler.download_file_response download_library download_network false granted
        "/etc/hosts")
unfolding file_transfer_handshake
download_file_response-IsClosed_example =
    download_file_response-IsClosed download_library download_network false granted "/etc/hosts"
      events refl refl refl

abbrev download : DownloadHandler.Response
download =
    DownloadHandler.download_file_response download_library download_network false granted
      "/etc/hosts"

download_file_handler-served_example :
    (i : Identity) × (d : Device) × (s : String) × (some user ≡ some i)
    × (i.is_user ≡ true)
    × (first (is_device i.tenant "d1") (device ∷ []) ≡ some d)
    × (d.status ≡ device_status_connected)
    × (◌≢◌ {A = String} "/etc/hosts" "")
    × (starts_with "/etc/hosts" "/" ≡ true)
    × ((true ≡ false) ⊎ (accept_all (download_entry 7 i.subject d.id "/etc/hosts") ≡ none))
    × (◌≡◌ {A = Result String} (ok "s1") (ok s))
    × AreTo (device_subject i.tenant d.id) s download.sent
    × (download
        ≡ DownloadHandler.download_file_response download_library download_network false
            (params_for i d s)
            "/etc/hosts")
unfolding DownloadHandler.download_file_handler get_file_transfer_params get_device
download_file_handler-served_example =
    download_file_handler-served (listed Device) true accept_all 7 download_library download_network
      false (some user) "d1" true (ok "s1") "/etc/hosts" (device ∷ []) download refl

abbrev upload_library : UploadHandler.Library
upload_library = record {
  unpack_accept = files_only;
  unpack_handshake_error = unread;
  unpack_error = no_error;
  unpack_info = no_info;
}

abbrev piece : List ℕ → Round
piece bs = record {
  data_read = bs;
  read_error = none;
  sending = published;
  waited = timed_out;
  polled = none;
}

abbrev upload_network : UploadHandler.Network
upload_network = record {
  subscribed = λ topic. none;
  versions = 1 ∷ [];
  opening = published;
  opening_answer = Open.answer (ok accepting);
  put_request = 8 ∷ [];
  put_sending = published;
  put_answer = UploadHandler.answer (ok acking);
  rounds = piece (1 ∷ 2 ∷ 3 ∷ []) ∷ piece (4 ∷ 5 ∷ []) ∷ piece [] ∷ [];
  acks = some 5 ∷ [];
}

upload_file_response-created_example :
    let r = UploadHandler.upload_file_response upload_library upload_network granted in
    ((UploadHandler.handshake upload_library upload_network granted).0 ≡ none)
    × IsWilling upload_library upload_network granted upload_network.put_answer
    × (r.reply ≡ none)
    × (r.sent
        ≡ (publish_all granted (UploadHandler.handshake upload_library upload_network granted).1
            ++ (UploadHandler.put_message upload_library upload_network granted ∷ []))
          ++ (publish_all granted (chunk_messages "s1" "u1" 0 (pieces upload_network.rounds))
              ++ (publish granted (control_message close_session none) ∷ [])))
    × (length (joined (pieces upload_network.rounds))
        ≤ (UploadHandler.upload upload_library upload_network granted).latest_ack)
unfolding UploadHandler.upload_file_response
upload_file_response-created_example =
    upload_file_response-created upload_library upload_network granted refl
