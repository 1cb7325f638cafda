-- ===== src/FileTransfer/Open.antt =====
-- api/http/management_filetransfer.go: before a transfer the device is asked whether it takes files
-- (`filetransferHandshake`), and for a download about the file (`statFile`).
use deviceconnect.Prelude.{
  ℕ, List, [], ◌∷◌, ◌++◌, Option, none, some, Bool, true, false, if◌then◌else◌, ◌≡◌,
}
use deviceconnect.Errors.{
  Error, Result, ok, err, panic, message, wrap, file_transfer_publishing, file_transfer_timeout,
  file_transfer_unmarshalling, file_transfer_not_implemented, file_transfer_disabled,
}
use deviceconnect.Protocol.{
  Proto, MsgType, file_transfer, control, error, open_session, accept, close_session, file_info,
}
use deviceconnect.FileTransfer.Messages.{
  Packet, Sending, published, sent_result, DeviceError, device_error,
}

-- `publishControlMessage`: the message has no properties.
unfoldable pub control_message : MsgType → Option (List ℕ) → Packet
control_message t body = record { proto = control; msg_type = t; properties = []; body = body }

-- What comes from the session's channel.
pub data Answer : Type 0 where
  -- the channel is closed, or no message came within the timeout
  silent : Answer
  -- `ctx.Done()`, which only `statFile` looks at
  cancelled : Error → Answer
  answer : Result Packet → Answer

abbrev pub has_file_transfer : List Proto → Bool
has_file_transfer [] = false
has_file_transfer (file_transfer ∷ ps) = true
has_file_transfer (_ ∷ ps) = has_file_transfer ps

-- The error and the messages sent.
abbrev pub Opening : Type 0
Opening = Option Error × List Packet

module _ (unpack_accept : Option (List ℕ) → Result (List Proto))
    (unpack_error : Packet → DeviceError) where
  -- The protocols of the ACCEPT: where files are not among them the session is closed again.
  abbrev accepted : List Packet → Result (List Proto) → Opening
  accepted sent (ok protocols) =
      if has_file_transfer protocols
      then (none, sent)
      else (some file_transfer_disabled, sent ++ (control_message close_session none ∷ []))
  accepted sent _ = (some file_transfer_unmarshalling, sent)

  -- `msg.Header.MsgType`; the error is unpacked from the whole message and not from its body.
  abbrev opened : List Packet → MsgType → Packet → Opening
  opened sent error m =
      (some (wrap (device_error (unpack_error m) 500) "handshake error from client"), sent)
  opened sent accept m = accepted sent (unpack_accept m.body)
  opened sent _ m = (some file_transfer_not_implemented, sent)

  abbrev answered : List Packet → Answer → Opening
  answered sent (answer (ok m)) = opened sent m.msg_type m
  answered sent (answer _) = (some file_transfer_unmarshalling, sent)
  answered sent _ = (some file_transfer_timeout, sent)

  -- `filetransferHandshake`; `versions` is the packed `ws.Open`.
  unfoldable pub file_transfer_handshake : List ℕ → Sending → Answer → Opening
  unfolding control_message
  file_transfer_handshake versions published a =
      answered (control_message open_session (some versions) ∷ []) a
  file_transfer_handshake versions _ a =
      (some file_transfer_publishing, control_message open_session (some versions) ∷ [])

  -- What is known of an answer that led to no error.
  abbrev IsOpened : List Packet → Packet → Opening → Type 0
  IsOpened sent m o =
      o.0 ≡ none
      → (m.msg_type ≡ accept)
        × ((ps : List Proto) × (unpack_accept m.body ≡ ok ps) × (has_file_transfer ps ≡ true))
        × (o.1 ≡ sent)

module _ {Info : Type 0} (unpack_info : Option (List ℕ) → Result Info)
    (unpack_error : Option (List ℕ) → DeviceError) where
  abbrev is_file_info : Packet → Bool
  is_file_info m = elim m.proto [
    | file_transfer ↦ elim m.msg_type [ file_info ↦ true | _ ↦ false ]
    | _ ↦ false
  ]

  abbrev is_error : MsgType → Bool
  is_error error = true
  is_error _ = false

  abbrev info_of : Result Info → Result Info
  info_of (ok i) = ok i
  info_of (err e) = err (wrap e "malformed message body from device")
  info_of panic = panic

  abbrev stat_answer : Answer → Result Info
  stat_answer silent = err file_transfer_timeout
  stat_answer (cancelled e) = err e
  stat_answer (answer (ok m)) =
      if is_error m.msg_type
      then err (device_error (unpack_error m.body) 400)
      else if is_file_info m
      then info_of (unpack_info m.body)
      else err (message "unexpected response from device")
  stat_answer (answer (err e)) = err (wrap e "malformed message from device")
  stat_answer (answer panic) = panic

  -- `statFile`
  unfoldable pub stat_file : Sending → Answer → Result Info
  unfolding sent_result
  stat_file sending a = elim (sent_result sending) [ none ↦ stat_answer a | some e ↦ err e ]
