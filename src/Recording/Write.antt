-- ===== src/Recording/Write.antt =====
-- store/mongo/recording_writer.go and `WriteSessionRecords` of store/mongo/datastore_mongo.go: a
-- recorded session is sent again, the control messages between the pieces of the output.
pub mod Complete
pub mod Total
pub mod Crash
pub mod Uncontrolled
use deviceconnect.Prelude.{
  ℕ, zero, suc, ◌+◌, ◌-◌, String, List, [], ◌∷◌, ◌++◌, length, Option, none, some, Bool, true,
  false, ltb, ◌==◌, if◌then◌else◌,
}
use deviceconnect.Errors.{
  Error, Result, ok, err, panic, eof, short_write, unknown_control_message_type,
  recording_data_inconsistent,
}
use deviceconnect.Protocol.{ProtoMsg, shell, shell_command, resize_shell, delay, uint16}
use deviceconnect.Control.{Control, delay_message, resize_message}
use deviceconnect.Recording.Stream.{Stream, Cursor}
use deviceconnect.Recording.ControlReader.{ControlMessageReader, pop, new_control_message_reader}
use deviceconnect.Recording.Reader.{
  RecordingReader, recording_read_buffer_size, read_recording, new_recording_reader,
}

-- An `io.Writer` that gets packed messages. `faults` says how the next calls of `msgpack.Marshal`
-- and `Write` end; when it is used up they succeed.
pub record Writer : Type 0 where
  pub sent : List ProtoMsg
  pub faults : List (Option Error)

-- `msgpack.Marshal` and `w.Write`
unfoldable pub write_message : ProtoMsg → Writer → Option Error × Writer
write_message m w = elim w.faults [
  | [] ↦ (none, record w { sent = w.sent ++ (m ∷ []) })
  | none ∷ fs ↦ (none, record { sent = w.sent ++ (m ∷ []); faults = fs })
  | some e ∷ fs ↦ (some e, record w { faults = fs })
]

abbrev pub recording_message : List ℕ → String → ProtoMsg
recording_message d session_id = record {
  proto = shell;
  msg_type = shell_command;
  session_id = session_id;
  properties = [];
  body = d;
}

-- `sendRecordingMessage`; the number of bytes is `len(data)` where there is no error, and is not
-- looked at otherwise.
unfoldable pub send_recording_message : List ℕ → String → Writer → Option Error × Writer
unfolding write_message
send_recording_message d session_id w = write_message (recording_message d session_id) w

abbrev pub delay_msg : Control → String → ProtoMsg
delay_msg c session_id = record {
  proto = shell;
  msg_type = delay;
  session_id = session_id;
  properties = ("delay_value", uint16 c.delay_ms) ∷ [];
  body = [];
}

abbrev pub resize_msg : Control → String → ProtoMsg
resize_msg c session_id = record {
  proto = shell;
  msg_type = resize_shell;
  session_id = session_id;
  properties =
      ("terminal_height", uint16 c.terminal_height)
      ∷ ("terminal_width", uint16 c.terminal_width)
      ∷ [];
  body = [];
}

-- `sendControlMessage`
unfoldable pub send_control_message : Control → String → Writer → Option Error × Writer
unfolding write_message
send_control_message c session_id w =
    if c.type == delay_message
    then write_message (delay_msg c session_id) w
    else if c.type == resize_message
    then write_message (resize_msg c session_id) w
    else (some unknown_control_message_type, w)

-- `RecordingWriter.Write`
unfoldable pub recording_write : List ℕ → String → Writer → (ℕ × Option Error) × Writer
unfolding send_recording_message
recording_write d session_id w =
    let (e, w') = send_recording_message d session_id w in
    elim e [
      | none ↦ if length d == 0 then ((0, some short_write), w') else ((length d, none), w')
      | some _ ↦ ((0, some short_write), w')
    ]

-- The variables of `WriteSessionRecords`.
pub record Playing : Type 0 where
  pub controls : ControlMessageReader
  pub recording : RecordingReader
  pub w : Writer
  pub bytes_sent : ℕ

pub data Outcome : Type 0 where
  -- the loop goes on
  next : Playing → Outcome
  -- `break` out of the outer loop, with the error that is returned
  done : Option Error → Playing → Outcome
  -- a slice out of range
  crash : Outcome
  out_of_fuel : Outcome

abbrev pub copy_buffer_size : ℕ
copy_buffer_size = 32768

module _ (gunzip : List ℕ → Result Stream) (session_id : String) where
  -- A piece of output is sent and counted.
  abbrev sent_piece :
      Playing → List ℕ → RecordingReader → Option Error × Writer → Option Error × Playing
  sent_piece p d rr (none, w') =
      (none, record p { recording = rr; w = w'; bytes_sent = p.bytes_sent + length d })
  sent_piece p d rr (some e, w') = (some e, record p { recording = rr; w = w' })

  abbrev send_piece : Playing → List ℕ → RecordingReader → Option Error × Playing
  send_piece p d rr =
      if length d == 0
      then (none, record p { recording = rr })
      else sent_piece p d rr (send_recording_message d session_id p.w)

  -- One round of the loop `for bytesUntilControlMessage > len(recordingBuffer)`; `none` leaves it.
  abbrev skip_round :
      Playing → List ℕ × Option Error × RecordingReader → (Playing → Outcome) → Outcome
  skip_round p (d, e, rr) rest =
      let (se, p') = send_piece p d rr in
      elim se [
        | some x ↦ done (some x) p'
        | none ↦ elim e [ some _ ↦ next p' | none ↦ if length d == 0 then next p' else rest p' ]
      ]

  unfoldable pub skip_buffers : ℕ → ℕ → Playing → Outcome
  unfolding read_recording send_recording_message
  skip_buffers zero offset p = out_of_fuel
  skip_buffers (suc fuel) offset p =
      let again = λ (q : Playing). skip_buffers fuel offset q in
      if ltb recording_read_buffer_size (offset - p.bytes_sent)
      then skip_round p (read_recording gunzip recording_read_buffer_size p.recording) again
      else next p

  -- The output up to the control message and then the message. The read may be shorter than the
  -- buffer that it gets, and its error is not looked at.
  abbrev send_control : Control → Option Error × Playing → Outcome
  send_control c (some e, p) = done (some e) p
  send_control c (none, p) =
      let (e, w') = send_control_message c session_id p.w in
      elim e [ none ↦ next (record p { w = w' }) | some x ↦ done (some x) (record p { w = w' }) ]

  -- `recordingBuffer[:bytesUntilControlMessage]` is out of range beyond the buffer's length.
  abbrev finish_control : Control → Outcome → Outcome
  finish_control c (next p) =
      let until = c.offset - p.bytes_sent in
      if ltb recording_read_buffer_size until
      then crash
      else (let (d, _, rr) = read_recording gunzip until p.recording in
          send_control c (send_piece p d rr))
  finish_control c o = o

  -- The `else` branch of the outer loop.
  unfoldable pub serve_control : ℕ → Control → Playing → Outcome
  unfolding skip_buffers send_control_message read_recording
  serve_control fuel c p =
      if ltb c.offset p.bytes_sent
      then done (some recording_data_inconsistent) p
      else finish_control c (skip_buffers fuel c.offset p)

  -- One round of `io.Copy(recordingWriter, recordingReader)`: an error ends it.
  abbrev copy_round :
      Playing → List ℕ × Option Error × RecordingReader → (Playing → Outcome) → Outcome
  copy_round p (d, e, rr) rest =
      let ((n, we), w') =
        if length d == 0 then ((0, none), p.w) else recording_write d session_id p.w in
      let p' = record p { recording = rr; w = w'; bytes_sent = p.bytes_sent + n } in
      elim we [ some _ ↦ done none p' | none ↦ elim e [ some _ ↦ done none p' | none ↦ rest p' ] ]

  -- `io.Copy`; its error is logged and not returned.
  unfoldable pub copy_recording : ℕ → Playing → Outcome
  unfolding recording_write read_recording
  copy_recording zero p = out_of_fuel
  copy_recording (suc fuel) p =
      let again = λ (q : Playing). copy_recording fuel q in
      copy_round p (read_recording gunzip copy_buffer_size p.recording) again

  abbrev pub served : Outcome → (Playing → Outcome) → Outcome
  served (next q) again = again q
  served (done e q) again = done e q
  served crash again = crash
  served out_of_fuel again = out_of_fuel

  -- One round of the outer loop, on what `controlReader.Pop()` gave.
  abbrev pub play_round : ℕ → Playing → Result (Option Control) → (Playing → Outcome) → Outcome
  play_round fuel p (ok none) again = copy_recording fuel p
  play_round fuel p (ok (some m)) again = served (serve_control fuel m p) again
  play_round fuel p (err e) again = crash
  play_round fuel p panic again = crash

  -- The outer loop of `WriteSessionRecords`.
  unfoldable pub play : ℕ → Playing → Outcome
  unfolding serve_control copy_recording pop
  play zero p = out_of_fuel
  play (suc fuel) p =
      let again = λ (q : Playing). play fuel q in
      play_round fuel (record p { controls = (pop p.controls).1 }) (pop p.controls).0 again

  abbrev start : Cursor → Cursor → Writer → Playing
  start recordings controls w = record {
    controls = new_control_message_reader gunzip controls;
    recording = new_recording_reader recordings;
    w = w;
    bytes_sent = 0;
  }

  -- `WriteSessionRecords` on what the two `Find` calls give.
  unfoldable pub write_session_records : ℕ → Result Cursor → Result Cursor → Writer → Outcome
  unfolding play new_control_message_reader
  write_session_records fuel (ok recordings) (ok controls) w =
      play fuel (start recordings controls w)
  write_session_records fuel (err e) controls w = done (some e) (start [] [] w)
  write_session_records fuel (ok recordings) (err e) w = done (some e) (start [] [] w)
  write_session_records fuel _ _ w = crash
