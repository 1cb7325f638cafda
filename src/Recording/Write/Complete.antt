-- ===== src/Recording/Write/Complete.antt =====
-- store/mongo/datastore_mongo.go: the output among the messages that `WriteSessionRecords` sends.
use mathlib.Core.Path.{subst}
use deviceconnect.Recording.Write.{served, play_round}
use deviceconnect.Prelude.{eq-nil_of_append}
use deviceconnect.Prelude.{eq-nil_of_length}
use deviceconnect.Prelude.{
  ℕ, zero, suc, ◌+◌, ◌-◌, ◌<◌, ◌≡◌, refl, sym, ap, ◌∙◌, List, [], ◌∷◌, ◌++◌, length, length-append,
  append_assoc, append-nil, Option, none, some, ltb, arith, String, Bool-cases, inl, inr,
}
use deviceconnect.Errors.{Error, Result, ok, err, panic}
use deviceconnect.Protocol.{ProtoMsg, shell_command, MsgType}
use deviceconnect.Control.{Control}
use deviceconnect.Recording.Stream.{Stream, Cursor}
use deviceconnect.Recording.ControlReader.{pop}
use deviceconnect.Recording.Reader.{
  RecordingReader, recording_read_buffer_size, read_recording, Reading,
}
use deviceconnect.Recording.Reader.Content.{
  content, IsSoundReader, Reads, read_recording-Reads, AllSound, records_bytes,
}
use deviceconnect.Recording.Write.{
  Writer, delay_msg, resize_msg, write_message, recording_message, send_recording_message,
  send_control_message, recording_write, Playing, Outcome, next, done, crash, out_of_fuel,
  skip_buffers, skip_round, send_piece, serve_control, send_control, finish_control, copy_round,
  copy_recording, play, start, write_session_records, copy_buffer_size,
}

-- The output among the messages that were sent: the bodies of the shell commands.
abbrev pub output_of : MsgType → List ℕ → List ℕ
output_of shell_command body = body
output_of _ body = []

abbrev pub output : List ProtoMsg → List ℕ
output [] = []
output (m ∷ ms) = output_of m.msg_type m.body ++ output ms

output-append : (ms ns : List ProtoMsg) → output (ms ++ ns) ≡ output ms ++ output ns
output-append [] ns = refl
output-append (m ∷ ms) ns =
    ap (λ bs. output_of m.msg_type m.body ++ bs) (output-append ms ns)
    ∙ sym (append_assoc (output_of m.msg_type m.body) (output ms) (output ns))

-- A writer that does not fail.
module _ (gunzip : List ℕ → Result Stream) (session_id : String) (total : List ℕ) where
  -- What was sent and what is still to be read is the whole recording.
  pub record Keeps (p : Playing) : Type 0 where
    pub conserves : output p.w.sent ++ content gunzip p.recording ≡ total
    pub counts : p.bytes_sent ≡ length (output p.w.sent)
    pub sound : IsSoundReader gunzip p.recording
    pub no_faults : p.w.faults ≡ []

  send_recording_message-output :
      (d : List ℕ) (w : Writer)
      → w.faults ≡ []
      → let (e, w') = send_recording_message d session_id w in
        (e ≡ none) × (output w'.sent ≡ output w.sent ++ d) × (w'.faults ≡ [])
  unfolding send_recording_message
  send_recording_message-output d w f =
      ground (arith, output-append w.sent (recording_message d session_id ∷ []), append-nil d)

  send_control_message-output :
      (c : Control) (w : Writer)
      → w.faults ≡ []
      → let (e, w') = send_control_message c session_id w in
        (output w'.sent ≡ output w.sent) × (w'.faults ≡ [])
  unfolding send_control_message write_message
  send_control_message-output c w f = ground (
    arith,
    append-nil (output w.sent),
    output-append w.sent (delay_msg c session_id ∷ []),
    output-append w.sent (resize_msg c session_id ∷ []),
  )

  pub send_piece-Keeps :
      (p : Playing) (d : List ℕ) (rr : RecordingReader)
      → Keeps p
      → d ++ content gunzip rr ≡ content gunzip p.recording
      → IsSoundReader gunzip rr
      → let (e, p') = send_piece gunzip session_id p d rr in
        (e ≡ none) × Keeps p' × (p'.recording ≡ rr) × (p'.bytes_sent ≡ p.bytes_sent + length d)
  send_piece-Keeps p d rr k h v = ground (
    arith,
    send_recording_message-output d p.w k.no_faults,
    append_assoc (output p.w.sent) d (content gunzip rr),
    length-append (output p.w.sent) d,
    ap (λ bs. output p.w.sent ++ bs) h,
    eq-nil_of_length d,
  )

  abbrev KeepsOutcome : Outcome → Type 0
  KeepsOutcome (next p) = Keeps p
  KeepsOutcome (done none p) = Keeps p × (content gunzip p.recording ≡ [])
  KeepsOutcome (done (some _) p) = Keeps p
  KeepsOutcome crash = Unit {0}
  KeepsOutcome out_of_fuel = Unit {0}

  skip_round-Keeps :
      (p : Playing) (r : Reading) (rest : Playing → Outcome)
      → Keeps p
      → r.0 ++ content gunzip r.2 ≡ content gunzip p.recording
      → IsSoundReader gunzip r.2
      → ((q : Playing) → Keeps q → KeepsOutcome (rest q))
      → KeepsOutcome (skip_round gunzip session_id p r rest)
  skip_round-Keeps p (d, e, rr) rest k h v keep =
      ground (arith, send_piece-Keeps p d rr k h v, keep (send_piece gunzip session_id p d rr).1)

  skip_buffers-Keeps :
      (fuel offset : ℕ) (p : Playing)
      → Keeps p
      → KeepsOutcome (skip_buffers gunzip session_id fuel offset p)
  unfolding skip_buffers
  skip_buffers-Keeps zero offset p k = tt
  skip_buffers-Keeps (suc fuel) offset p k =
      elim (Bool-cases (ltb recording_read_buffer_size (offset - p.bytes_sent))) [
        | inl more ↦
            let r = read_recording-Reads gunzip recording_read_buffer_size p.recording k.sound in
            rw more (
              skip_round-Keeps p (read_recording gunzip recording_read_buffer_size p.recording)
                (λ q. skip_buffers gunzip session_id fuel offset q) k r.hands_out r.sound
                (skip_buffers-Keeps fuel offset))
        | inr enough ↦ rw enough k
      ]

  send_control-Keeps :
      (c : Control) (e : Option Error) (p : Playing)
      → e ≡ none
      → Keeps p
      → KeepsOutcome (send_control gunzip session_id c (e, p))
  send_control-Keeps c (some e) p h k = cc
  send_control-Keeps c none p h k = ground (arith, send_control_message-output c p.w k.no_faults)

  finish_control-Keeps :
      (c : Control) (o : Outcome)
      → KeepsOutcome o
      → KeepsOutcome (finish_control gunzip session_id c o)
  finish_control-Keeps c (next p) k =
      elim (Bool-cases (ltb recording_read_buffer_size (c.offset - p.bytes_sent))) [
        | inl beyond ↦ rw beyond tt
        | inr within ↦
            let until = c.offset - p.bytes_sent in
            let r = read_recording-Reads gunzip until p.recording k.sound in
            let (d, _, rr) = read_recording gunzip until p.recording in
            let s = send_piece-Keeps p d rr k r.hands_out r.sound in
            rw within (
              send_control-Keeps c (send_piece gunzip session_id p d rr).0
                (send_piece gunzip session_id p d rr).1 s.0 s.1)
      ]
  finish_control-Keeps c (done e p) k = k
  finish_control-Keeps c crash k = k
  finish_control-Keeps c out_of_fuel k = k

  serve_control-Keeps :
      (fuel : ℕ) (c : Control) (p : Playing)
      → Keeps p
      → KeepsOutcome (serve_control gunzip session_id fuel c p)
  unfolding serve_control
  serve_control-Keeps fuel c p k = elim (Bool-cases (ltb c.offset p.bytes_sent)) [
    | inl missed ↦ rw missed k
    | inr ahead ↦ rw ahead (
        finish_control-Keeps c (skip_buffers gunzip session_id fuel c.offset p)
          (skip_buffers-Keeps fuel c.offset p k))
  ]

  recording_write-output :
      (d : List ℕ) (w : Writer)
      → w.faults ≡ []
      → 0 < length d
      → let ((n, e), w') = recording_write d session_id w in
        (e ≡ none) × (n ≡ length d) × (output w'.sent ≡ output w.sent ++ d) × (w'.faults ≡ [])
  unfolding recording_write
  recording_write-output d w f h = ground (arith, send_recording_message-output d w f)

  copy_round-Keeps :
      (p : Playing) (r : Reading) (rest : Playing → Outcome)
      → Keeps p
      → Reads gunzip copy_buffer_size (content gunzip p.recording) r
      → ((q : Playing) → Keeps q → KeepsOutcome (rest q))
      → KeepsOutcome (copy_round gunzip session_id p r rest)
  copy_round-Keeps p (d, none, rr) rest k r keep = ground (
    arith,
    recording_write-output d p.w k.no_faults,
    append_assoc (output p.w.sent) d (content gunzip rr),
    length-append (output p.w.sent) d,
    ap (λ bs. output p.w.sent ++ bs) r.hands_out,
    r.progress refl,
    keep (record p {
      recording = rr;
      w = (recording_write d session_id p.w).1;
      bytes_sent = p.bytes_sent + (recording_write d session_id p.w).0.0;
    }),
  )
  copy_round-Keeps p (d, some e, rr) rest k r keep = ground (
    arith,
    r.at_end (λ n. cc),
    eq-nil_of_append d (content gunzip rr) (r.hands_out ∙ (r.at_end (λ n. cc)).1),
  )

  copy_recording-Keeps :
      (fuel : ℕ) (p : Playing) → Keeps p → KeepsOutcome (copy_recording gunzip session_id fuel p)
  unfolding copy_recording
  copy_recording-Keeps zero p k = tt
  copy_recording-Keeps (suc fuel) p k =
      copy_round-Keeps p (read_recording gunzip copy_buffer_size p.recording)
        (λ q. copy_recording gunzip session_id fuel q) k
        (read_recording-Reads gunzip copy_buffer_size p.recording k.sound)
        (copy_recording-Keeps fuel)

  served-Keeps :
      (o : Outcome) (again : Playing → Outcome)
      → KeepsOutcome o
      → ((q : Playing) → Keeps q → KeepsOutcome (again q))
      → KeepsOutcome (served gunzip session_id o again)
  served-Keeps (next q) again k keep = keep q k
  served-Keeps (done e q) again k keep = k
  served-Keeps crash again k keep = tt
  served-Keeps out_of_fuel again k keep = tt

  play_round-Keeps :
      (fuel : ℕ) (p : Playing) (c : Result (Option Control)) (again : Playing → Outcome)
      → Keeps p
      → ((q : Playing) → Keeps q → KeepsOutcome (again q))
      → KeepsOutcome (play_round gunzip session_id fuel p c again)
  play_round-Keeps fuel p (ok none) again k keep = copy_recording-Keeps fuel p k
  play_round-Keeps fuel p (ok (some m)) again k keep =
      served-Keeps (serve_control gunzip session_id fuel m p) again (serve_control-Keeps fuel m p k)
        keep
  play_round-Keeps fuel p (err e) again k keep = tt
  play_round-Keeps fuel p panic again k keep = tt

  play-Keeps : (fuel : ℕ) (p : Playing) → Keeps p → KeepsOutcome (play gunzip session_id fuel p)
  unfolding play
  play-Keeps zero p k = tt
  play-Keeps (suc fuel) p k =
      play_round-Keeps fuel (record p { controls = (pop p.controls).1 }) (pop p.controls).0
        (λ q. play gunzip session_id fuel q)
        (record {
          conserves = k.conserves;
          counts = k.counts;
          sound = k.sound;
          no_faults = k.no_faults;
        })
        (play-Keeps fuel)

  done-output :
      (e : Option Error) (p : Playing)
      → KeepsOutcome (done e p)
      → (e ≡ none → output p.w.sent ≡ total) × ((rest : List ℕ) × (output p.w.sent ++ rest ≡ total))
  done-output none p (k, finished) = (
    (λ _. sym (append-nil (output p.w.sent)) ∙ rw (← finished) k.conserves),
    (content gunzip p.recording, k.conserves),
  )
  done-output (some x) p k = ((λ n. cc), (content gunzip p.recording, k.conserves))

module _ (gunzip : List ℕ → Result Stream) (session_id : String) (recordings : Cursor) where
  pub started :
      (controls : Cursor)
      → AllSound gunzip recordings
      → Keeps gunzip session_id
          (records_bytes gunzip recordings)
          (start gunzip session_id recordings controls (record { sent = []; faults = [] }))
  started controls v = ground arith

  -- A playback of sound records, through a writer that does not fail, that returns no error has
  -- sent the whole recording: the bodies of its shell commands are the bytes of the records, each
  -- once and in order, whatever the control messages are. One that returns an error has sent a
  -- first part of them.
  pub write_session_records-output :
      (fuel : ℕ) (controls : Cursor) (e : Option Error) (p : Playing)
      → AllSound gunzip recordings
      → write_session_records gunzip session_id fuel
          (ok recordings)
          (ok controls)
          (record { sent = []; faults = [] })
        ≡ done e p
      → (e ≡ none → output p.w.sent ≡ records_bytes gunzip recordings)
        × ((rest : List ℕ) × (output p.w.sent ++ rest ≡ records_bytes gunzip recordings))
  unfolding write_session_records
  write_session_records-output fuel controls e p v h =
      let total = records_bytes gunzip recordings in
      let first = start gunzip session_id recordings controls (record { sent = []; faults = [] }) in
      done-output gunzip session_id total e p (
        subst (KeepsOutcome gunzip session_id total) h
          (play-Keeps gunzip session_id total fuel first (started controls v)))
