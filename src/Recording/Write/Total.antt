-- ===== src/Recording/Write/Total.antt =====
-- store/mongo/datastore_mongo.go: the loops of `WriteSessionRecords` and the fuel that they need.
use mathlib.Core.Path.{subst}
use deviceconnect.Prelude.{
  ℕ, zero, suc, ◌+◌, ◌-◌, ◌≤◌, ◌<◌, ◌≡◌, refl, sym, ap, ◌∙◌, ◌≢◌, List, length, length-append,
  Option, none, some, ltb, arith, String, Bool-cases, inl, inr,
}
use deviceconnect.Errors.{Error, Result, ok, err, panic}
use deviceconnect.Control.{Control}
use deviceconnect.Recording.Stream.{Stream, Cursor}
use deviceconnect.Recording.ControlReader.{ControlMessageReader, pop, new_control_message_reader}
use deviceconnect.Recording.ControlReader.Size.{size, pop-size}
use deviceconnect.Recording.Reader.{
  RecordingReader, recording_read_buffer_size, read_recording, Reading,
}
use deviceconnect.Recording.Reader.Content.{
  content, IsSoundReader, Reads, read_recording-Reads, AllSound, records_bytes,
}
use deviceconnect.Recording.Write.{
  Writer, recording_write, Playing, Outcome, next, done, crash, out_of_fuel, skip_buffers,
  skip_round, send_piece, serve_control, send_control, finish_control, copy_round, copy_recording,
  play, play_round, served, start, write_session_records, copy_buffer_size,
}

module _ (gunzip : List ℕ → Result Stream) (session_id : String) where
  -- The bytes of output that are left.
  abbrev pub left : Playing → ℕ
  left p = length (content gunzip p.recording)

  -- The loop ended or goes on with at most `n` bytes left, and the same control messages.
  abbrev pub EndsWithin : ℕ → ControlMessageReader → Outcome → Type 0
  EndsWithin n r (next q) = (left q ≤ n) × IsSoundReader gunzip q.recording × (q.controls ≡ r)
  EndsWithin n r out_of_fuel = ⊥
  EndsWithin n r _ = Unit {0}

  Reads-left :
      (n : ℕ) (p : Playing) (r : Reading)
      → Reads gunzip n (content gunzip p.recording) r
      → length r.0 + length (content gunzip r.2) ≡ left p
  Reads-left n p r h = sym (length-append r.0 (content gunzip r.2)) ∙ ap length h.hands_out

  send_piece_fields :
      (p : Playing) (d : List ℕ) (rr : RecordingReader)
      → let q = (send_piece gunzip session_id p d rr).1 in
        (q.recording ≡ rr) × (q.controls ≡ p.controls)
  send_piece_fields p d rr = ground arith

  skip_round-ends :
      (n : ℕ) (p : Playing) (r : Reading) (rest : Playing → Outcome)
      → left p ≤ n
      → Reads gunzip recording_read_buffer_size (content gunzip p.recording) r
      → ((q : Playing)
          → left q < left p
          → IsSoundReader gunzip q.recording
          → q.controls ≡ p.controls
          → EndsWithin n p.controls (rest q))
      → EndsWithin n p.controls (skip_round gunzip session_id p r rest)
  skip_round-ends n p (d, e, rr) rest le h again =
      let q = (send_piece gunzip session_id p d rr).1 in
      ground (
        arith,
        h.sound,
        Reads-left recording_read_buffer_size p (d, e, rr) h,
        send_piece_fields p d rr,
        again q,
      )

  pub skip_buffers-ends :
      (fuel offset n : ℕ) (p : Playing)
      → left p < fuel
      → left p ≤ n
      → IsSoundReader gunzip p.recording
      → EndsWithin n p.controls (skip_buffers gunzip session_id fuel offset p)
  unfolding skip_buffers
  skip_buffers-ends zero offset n p h le v = elim h [ ]
  skip_buffers-ends (suc fuel) offset n p h le v =
      elim (Bool-cases (ltb recording_read_buffer_size (offset - p.bytes_sent))) [
        | inl more ↦ rw more (
            skip_round-ends n p (read_recording gunzip recording_read_buffer_size p.recording)
              (λ q. skip_buffers gunzip session_id fuel offset q) le
              (read_recording-Reads gunzip recording_read_buffer_size p.recording v)
              (λ q lt w e.
                rw (← e) (skip_buffers-ends fuel offset n q (omega arith) (omega arith) w)))
        | inr enough ↦ rw enough (le, v, refl)
      ]

  send_control-ends :
      (n : ℕ) (r : ControlMessageReader) (c : Control) (e : Option Error) (p : Playing)
      → p.controls ≡ r
      → left p ≤ n
      → IsSoundReader gunzip p.recording
      → EndsWithin n r (send_control gunzip session_id c (e, p))
  send_control-ends n r c (some e) p same le v = tt
  send_control-ends n r c none p same le v = ground arith

  finish_control-ends :
      (n : ℕ) (r : ControlMessageReader) (c : Control) (o : Outcome)
      → EndsWithin n r o
      → EndsWithin n r (finish_control gunzip session_id c o)
  finish_control-ends n r c (next p) (le, v, same) =
      elim (Bool-cases (ltb recording_read_buffer_size (c.offset - p.bytes_sent))) [
        | inl beyond ↦ rw beyond tt
        | inr within ↦
            let until = c.offset - p.bytes_sent in
            let h = read_recording-Reads gunzip until p.recording v in
            let (d, x, rr) = read_recording gunzip until p.recording in
            let (e, q) = send_piece gunzip session_id p d rr in
            let f = send_piece_fields p d rr in
            rw within (
              send_control-ends n r c e q (f.1 ∙ same)
                (omega
                  (arith, Reads-left until p (d, x, rr) h, ap (λ y. length (content gunzip y)) f.0))
                (subst (IsSoundReader gunzip) (sym f.0) h.sound))
      ]
  finish_control-ends n r c (done e p) k = tt
  finish_control-ends n r c crash k = tt
  finish_control-ends n r c out_of_fuel k = absurd k

  serve_control-ends :
      (fuel n : ℕ) (c : Control) (p : Playing)
      → left p < fuel
      → left p ≤ n
      → IsSoundReader gunzip p.recording
      → EndsWithin n p.controls (serve_control gunzip session_id fuel c p)
  unfolding serve_control
  serve_control-ends fuel n c p h le v = elim (Bool-cases (ltb c.offset p.bytes_sent)) [
    | inl missed ↦ rw missed tt
    | inr ahead ↦ rw ahead (
        finish_control-ends n p.controls c (skip_buffers gunzip session_id fuel c.offset p)
          (skip_buffers-ends fuel c.offset n p h le v))
  ]

  copy_round-ends :
      (p : Playing) (r : Reading) (rest : Playing → Outcome)
      → Reads gunzip copy_buffer_size (content gunzip p.recording) r
      → ((q : Playing) → left q < left p → IsSoundReader gunzip q.recording → rest q ≢ out_of_fuel)
      → copy_round gunzip session_id p r rest ≢ out_of_fuel
  copy_round-ends p (d, some e, rr) rest h again = ground arith
  copy_round-ends p (d, none, rr) rest h again = ground (
    arith,
    h.sound,
    h.progress refl,
    Reads-left copy_buffer_size p (d, none, rr) h,
    again (record p {
      recording = rr;
      w = (recording_write d session_id p.w).1;
      bytes_sent = p.bytes_sent + (recording_write d session_id p.w).0.0;
    }),
  )

  copy_recording-ends :
      (fuel : ℕ) (p : Playing)
      → left p < fuel
      → IsSoundReader gunzip p.recording
      → copy_recording gunzip session_id fuel p ≢ out_of_fuel
  unfolding copy_recording
  copy_recording-ends zero p h v = elim h [ ]
  copy_recording-ends (suc fuel) p h v =
      copy_round-ends p (read_recording gunzip copy_buffer_size p.recording)
        (λ q. copy_recording gunzip session_id fuel q)
        (read_recording-Reads gunzip copy_buffer_size p.recording v)
        (λ q lt w. copy_recording-ends fuel q (omega arith) w)

  served-ends :
      (n : ℕ) (r : ControlMessageReader) (o : Outcome) (again : Playing → Outcome)
      → EndsWithin n r o
      → ((q : Playing)
          → left q ≤ n
          → IsSoundReader gunzip q.recording
          → q.controls ≡ r
          → again q ≢ out_of_fuel)
      → served gunzip session_id o again ≢ out_of_fuel
  served-ends n r (next q) again (le, v, same) ends = ends q le v same
  served-ends n r (done e q) again k ends = λ h. cc
  served-ends n r crash again k ends = λ h. cc
  served-ends n r out_of_fuel again k ends = absurd k

  play_round-ends :
      (fuel n : ℕ) (p : Playing) (c : Result (Option Control)) (again : Playing → Outcome)
      → left p < fuel
      → left p ≤ n
      → IsSoundReader gunzip p.recording
      → ((m : Control)
          → c ≡ ok (some m)
          → (q : Playing) → left q ≤ n
          → IsSoundReader gunzip q.recording
          → q.controls ≡ p.controls
          → again q ≢ out_of_fuel)
      → play_round gunzip session_id fuel p c again ≢ out_of_fuel
  play_round-ends fuel n p (ok none) again h le v ends = copy_recording-ends fuel p h v
  play_round-ends fuel n p (ok (some m)) again h le v ends =
      served-ends n p.controls (serve_control gunzip session_id fuel m p) again
        (serve_control-ends fuel n m p h le v) (ends m refl)
  play_round-ends fuel n p (err e) again h le v ends = λ x. cc
  play_round-ends fuel n p panic again h le v ends = λ x. cc

  play-ends :
      (fuel : ℕ) (p : Playing)
      → left p + size p.controls + 1 < fuel
      → IsSoundReader gunzip p.recording
      → play gunzip session_id fuel p ≢ out_of_fuel
  unfolding play
  play-ends zero p h v = elim h [ ]
  play-ends (suc fuel) p h v =
      play_round-ends fuel (left p) (record p { controls = (pop p.controls).1 }) (pop p.controls).0
        (λ q. play gunzip session_id fuel q) (omega arith) (omega arith) v
        (λ m e q le w same.
          play-ends fuel q (omega (arith, pop-size p.controls m e, ap size same)) w)

module _ (gunzip : List ℕ → Result Stream) (session_id : String)
    (recordings controls : Cursor) where
  -- The playback of sound records ends, whatever the control track is and however the writer fails:
  -- fuel for each byte of the records, each byte of the control track and two more is enough.
  pub write_session_records-ends :
      (fuel : ℕ) (w : Writer)
      → AllSound gunzip recordings
      → length (records_bytes gunzip recordings)
          + size (new_control_message_reader gunzip controls)
          + 1
        < fuel
      → write_session_records gunzip session_id fuel (ok recordings) (ok controls) w ≢ out_of_fuel
  unfolding write_session_records
  write_session_records-ends fuel w v h =
      play-ends gunzip session_id fuel (start gunzip session_id recordings controls w) h (tt, v)
