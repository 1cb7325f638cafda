-- ===== src/Recording/Write/Crash.antt =====
-- `WriteSessionRecords` slices its 1024-byte buffer by a distance that it takes from the control
-- track, which outlives the recording.
use deviceconnect.Recording.Write.{served}
use deviceconnect.Prelude.{
  ℕ, zero, suc, ◌+◌, ◌-◌, ◌≤◌, ◌<◌, ◌≡◌, refl, ap, List, [], ◌++◌, length, length-append, some,
  true, false, ltb, arith, String, Bool-cases, inl, inr,
}
use deviceconnect.Errors.{Result, ok}
use deviceconnect.Control.{Control}
use deviceconnect.Recording.Stream.{Stream, Cursor}
use deviceconnect.Recording.ControlReader.{pop, new_control_message_reader}
use deviceconnect.Recording.Reader.{recording_read_buffer_size, read_recording, Reading}
use deviceconnect.Recording.Reader.Content.{
  content, IsSoundReader, read_recording-Reads, AllSound, records_bytes,
}
use deviceconnect.Recording.Write.{
  Playing, Outcome, next, done, crash, out_of_fuel, skip_buffers, skip_round, send_piece,
  serve_control, finish_control, play, start, write_session_records,
}
use deviceconnect.Recording.Write.Complete.{Keeps, send_piece-Keeps, started, output}
use deviceconnect.Recording.Write.Total.{skip_buffers-ends, EndsWithin, left}

module _ (gunzip : List ℕ → Result Stream) (session_id : String) (total : List ℕ) where
  -- Where no write fails, the inner loop leaves by its test or at the end of the recording.
  abbrev Skips : Outcome → Type 0
  Skips (next p) = Keeps gunzip session_id total p
  Skips (done e p) = ⊥
  Skips crash = ⊥
  Skips out_of_fuel = Unit {0}

  skip_round-Skips :
      (p : Playing) (r : Reading) (rest : Playing → Outcome)
      → Keeps gunzip session_id total p
      → r.0 ++ content gunzip r.2 ≡ content gunzip p.recording
      → IsSoundReader gunzip r.2
      → ((q : Playing) → Keeps gunzip session_id total q → Skips (rest q))
      → Skips (skip_round gunzip session_id p r rest)
  skip_round-Skips p (d, e, rr) rest k h v keep = ground (
    arith,
    send_piece-Keeps gunzip session_id total p d rr k h v,
    keep (send_piece gunzip session_id p d rr).1,
  )

  skip_buffers-Skips :
      (fuel offset : ℕ) (p : Playing)
      → Keeps gunzip session_id total p
      → Skips (skip_buffers gunzip session_id fuel offset p)
  unfolding skip_buffers
  skip_buffers-Skips zero offset p k = tt
  skip_buffers-Skips (suc fuel) offset p k =
      elim (Bool-cases (ltb recording_read_buffer_size (offset - p.bytes_sent))) [
        | inl more ↦
            let r = read_recording-Reads gunzip recording_read_buffer_size p.recording k.sound in
            rw more (
              skip_round-Skips p (read_recording gunzip recording_read_buffer_size p.recording)
                (λ q. skip_buffers gunzip session_id fuel offset q) k r.hands_out r.sound
                (skip_buffers-Skips fuel offset))
        | inr enough ↦ rw enough k
      ]

  finish_control-crash :
      (n : ℕ) (p : Playing) (c : Control) (o : Outcome)
      → length total + recording_read_buffer_size < c.offset
      → Skips o
      → EndsWithin gunzip session_id n p.controls o
      → finish_control gunzip session_id c o ≡ crash
  finish_control-crash n p c (next q) far k e =
      let short : q.bytes_sent ≤ length total = omega (
        arith,
        k.counts,
        ap length k.conserves,
        length-append (output q.w.sent) (content gunzip q.recording),
      ) in
      let beyond : ltb recording_read_buffer_size (c.offset - q.bytes_sent) ≡ true = ground arith in
      rw beyond
  finish_control-crash n p c (done x q) far k e = absurd k
  finish_control-crash n p c crash far k e = refl
  finish_control-crash n p c out_of_fuel far k e = absurd e

  serve_control-crash :
      (fuel : ℕ) (p : Playing) (c : Control)
      → Keeps gunzip session_id total p
      → left gunzip session_id p < fuel
      → length total + recording_read_buffer_size < c.offset
      → serve_control gunzip session_id fuel c p ≡ crash
  unfolding serve_control
  serve_control-crash fuel p c k h far =
      let short : p.bytes_sent ≤ length total = omega (
        arith,
        k.counts,
        ap length k.conserves,
        length-append (output p.w.sent) (content gunzip p.recording),
      ) in
      let ahead : ltb c.offset p.bytes_sent ≡ false = ground arith in
      rw ahead (
        finish_control-crash (left gunzip session_id p) p c
          (skip_buffers gunzip session_id fuel c.offset p) far
          (skip_buffers-Skips fuel c.offset p k)
          (skip_buffers-ends gunzip session_id fuel c.offset (left gunzip session_id p) p h
            (omega arith) k.sound))

module _ (gunzip : List ℕ → Result Stream) (session_id : String)
    (recordings controls : Cursor) where
  -- Where the records are sound, no write fails and there is fuel for every byte of the records, a
  -- first control message that points more than 1024 bytes past the end of the recording makes
  -- the playback panic: the slice of the buffer is out of range.
  pub write_session_records-crash :
      (fuel : ℕ) (m : Control)
      → AllSound gunzip recordings
      → (pop (new_control_message_reader gunzip controls)).0 ≡ ok (some m)
      → length (records_bytes gunzip recordings) + recording_read_buffer_size < m.offset
      → length (records_bytes gunzip recordings) < fuel
      → write_session_records gunzip session_id
          (suc fuel)
          (ok recordings)
          (ok controls)
          (record { sent = []; faults = [] })
        ≡ crash
  unfolding write_session_records
  write_session_records-crash fuel m v popped far h =
      let total = records_bytes gunzip recordings in
      let first = start gunzip session_id recordings controls (record { sent = []; faults = [] }) in
      let k = started gunzip session_id recordings controls v in
      let p = record first { controls = (pop first.controls).1 } in
      rw popped (
        ap (λ o. served gunzip session_id o (λ q. play gunzip session_id fuel q))
          (serve_control-crash gunzip session_id total fuel p m
            (record {
              conserves = k.conserves;
              counts = k.counts;
              sound = k.sound;
              no_faults = k.no_faults;
            })
            h far))
