-- ===== src/Recording/Write/Uncontrolled.antt =====
-- store/mongo/datastore_mongo.go: `WriteSessionRecords` of a session without control messages.
use deviceconnect.Prelude.{
  ℕ, zero, suc, ◌+◌, ◌<◌, ◌≡◌, ◌≢◌, refl, String, List, [], length, Option, none, some, arith, ◌==◌,
  if◌then◌else◌,
}
use deviceconnect.Errors.{Error, Result, ok}
use deviceconnect.Recording.Stream.{Stream, Cursor}
use deviceconnect.Recording.Reader.{read_recording, Reading}
use deviceconnect.Recording.Reader.Content.{AllSound, records_bytes}
use deviceconnect.Recording.Write.{
  Writer, recording_write, Playing, Outcome, done, out_of_fuel, copy_round, copy_recording, start,
  write_session_records, copy_buffer_size,
}
use deviceconnect.Recording.Write.Total.{write_session_records-ends}

module _ (gunzip : List ℕ → Result Stream) (session_id : String) where
  -- The copying of the output never fails, unless it lacks fuel.
  abbrev Copied : Outcome → Type 0
  Copied o = o ≢ out_of_fuel → (p : Playing) × (o ≡ done none p)

  copy_round-Copied :
      (p : Playing) (r : Reading) (rest : Playing → Outcome)
      → ((q : Playing) → Copied (rest q))
      → Copied (copy_round gunzip session_id p r rest)
  copy_round-Copied p (d, e, rr) rest again =
      let ((n, we), w') : (ℕ × Option Error) × Writer =
        if length d == 0 then ((0, none), p.w) else recording_write d session_id p.w in
      by_ends we e (record p { recording = rr; w = w'; bytes_sent = p.bytes_sent + n })
    where
      by_ends :
          (x y : Option Error) (q : Playing)
          → Copied (elim x [
            | some _ ↦ done none q
            | none ↦ elim y [ some _ ↦ done none q | none ↦ rest q ]
          ])
      by_ends (some x) y q h = (q, refl)
      by_ends none (some y) q h = (q, refl)
      by_ends none none q h = again q h

  copy_recording-Copied :
      (fuel : ℕ) (p : Playing) → Copied (copy_recording gunzip session_id fuel p)
  unfolding copy_recording
  copy_recording-Copied zero p = λ h. absurd (h refl)
  copy_recording-Copied (suc fuel) p =
      copy_round-Copied p (read_recording gunzip copy_buffer_size p.recording)
        (λ q. copy_recording gunzip session_id fuel q) (copy_recording-Copied fuel)

  pub write_session_records-uncontrolled :
      (fuel : ℕ) (recordings : Cursor) (w : Writer)
      → AllSound gunzip recordings
      → length (records_bytes gunzip recordings) + 1 < fuel
      → (p : Playing) × (write_session_records gunzip session_id fuel (ok recordings) (ok []) w
          ≡ done none p)
  unfolding write_session_records
  write_session_records-uncontrolled zero recordings w v h = elim h [ ]
  write_session_records-uncontrolled (suc fuel) recordings w v h =
      copy_recording-Copied fuel (start gunzip session_id recordings [] w)
        (write_session_records-ends gunzip session_id recordings [] (suc fuel) w v (omega arith))
