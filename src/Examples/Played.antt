-- ===== src/Examples/Played.antt =====
-- A session is recorded in two writes, and played back.
use deviceconnect.Prelude.{ℕ, ◌<◌, List, [], ◌∷◌, length, none, ◌≡◌, refl, arith, append-nil, sym}
use mathlib.Core.Path.{subst}
use deviceconnect.Errors.{Result, ok}
use deviceconnect.Recording.Recorder.{Recording, Moment}
use deviceconnect.Recording.Recorder.Playback.{
  Writes, is_recording, select, sort_by_time, cursor_of, record_all, IsUndone, record_all-playback,
}
use deviceconnect.Recording.Reader.Content.{IsSoundRecord, bytes_of}
use deviceconnect.Recording.Stream.{Stream, end, chunk}
use deviceconnect.Recording.Write.{Playing, done, write_session_records}
use deviceconnect.Recording.Write.Complete.{output}
use deviceconnect.Examples.Database.{listed}

-- A compression that leaves the bytes as they are.
abbrev stored_as : List ℕ → Result (List ℕ)
stored_as bs = ok bs

abbrev plain : List ℕ → Result Stream
plain bs = ok (chunk bs end)

abbrev at : ℕ → Moment
at now = record { tenant = "acme"; uuid = "r"; now = now }

abbrev writes : Writes
writes = (at 5, 104 ∷ 105 ∷ []) ∷ (at 8, 33 ∷ []) ∷ []

plain-IsUndone : IsUndone (listed Recording) 60 stored_as "s1" plain
plain-IsUndone d z e h =
    let same : d ≡ z = cc in
    subst (λ x. IsSoundRecord (plain x) × (bytes_of (plain x) ≡ d)) same
      (((h, tt), subst (λ x. 0 < length x) (sym (append-nil d)) h), append-nil d)

abbrev kept : List Recording
kept =
    record {
      id = "r";
      tenant_id = "acme";
      session_id = "s1";
      recording = 104 ∷ 105 ∷ [];
      created_ts = 5;
      expire_ts = 65;
    }
    ∷ record {
      id = "r";
      tenant_id = "acme";
      session_id = "s1";
      recording = 33 ∷ [];
      created_ts = 8;
      expire_ts = 68;
    }
    ∷ []

record_all-playback_example :
    let found = cursor_of (sort_by_time (select (is_recording "acme" "s1") kept)) in
    (p : Playing) × (write_session_records plain "s1" 9
        (ok found)
        (ok [])
        (record { sent = []; faults = [] })
      ≡ done none p)
    × (output p.w.sent ≡ 104 ∷ 105 ∷ 33 ∷ [])
unfolding record_all
record_all-playback_example =
    record_all-playback (listed Recording) 60 stored_as "s1" plain "acme" 0 9 writes [] kept
      plain-IsUndone (λ e. absurd cc) refl
      (refl, omega arith, omega arith, (refl, omega arith, omega arith, tt)) refl (omega arith)
