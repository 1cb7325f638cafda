-- ===== src/Terminal/Playback.antt =====
-- api/http/management.go: `Playback`, the request that plays a recording back, and app/playback.go: the
-- writer that hands the recording's messages to the user's websocket.
use deviceconnect.Prelude.{
  ℕ, ◌+◌, String, Bool, true, false, List, [], ◌∷◌, ◌++◌, length, Option, none, some, ltb,
  if◌then◌else◌,
}
use deviceconnect.Errors.{Error, wrap}
use deviceconnect.FileTransfer.Requests.{missing_user_authentication}
use deviceconnect.Http.Replies.{Replies, error_reply}

-- app/playback.go
abbrev pub default_playback_sleep_interval_ms : ℕ
default_playback_sleep_interval_ms = 100

-- `nats.Msg`, as far as it is set.
pub record PlaybackMessage : Type 0 where
  pub subject : String
  pub reply : String
  pub data_sent : List ℕ

-- `deviceChan`, and how many milliseconds were slept before its messages.
pub record Playback : Type 0 where
  pub sleep_milliseconds : ℕ
  pub device_chan : List PlaybackMessage
  pub slept : ℕ

abbrev pub new_playback : ℕ → Playback
new_playback sleep = record { sleep_milliseconds = sleep; device_chan = []; slept = 0 }

-- `Playback.Write`
unfoldable pub playback_write : List ℕ → Playback → ℕ × Playback
playback_write d p = (
  length d,
  record p {
    device_chan =
        p.device_chan ++ (record { subject = "playback"; reply = "no-reply"; data_sent = d } ∷ []);
    slept = p.slept + p.sleep_milliseconds;
  },
)

-- The interval: `size` is `len(sleepInterval)`, and `parsed` what `strconv.ParseUint` gives. Its
-- number is taken where there is an error.
unfoldable pub sleep_interval : ℕ → ℕ × Option Error → ℕ
sleep_interval size parsed =
    if ltb 1 size
    then (elim parsed.1 [ some e ↦ parsed.0 | none ↦ default_playback_sleep_interval_ms ])
    else default_playback_sleep_interval_ms

-- What the handler did: its answer, the writer that `GetSessionRecording` got, and the error that was
-- put into `errChan`.
pub record PlaybackServed : Type 0 where
  pub replies : Replies
  pub playback : Option Playback
  pub propagated : Option Error

abbrev pub not_got : Option Error → Option Error
not_got none = none
not_got (some e) = some (wrap e "unable to get the session.")

-- `Playback`; `upgraded` is how the upgrade ends, and `get_session_recording` writes the messages and
-- gives its error.
unfoldable pub playback_handler :
    Bool
    → ℕ
    → ℕ × Option Error
    → Option Error
    → (Playback → Option Error × Playback)
    → PlaybackServed
unfolding sleep_interval
playback_handler false size parsed upgraded get_session_recording = record {
  replies = error_reply 400 missing_user_authentication ∷ [];
  playback = none;
  propagated = none;
}
playback_handler true size parsed (some e) get_session_recording = record {
  replies = [];
  playback = none;
  propagated = none;
}
playback_handler true size parsed none get_session_recording =
    let (e, p) = get_session_recording (new_playback (sleep_interval size parsed)) in
    record { replies = []; playback = some p; propagated = not_got e }
