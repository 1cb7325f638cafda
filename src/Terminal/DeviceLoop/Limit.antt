-- ===== src/Terminal/DeviceLoop/Limit.antt =====
-- api/http/management.go: what holds of the device's messages while they are passed on.
use deviceconnect.Prelude.{ℕ, List, [], ◌∷◌, length, if◌then◌else◌, ◌≡◌}
use deviceconnect.Session.{Session}
use deviceconnect.Terminal.DeviceLoop.{DeviceLoop, limit_stop}

module _ (to_ms : ℕ → ℕ) (limit_text : List ℕ) (s : Session) where
  -- The limit is handled once, when the loop first finds that it is reached; and the bytes are
  -- counted as they are recorded.
  pub record IsLimited (l : DeviceLoop) : Type 0 where
    pub handled : l.sess_over_limit_handled ≡ l.sess_over_limit
    pub stops : l.stops ≡ (if l.sess_over_limit then limit_stop limit_text s ∷ [] else [])
    pub frees : l.frees ≡ (if l.sess_over_limit then 1 else 0)
    pub counts : l.recorded_bytes ≡ length l.recorded
