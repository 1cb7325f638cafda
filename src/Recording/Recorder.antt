-- ===== src/Recording/Recorder.antt =====
-- app/recorder.go and app/control_recorder.go, with `InsertSessionRecording` and
-- `InsertControlRecording` of store/mongo/datastore_mongo.go: what a recorder gets is compressed and
-- stored as a document of its session. `gzip` is a gzip writer that is reset, written to and closed.
pub mod Playback
use deviceconnect.Prelude.{
  ℕ, ◌+◌, String, Bool, ◌&&◌, List, [], ◌∷◌, length, Option, none, some, str_eq, ◌==◌,
  if◌then◌else◌,
}
use deviceconnect.Errors.{Error, Result, ok, err, panic, eof}
use deviceconnect.Store.Collection.{Collection}

-- `model.Recording` with the tenant that `mstore.WithTenantID` adds. `model.ControlData` is the
-- same with the field `Control` in the place of `Recording`.
pub record Recording : Type 0 where
  pub id : String
  pub tenant_id : String
  pub session_id : String
  pub recording : List ℕ
  pub created_ts : ℕ
  pub expire_ts : ℕ

-- The context of a request: its tenant, and what `uuid.New` and the clock give.
pub record Moment : Type 0 where
  pub tenant : String
  pub uuid : String
  pub now : ℕ

abbrev pub document_of : ℕ → Moment → String → List ℕ → Recording
document_of recording_expire m session_id session_bytes = record {
  id = m.uuid;
  tenant_id = m.tenant;
  session_id = session_id;
  recording = session_bytes;
  created_ts = m.now;
  expire_ts = m.now + recording_expire;
}

module _ (c : Collection Recording) (recording_expire : ℕ) where
  open c use {Db, insert_one}

  -- `InsertSessionRecording`, on the collection of recordings
  unfoldable pub insert_session_recording : Moment → String → List ℕ → Db → Option Error × Db
  insert_session_recording m session_id session_bytes =
      insert_one (document_of recording_expire m session_id session_bytes)

  -- `InsertControlRecording`, on the collection of control data
  unfoldable pub insert_control_recording : Moment → String → List ℕ → Db → Option Error × Db
  insert_control_recording m session_id session_bytes =
      insert_one (document_of recording_expire m session_id session_bytes)

  -- The end of `Write`: the number of bytes, or the error (with -1).
  abbrev pub written : List ℕ → Option Error × Db → Result ℕ × Db
  written d (none, db) = (ok (length d), db)
  written d (some e, db) = (err e, db)

  -- `output` is read back from the buffer as it is.
  abbrev pub stored :
      (List ℕ → Db → Option Error × Db) → List ℕ → Result (List ℕ) → Db → Result ℕ × Db
  stored insert d (ok output) db = written d (insert output db)
  stored insert d (err e) db = (err e, db)
  stored insert d panic db = (panic, db)

  -- `Recorder.Write`
  unfoldable pub recorder_write :
      (List ℕ → Result (List ℕ)) → Moment → String → List ℕ → Db → Result ℕ × Db
  unfolding insert_session_recording
  recorder_write gzip m session_id d db =
      if str_eq session_id ""
      then (ok 0, db)
      else stored (insert_session_recording m session_id) d (gzip d) db

  -- `ControlRecorder.Write`; the mutex lets one writer in at a time.
  unfoldable pub control_recorder_write :
      (List ℕ → Result (List ℕ)) → Moment → String → List ℕ → Db → Result ℕ × Db
  unfolding insert_control_recording
  control_recorder_write gzip m session_id d db =
      if str_eq session_id ""
      then (ok 0, db)
      else stored (insert_control_recording m session_id) d (gzip d) db
