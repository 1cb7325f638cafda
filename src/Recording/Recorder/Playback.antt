-- ===== src/Recording/Recorder/Playback.antt =====
-- What was recorded is what is played back: the recorder, the collection of recordings, and
-- `WriteSessionRecords` together.
use deviceconnect.Prelude.{
  ℕ, ◌+◌, ◌<◌, String, Bool, ◌&&◌, List, [], ◌∷◌, ◌++◌, length, append_assoc, append-nil, Option,
  none, some, str_eq, str_eq_iff, leb, if◌then◌else◌, if_elim, ◌≡◌, ◌≢◌, refl, sym, ap, ◌∙◌, arith,
}
use mathlib.Core.Path.{subst}
use deviceconnect.Errors.{Error, Result, ok, err, panic}
use deviceconnect.Store.Collection.{Collection}
use deviceconnect.Recording.Stream.{Stream, Cursor}
use deviceconnect.Recording.Reader.Content.{IsSoundRecord, AllSound, records_bytes, bytes_of}
use deviceconnect.Recording.Write.{Playing, done, write_session_records}
use deviceconnect.Recording.Write.Complete.{output, write_session_records-output}
use deviceconnect.Recording.Write.Uncontrolled.{write_session_records-uncontrolled}
use deviceconnect.Recording.Recorder.{
  Recording, Moment, document_of, recorder_write, stored, written, insert_session_recording,
}

-- A write to a recorder, with the moment at which it is made.
abbrev pub Writes : Type 0
Writes = List (Moment × List ℕ)

-- The bytes of all writes.
abbrev pub joined : Writes → List ℕ
joined [] = []
joined ((m, d) ∷ ws) = d ++ joined ws

-- The writes are of one tenant, come one after the other, and none is empty (`bufio.Writer` makes
-- no empty one).
abbrev pub AreWrites : String → ℕ → Writes → Type 0
AreWrites tenant last [] = Unit {0}
AreWrites tenant last ((m, d) ∷ ws) =
    (m.tenant ≡ tenant) × (last < m.now) × (0 < length d) × AreWrites tenant m.now ws

-- The filter of `Find` in `WriteSessionRecords`, and its sorting by `created_ts`.
abbrev pub is_recording : String → String → Recording → Bool
is_recording tenant session_id r = str_eq r.session_id session_id && str_eq r.tenant_id tenant

abbrev pub select : (Recording → Bool) → List Recording → List Recording
select p [] = []
select p (r ∷ rs) = if p r then r ∷ select p rs else select p rs

abbrev pub insert_by_time : Recording → List Recording → List Recording
insert_by_time r [] = r ∷ []
insert_by_time r (x ∷ xs) =
    if leb r.created_ts x.created_ts then r ∷ x ∷ xs else x ∷ insert_by_time r xs

abbrev pub sort_by_time : List Recording → List Recording
sort_by_time [] = []
sort_by_time (r ∷ rs) = insert_by_time r (sort_by_time rs)

-- The cursor over the documents that `Find` selects.
abbrev pub cursor_of : List Recording → Cursor
cursor_of [] = []
cursor_of (r ∷ rs) = ok r.recording ∷ cursor_of rs

module _ (c : Collection Recording) (recording_expire : ℕ) (gzip : List ℕ → Result (List ℕ))
    (session_id : String) where
  open c use {Db, docs}

  -- The recorder gets the writes one after the other; `none` where one of them fails.
  unfoldable pub record_all : Writes → Db → Option Db
  unfolding recorder_write
  record_all [] db = some db
  record_all ((m, d) ∷ ws) db =
      let (r, db') = recorder_write c recording_expire gzip m session_id d db in
      let rest = record_all ws db' in elim r [ ok n ↦ rest | _ ↦ none ]

  -- The documents that the writes leave.
  abbrev Recorded : Writes → List Recording → Type 0
  Recorded [] rs = rs ≡ []
  Recorded ((m, d) ∷ ws) rs =
      (z : List ℕ) × (rest : List Recording) × (gzip d ≡ ok z)
      × (rs ≡ document_of recording_expire m session_id z ∷ rest)
      × Recorded ws rest

  recorder_write-ok :
      (m : Moment) (d : List ℕ) (db : Db) (n : ℕ)
      → session_id ≢ ""
      → (recorder_write c recording_expire gzip m session_id d db).0 ≡ ok n
      → (z : List ℕ) × (gzip d ≡ ok z)
        × (docs (recorder_write c recording_expire gzip m session_id d db).1
            ≡ docs db ++ (document_of recording_expire m session_id z ∷ []))
  unfolding recorder_write
  recorder_write-ok m d db n named =
      if_elim P (str_eq session_id "") (ok 0, db)
        (stored c recording_expire (insert_session_recording c recording_expire m session_id) d
          (gzip d) db)
        (λ e. absurd (named ((str_eq_iff session_id "").0 e))) (λ _. by_gzip (gzip d) refl)
    where
      P : Result ℕ × Db → Type 0
      P (r, db') =
          r ≡ ok n
          → (z : List ℕ) × (gzip d ≡ ok z)
            × (docs db' ≡ docs db ++ (document_of recording_expire m session_id z ∷ []))

      by_gzip :
          (x : Result (List ℕ))
          → gzip d ≡ x
          → P (
              stored c recording_expire
                (insert_session_recording c recording_expire m session_id)
                d
                x
                db)
      by_gzip (ok z) e =
          by_insert (c.insert_one (document_of recording_expire m session_id z) db).0 refl
        where
          by_insert :
              (x : Option Error)
              → (c.insert_one (document_of recording_expire m session_id z) db).0 ≡ x
              → P (
                  written c recording_expire d
                    (x, (c.insert_one (document_of recording_expire m session_id z) db).1))
          by_insert none i = λ h. (z, e, c.insert_one_done _ db i)
          by_insert (some y) i = λ h. absurd cc
      by_gzip (err y) e = λ h. absurd cc
      by_gzip panic e = λ h. absurd cc

  record_all-Recorded :
      (ws : Writes) (db db' : Db)
      → session_id ≢ ""
      → record_all ws db ≡ some db'
      → (rs : List Recording) × (docs db' ≡ docs db ++ rs) × Recorded ws rs
  unfolding record_all
  record_all-Recorded [] db db' named =
      λ h. let same : db ≡ db' = cc in ([], sym (append-nil (docs db) ∙ ap docs same), refl)
  record_all-Recorded ((m, d) ∷ ws) db db' named =
      by_write (recorder_write c recording_expire gzip m session_id d db).0 refl (
        record_all-Recorded ws (recorder_write c recording_expire gzip m session_id d db).1 db'
          named)
    where
      next_db : Db
      next_db = (recorder_write c recording_expire gzip m session_id d db).1

      by_write :
          (x : Result ℕ)
          → (recorder_write c recording_expire gzip m session_id d db).0 ≡ x
          → (record_all ws next_db ≡ some db'
              → (rs : List Recording) × (docs db' ≡ docs next_db ++ rs) × Recorded ws rs)
          → (elim x as (λ _. Option Db) [ ok n ↦ record_all ws next_db | _ ↦ none ]) ≡ some db'
          → (rs : List Recording) × (docs db' ≡ docs db ++ rs) × Recorded ((m, d) ∷ ws) rs
      by_write (ok n) e ih h =
          let (z, zipped, stored_one) = recorder_write-ok m d db n named e in
          let (rs, all, recorded) = ih h in
          let r = document_of recording_expire m session_id z in
          (
            r ∷ rs,
            all ∙ (ap (λ x. x ++ rs) stored_one ∙ append_assoc (docs db) (r ∷ []) rs),
            (z, rs, zipped, refl, recorded),
          )
      by_write (err x) e ih h = absurd cc
      by_write panic e ih h = absurd cc

  select-Recorded :
      (tenant : String) (last : ℕ) (ws : Writes) (rs : List Recording)
      → AreWrites tenant last ws
      → Recorded ws rs
      → select (is_recording tenant session_id) rs ≡ rs
  select-Recorded tenant last [] rs a e = rw e
  select-Recorded tenant last ((m, d) ∷ ws) rs (t, l, n, a) (z, rest, zipped, e, r) = rw e (
      ground (
        arith,
        str_eq_iff session_id session_id,
        str_eq_iff m.tenant tenant,
        select-Recorded tenant m.now ws rest a r,
      ))

  -- A document that is older than all others stays first.
  insert_by_time-Recorded :
      (tenant : String) (last : ℕ) (ws : Writes) (rs : List Recording) (x : Recording)
      → AreWrites tenant last ws
      → Recorded ws rs
      → x.created_ts ≡ last
      → insert_by_time x rs ≡ x ∷ rs
  insert_by_time-Recorded tenant last [] rs x a e h = rw e
  insert_by_time-Recorded tenant last ((m, d) ∷ ws) rs x (t, l, n, a) (z, rest, zipped, e, r) h =
      rw e (ground arith)

  sort_by_time-Recorded :
      (tenant : String) (last : ℕ) (ws : Writes) (rs : List Recording)
      → AreWrites tenant last ws
      → Recorded ws rs
      → sort_by_time rs ≡ rs
  sort_by_time-Recorded tenant last [] rs a e = rw e
  sort_by_time-Recorded tenant last ((m, d) ∷ ws) rs (t, l, n, a) (z, rest, zipped, e, r) =
      let x = document_of recording_expire m session_id z in
      rw e (
        ap (insert_by_time x) (sort_by_time-Recorded tenant m.now ws rest a r)
        ∙ insert_by_time-Recorded tenant m.now ws rest x a r refl)

  -- What is recorded can be read: `gunzip` undoes `gzip`, and its streams end well.
  abbrev pub IsUndone : (List ℕ → Result Stream) → Type 0
  IsUndone gunzip =
      (d z : List ℕ)
      → gzip d ≡ ok z
      → 0 < length d
      → IsSoundRecord (gunzip z) × (bytes_of (gunzip z) ≡ d)

  cursor_of-Recorded :
      (gunzip : List ℕ → Result Stream) (tenant : String) (last : ℕ) (ws : Writes)
      (rs : List Recording)
      → IsUndone gunzip
      → AreWrites tenant last ws
      → Recorded ws rs
      → AllSound gunzip (cursor_of rs) × (records_bytes gunzip (cursor_of rs) ≡ joined ws)
  cursor_of-Recorded gunzip tenant last [] rs u a e = rw e (tt, refl)
  cursor_of-Recorded gunzip tenant last ((m, d) ∷ ws) rs u (t, l, n, a) (z, rest, zipped, e, r) =
      let (sound, same) = u d z zipped n in
      let (all, tail) = cursor_of-Recorded gunzip tenant m.now ws rest u a r in
      rw e (
        (sound, all),
        (ap (λ x. x ++ records_bytes gunzip (cursor_of rest)) same ∙ ap (λ x. d ++ x) tail),
      )

  select-append :
      (p : Recording → Bool) (xs ys : List Recording)
      → select p (xs ++ ys) ≡ select p xs ++ select p ys
  select-append p [] ys = refl
  select-append p (x ∷ xs) ys = ground (arith, select-append p xs ys)

  -- The records of a session that was not recorded before.
  found-Recorded :
      (tenant : String) (last : ℕ) (ws : Writes) (db db' : Db)
      → session_id ≢ ""
      → select (is_recording tenant session_id) (docs db) ≡ []
      → AreWrites tenant last ws
      → record_all ws db ≡ some db'
      → Recorded ws (sort_by_time (select (is_recording tenant session_id) (docs db')))
  found-Recorded tenant last ws db db' named fresh a h =
      let (rs, all, recorded) = record_all-Recorded ws db db' named h in
      let mine = is_recording tenant session_id in
      let found : select mine (docs db') ≡ rs =
        ap (select mine) all
        ∙ (select-append mine (docs db) rs
            ∙ (ap (λ x. x ++ select mine rs) fresh
                ∙ select-Recorded tenant last ws rs a recorded)) in
      subst (Recorded ws)
        (sym (ap sort_by_time found ∙ sort_by_time-Recorded tenant last ws rs a recorded)) recorded

  -- A named session that was not recorded before, and whose terminal output the recorder took without
  -- an error in writes at increasing times, none of them empty, plays back as it was: where no
  -- control messages were recorded, the writer does not fail and the fuel exceeds the bytes by more
  -- than one, `WriteSessionRecords` ends without an error and the bodies of the messages that it sent
  -- are the bytes of all writes, in order. (`gunzip` undoes `gzip`, and `Find` gives the documents
  -- sorted by their time.)
  pub record_all-playback :
      (gunzip : List ℕ → Result Stream) (tenant : String) (last fuel : ℕ) (ws : Writes)
      (db db' : Db)
      → IsUndone gunzip
      → session_id ≢ ""
      → select (is_recording tenant session_id) (docs db) ≡ []
      → AreWrites tenant last ws
      → record_all ws db ≡ some db'
      → length (joined ws) + 1 < fuel
      → let found = cursor_of (sort_by_time (select (is_recording tenant session_id) (docs db'))) in
        (p : Playing) × (write_session_records gunzip session_id fuel
            (ok found)
            (ok [])
            (record { sent = []; faults = [] })
          ≡ done none p)
        × (output p.w.sent ≡ joined ws)
  record_all-playback gunzip tenant last fuel ws db db' u named fresh a h enough =
      let rs = sort_by_time (select (is_recording tenant session_id) (docs db')) in
      let (sound, same) =
        cursor_of-Recorded gunzip tenant last ws rs u a
          (found-Recorded tenant last ws db db' named fresh a h) in
      let (p, e) =
        write_session_records-uncontrolled gunzip session_id fuel (cursor_of rs)
          (record { sent = []; faults = [] }) sound (omega (arith, ap length same)) in
      (
        p,
        e,
        (write_session_records-output gunzip session_id (cursor_of rs) fuel [] none p sound e).0
              refl
            ∙ same,
      )
