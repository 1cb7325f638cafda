-- ===== src/Recording/Reader.antt =====
-- store/mongo/recording_reader.go: the terminal output of a session as one stream of bytes, out of
-- gzip-compressed records.
pub mod Content
use deviceconnect.Prelude.{
  ℕ, List, [], ◌∷◌, length, take, drop, Option, none, some, Bool, true, false, ltb, ◌==◌, ◌||◌,
  if◌then◌else◌,
}
use deviceconnect.Errors.{Error, Result, ok, err, panic, eof}
use deviceconnect.Recording.Stream.{Stream, read, is_failure, is_eof, Cursor}

abbrev pub recording_read_buffer_size : ℕ
recording_read_buffer_size = 1024

pub record RecordingReader : Type 0 where
  pub c : Cursor
  -- decompressed bytes that did not fit the caller's buffer
  pub output : List ℕ
  -- nil before the first record and after the end of one
  pub gzip_reader : Option Stream

-- `NewRecordingReader`
abbrev pub new_recording_reader : Cursor → RecordingReader
new_recording_reader c = record { c = c; output = []; gzip_reader = none }

-- What `Read` returns: the bytes copied to the buffer, the error, and the reader.
abbrev pub Reading : Type 0
Reading = List ℕ × Option Error × RecordingReader

-- The copies at the ends of `Read`: `output[:n]` into a buffer of length `size`.
abbrev deliver : ℕ → List ℕ → RecordingReader → Reading
deliver size out rr =
    if ltb (length out) size
    then (out, none, record rr { output = [] })
    else (take size out, none, record rr { output = drop size out })

-- The first read of a record.
abbrev begin : ℕ → RecordingReader → List ℕ × Option Error × Stream → Reading
begin size rr (out, e, s) =
    if is_failure e
    then ([], e, record rr { output = []; gzip_reader = none })
    else if length out == 0
    then ([], some eof, record rr { output = []; gzip_reader = none })
    else deliver size out (record rr { gzip_reader = some s })

abbrev open_record : ℕ → RecordingReader → Result Stream → Reading
open_record size rr (ok s) = begin size rr (read recording_read_buffer_size s)
open_record size rr (err e) = ([], some e, rr)
open_record size rr panic = ([], none, rr)

module _ (gunzip : List ℕ → Result Stream) where
  -- `Read` from `rr.c.Next` on: the buffer and the gzip stream are used up.
  unfoldable pub read_next : ℕ → RecordingReader → Cursor → Reading
  read_next size rr [] = ([], some eof, rr)
  read_next size rr (ok recording ∷ c) = open_record size (record rr { c = c }) (gunzip recording)
  read_next size rr (err e ∷ c) = ([], some e, record rr { c = c })
  read_next size rr (panic ∷ c) = ([], none, record rr { c = c })

  -- `Read` inside a record: more of its gzip stream. At its end `Read` calls itself, and goes on
  -- with the next record; bytes that came together with `io.EOF` are not used.
  abbrev continue_record : ℕ → RecordingReader → List ℕ × Option Error × Stream → Reading
  continue_record size rr (out, e, s) =
      let closed = record rr { output = []; gzip_reader = none } in
      if is_failure e
      then ([], e, closed)
      else if length out == 0 || is_eof e
      then read_next size closed rr.c
      else deliver size out (record rr { gzip_reader = some s })

  abbrev read_more : ℕ → RecordingReader → Option Stream → Reading
  read_more size rr none = read_next size rr rr.c
  read_more size rr (some s) = continue_record size rr (read recording_read_buffer_size s)

  -- `Read(buffer)` with `len(buffer) = size`
  unfoldable pub read_recording : ℕ → RecordingReader → Reading
  unfolding read_next
  read_recording size rr =
      if ltb (length rr.output) 1
      then read_more size rr rr.gzip_reader
      else deliver size rr.output rr
