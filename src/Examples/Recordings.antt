-- ===== src/Examples/Recordings.antt =====
-- Recordings and control tracks: two records of output, and control messages.
use deviceconnect.Prelude.{
  ℕ, zero, suc, ◌*◌, List, [], ◌∷◌, ◌++◌, length, Option, none, some, ◌≡◌, ◌≢◌, refl, arith,
}
use deviceconnect.Errors.{Error, Result, ok, short_write}
use deviceconnect.Control.{
  Control, delay_message, resize_message, zero_control, marshal_binary, unmarshal_binary,
}
use deviceconnect.Control.RoundTrip.{IsControl, delay, resize, unmarshal_binary-marshal_binary}
use deviceconnect.Recording.Stream.{Stream, end, chunk, Cursor}
use deviceconnect.Recording.ControlReader.{new_control_message_reader, pop}
use deviceconnect.Recording.ControlReader.Pops.{
  pops, messages, nils, marshal_all, All, pops-new_control_message_reader, pops_straddle,
}
use deviceconnect.Recording.Reader.{new_recording_reader, read_recording}
use deviceconnect.Recording.Reader.Content.{content, AllSound, Reads, read_recording-Reads}
use deviceconnect.Recording.Write.{
  Playing, Outcome, next, done, crash, out_of_fuel, write_session_records,
}
use deviceconnect.Recording.Write.Complete.{output, write_session_records-output}
use deviceconnect.Recording.Write.Total.{write_session_records-ends}
use deviceconnect.Recording.Write.Crash.{write_session_records-crash}

abbrev pause : Control
pause = record {
  type = delay_message;
  offset = 3;
  delay_ms = 2000;
  terminal_width = 0;
  terminal_height = 0;
}

abbrev resized : Control
resized = record {
  type = resize_message;
  offset = 5000;
  delay_ms = 0;
  terminal_width = 80;
  terminal_height = 24;
}

abbrev pause-IsControl : IsControl pause
pause-IsControl = delay refl (omega arith) (omega arith) refl refl

abbrev resized-IsControl : IsControl resized
resized-IsControl = resize refl (omega arith) refl (omega arith) (omega arith)

-- Bytes that decompress to themselves, in one piece.
abbrev plain : List ℕ → Result Stream
plain bs = ok (chunk bs end)

abbrev records : Cursor
records = ok (104 ∷ 101 ∷ 108 ∷ []) ∷ ok (108 ∷ 111 ∷ []) ∷ []

abbrev records-AllSound : AllSound plain records
records-AllSound = (((omega arith, tt), omega arith), (((omega arith, tt), omega arith), tt))

unmarshal_binary-marshal_binary_example :
    unmarshal_binary zero_control (marshal_binary resized ++ (7 ∷ [])) ≡ ok resized
unmarshal_binary-marshal_binary_example =
    unmarshal_binary-marshal_binary resized (7 ∷ []) resized-IsControl

pops-new_control_message_reader_example :
    pops 3 (new_control_message_reader plain (ok (marshal_all (pause ∷ resized ∷ [])) ∷ []))
    ≡ ok (some pause) ∷ ok (some resized) ∷ ok none ∷ []
unfolding marshal_binary
pops-new_control_message_reader_example =
    pops-new_control_message_reader plain (marshal_all (pause ∷ resized ∷ [])) []
      (pause ∷ resized ∷ []) 1 (pause-IsControl, (resized-IsControl, tt)) (omega arith) refl

read_recording-Reads_example :
    Reads plain 2
      (content plain (new_recording_reader records))
      (read_recording plain 2 (new_recording_reader records))
read_recording-Reads_example =
    read_recording-Reads plain 2 (new_recording_reader records) (tt, records-AllSound)

abbrev pauses : ℕ → List Control
pauses zero = []
pauses (suc n) = pause ∷ pauses n

pauses-All : (n : ℕ) → All IsControl (pauses n)
pauses-All zero = tt
pauses-All (suc n) = (pause-IsControl, pauses-All n)

length-pauses : (n : ℕ) → length (marshal_all (pauses n)) ≡ 7 * n
unfolding marshal_binary
length-pauses zero = refl
length-pauses (suc n) = ground (arith, length-pauses n)

pops_straddle_example :
    pops 600 (
      new_control_message_reader plain (
        ok (marshal_all (pauses 585) ++ (marshal_binary pause ++ marshal_all (resized ∷ []))) ∷ []))
    ≡ messages (pauses 585) ++ nils 15
unfolding marshal_binary
pops_straddle_example =
    pops_straddle plain
      (marshal_all (pauses 585) ++ (marshal_binary pause ++ marshal_all (resized ∷ []))) []
      (pauses 585) (resized ∷ []) pause end 15 (pauses-All 585) pause-IsControl
      (omega (arith, length-pauses 585)) (omega (arith, length-pauses 585)) refl

abbrev run : Outcome
run =
    write_session_records plain "s1" 30 (ok records) (ok (ok (marshal_binary pause) ∷ []))
      (record { sent = []; faults = [] })

abbrev played : Outcome → Playing
played (done e p) = p
played (next p) = p
played _ = record {
  controls = new_control_message_reader plain [];
  recording = new_recording_reader [];
  w = record { sent = []; faults = [] };
  bytes_sent = 0;
}

write_session_records-output_example :
    (◌≡◌ {A = Option Error} none none
      → output (played run).w.sent ≡ 104 ∷ 101 ∷ 108 ∷ 108 ∷ 111 ∷ [])
    × ((rest : List ℕ) × (output (played run).w.sent ++ rest ≡ 104 ∷ 101 ∷ 108 ∷ 108 ∷ 111 ∷ []))
unfolding write_session_records marshal_binary unmarshal_binary
write_session_records-output_example =
    write_session_records-output plain "s1" records 30 (ok (marshal_binary pause) ∷ []) none
      (played run) records-AllSound refl

write_session_records-ends_example :
    write_session_records plain "s1" 30
      (ok records)
      (ok (ok (marshal_binary pause) ∷ []))
      (record { sent = []; faults = some short_write ∷ [] })
    ≢ out_of_fuel
unfolding marshal_binary new_control_message_reader
write_session_records-ends_example =
    write_session_records-ends plain "s1" records (ok (marshal_binary pause) ∷ []) 30
      (record { sent = []; faults = some short_write ∷ [] }) records-AllSound (omega arith)

write_session_records-crash_example :
    write_session_records plain "s1" 10
      (ok records)
      (ok (ok (marshal_binary resized) ∷ []))
      (record { sent = []; faults = [] })
    ≡ crash
unfolding marshal_binary pop new_control_message_reader unmarshal_binary
write_session_records-crash_example =
    write_session_records-crash plain "s1" records (ok (marshal_binary resized) ∷ []) 9 resized
      records-AllSound refl (omega arith) (omega arith)
