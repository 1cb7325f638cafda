-- ===== src/Device/Writer/Relayed.antt =====
-- api/http/device.go: what the writer of a device's websocket has passed on when it ends.
use deviceconnect.Prelude.{
  ℕ, List, [], ◌∷◌, ◌++◌, append_assoc, append-nil, Bool, true, false, Option, none, some, ◌≡◌,
  refl, sym, ap, ◌∙◌,
}
use deviceconnect.Errors.{Error}
use deviceconnect.Device.Writer.{
  Event, relayed, context_cancelled, tick, from_reader, Status, running, returned, Writer,
  new_writer, closed_by_server, connection_timeout, writer_step, writer_loop, close_frame,
  connect_ws_writer,
}

-- The messages up to the first event that ends the loop.
abbrev pub passed_on : List Event → List (List ℕ)
passed_on [] = []
passed_on (relayed d none ∷ events) = d ∷ passed_on events
passed_on (tick true ∷ events) = passed_on events
passed_on (_ ∷ events) = []

-- The error that ends the loop, if an event ends it.
abbrev pub first_end : List Event → Option (Option Error)
first_end [] = none
first_end (relayed d none ∷ events) = first_end events
first_end (relayed d (some e) ∷ events) = some (some e)
first_end (context_cancelled ∷ events) = some (some closed_by_server)
first_end (tick true ∷ events) = first_end events
first_end (tick false ∷ events) = some (some connection_timeout)
first_end (from_reader e ∷ events) = some e

abbrev status_of : Option (Option Error) → Status
status_of none = running
status_of (some e) = returned e

writer_loop-continues :
    (w : Writer) (e : Event) (events : List Event)
    → (writer_step w e).status ≡ running
    → writer_loop w (e ∷ events) ≡ writer_loop (writer_step w e) events
unfolding writer_loop
writer_loop-continues w e events h =
    ap
      (λ s. elim s as (λ _. Writer) [
        | running ↦ writer_loop (writer_step w e) events
        | returned _ ↦ writer_step w e
      ])
      h

writer_loop-passed_on :
    (w : Writer) (events : List Event)
    → w.status ≡ running
    → ((writer_loop w events).status ≡ status_of (first_end events))
      × ((writer_loop w events).written ≡ w.written ++ passed_on events)
unfolding writer_loop writer_step
writer_loop-passed_on w [] = λ r. (r, sym (append-nil w.written))
writer_loop-passed_on w (relayed d none ∷ events) = λ r.
    let w' : Writer = record w { written = w.written ++ (d ∷ []) } in
    let (s, all) = writer_loop-passed_on w' events r in
    let on = writer_loop-continues w (relayed d none) events r in
    (
      ap (λ x. x.status) on ∙ s,
      ap (λ x. x.written) on ∙ (all ∙ append_assoc w.written (d ∷ []) (passed_on events)),
    )
writer_loop-passed_on w (relayed d (some e) ∷ events) = λ r. (refl, sym (append-nil w.written))
writer_loop-passed_on w (context_cancelled ∷ events) = λ r. (refl, sym (append-nil w.written))
writer_loop-passed_on w (tick true ∷ events) = λ r.
    let (s, all) = writer_loop-passed_on w events r in
    let on = writer_loop-continues w (tick true) events r in
    (ap (λ x. x.status) on ∙ s, ap (λ x. x.written) on ∙ all)
writer_loop-passed_on w (tick false ∷ events) = λ r. (refl, sym (append-nil w.written))
writer_loop-passed_on w (from_reader e ∷ events) = λ r. (refl, sym (append-nil w.written))

-- A writer whose loop is ended by an event has closed the connection: the messages that came before that
-- event, and no other, were written in their order, and a close frame with the error was sent
-- unless there is none or the peer's end is what the error tells of.
pub connect_ws_writer-closed :
    (is_unexpected : Error → Bool) (events : List Event) (e : Option Error)
    → first_end events ≡ some e
    → let w = connect_ws_writer is_unexpected none events in
      (w.is_closed ≡ true)
      × (w.written ≡ passed_on events)
      × (w.close_frames ≡ close_frame is_unexpected e)
unfolding connect_ws_writer
connect_ws_writer-closed is_unexpected events e h =
    let (s, all) = writer_loop-passed_on new_writer events refl in
    let ended : (writer_loop new_writer events).status ≡ returned e = s ∙ ap status_of h in
    rw ended (refl, all, refl)
