-- ===== src/FileTransfer/Download/Content.antt =====
-- api/http/management_filetransfer.go: what a download that succeeds has written.
use deviceconnect.Prelude.{
  ℕ, ◌+◌, String, List, [], ◌∷◌, ◌++◌, length, length-append, append_assoc, append-nil, Option,
  none, some, true, leb, ==_iff, if_elim, ◌≡◌, refl, sym, ap, ◌∙◌,
}
use mathlib.Core.Path.{subst}
use deviceconnect.Errors.{Error, Result, ok, err, panic}
use deviceconnect.Protocol.{MsgType, error, chunk, ping, get, int64, Properties}
use deviceconnect.FileTransfer.Messages.{
  Packet, Sending, sent_result, Body, no_body, error_body, info_body, transfer_message, DeviceError,
  prop_offset, decode_message,
}
use deviceconnect.FileTransfer.Download.{
  Event, channel_closed, cancelled, received, running, returned, Download, ack_message,
  pong_message, send, write_chunk, at_offset, receive_chunk, receive, handle, download_step,
  download_loop, download_file, wrong_offset, ack_sliding_window_send,
}

-- What a message of a type adds to a file of which `n` bytes have come: `bs` is what is to come,
-- and `rest` says what the later messages have to bring.
abbrev pub Adds :
    MsgType → Option (List ℕ) → Properties → ℕ → List ℕ → (ℕ → List ℕ → Type 0) → Type 0
Adds error body properties n bs rest = ⊥
Adds chunk none properties n bs rest = bs ≡ []
Adds chunk (some body) properties n bs rest =
    (prop_offset properties ≡ some n)
    × ((tail : List ℕ) × (bs ≡ body ++ tail) × rest (n + length body) tail)
Adds _ body properties n bs rest = rest n bs

abbrev pub Takes : Result (Packet × Body) → ℕ → List ℕ → (ℕ → List ℕ → Type 0) → Type 0
Takes (ok (m, b)) n bs rest = Adds m.msg_type m.body m.properties n bs rest
Takes _ n bs rest = ⊥

module _ (unpack_error : Option (List ℕ) → Result DeviceError)
    (unpack_info : Option (List ℕ) → Result ℕ) (session_id user_id : String) where
  -- The events bring the bytes `bs` of a file from offset `n` on: chunk after chunk, each at the
  -- offset where the last one ended, up to the chunk without a body; no error message and nothing
  -- that cannot be decoded comes before it.
  abbrev pub Brings : List Event → ℕ → List ℕ → Type 0
  Brings [] n bs = ⊥
  Brings (channel_closed ∷ events) n bs = ⊥
  Brings (cancelled e ∷ events) n bs = ⊥
  Brings (received m stored sending ∷ events) n bs =
      Takes (decode_message unpack_error unpack_info m) n bs (Brings events)

  abbrev loop : Download → List Event → Download
  loop = download_loop unpack_error unpack_info session_id user_id

  abbrev ack_of : ℕ → Packet
  ack_of = ack_message unpack_error unpack_info session_id user_id

  -- The end of a download that began to loop at `d`.
  abbrev Completes : Download → Download → (ℕ → List ℕ → Type 0) → Type 0
  Completes d final brings =
      (bs : List ℕ) × (final.written ≡ d.written ++ bs)
      × brings d.latest_offset bs
      × ((front : List Packet) × (final.sent ≡ front ++ (ack_of (length final.written) ∷ [])))

  abbrev after : Download → Download → Download
  after d rest = elim d.status [ running ↦ rest | _ ↦ d ]

  abbrev Goes : Download → List Event → Type 0
  Goes q events =
      q.status ≡ running
      → q.latest_offset ≡ length q.written
      → (loop q events).status ≡ returned none
      → Completes q (loop q events) (Brings events)

  at_offset-true :
      (o : Option ℕ) (n : ℕ)
      → at_offset unpack_error unpack_info session_id user_id o n ≡ true
      → o ≡ some n
  at_offset-true none n h = cc
  at_offset-true (some m) n h = ap some ((==_iff m n).0 h)

  -- A chunk that was written, and then a state `q` in which the loop goes on.
  written-Completes :
      (m : Packet) (body : List ℕ) (d q : Download) (events : List Event)
      → ((q : Download) → Goes q events)
      → prop_offset m.properties ≡ some d.latest_offset
      → d.latest_offset ≡ length d.written
      → q.status ≡ running
      → q.latest_offset ≡ d.latest_offset + length body
      → q.written ≡ d.written ++ body
      → (loop q events).status ≡ returned none
      → Completes d
          (loop q events)
          (λ n bs. Adds chunk (some body) m.properties n bs (Brings events))
  written-Completes m body d q events again at o r l w h =
      let size : q.latest_offset ≡ length q.written =
        l
        ∙ (ap (λ n. n + length body) o
            ∙ (sym (length-append d.written body) ∙ ap length (sym w))) in
      let (bs, written, brings, last) = again q r size h in
      (
        body ++ bs,
        written ∙ (ap (λ x. x ++ bs) w ∙ append_assoc d.written body bs),
        (at, (bs, refl, subst (λ n. Brings events n bs) l brings)),
        last,
      )

  write_chunk-Completes :
      (m : Packet) (body : List ℕ) (stored failure : Option Error) (d : Download)
      (events : List Event)
      → ((q : Download) → Goes q events)
      → prop_offset m.properties ≡ some d.latest_offset
      → d.status ≡ running
      → d.latest_offset ≡ length d.written
      → let d' = write_chunk unpack_error unpack_info session_id user_id body stored failure d in
        (after d' (loop d' events)).status ≡ returned none
        → Completes d
            (after d' (loop d' events))
            (λ n bs. Adds chunk (some body) m.properties n bs (Brings events))
  write_chunk-Completes m body (some e) failure d events again at r o = λ h. absurd cc
  write_chunk-Completes m body none failure d events again at r o =
      if_elim P (leb ack_sliding_window_send (d.number_of_chunks + 1)) _ _
        (λ _. acknowledged failure) (λ _. continued q refl refl r)
    where
      P : Download → Type 0
      P d' =
          (after d' (loop d' events)).status ≡ returned none
          → Completes d (after d' (loop d' events))
              (λ n bs. Adds chunk (some body) m.properties n bs (Brings events))

      q : Download
      q = record d {
        latest_offset = d.latest_offset + length body;
        written = d.written ++ body;
        number_of_chunks = d.number_of_chunks + 1;
      }

      continued :
          (x : Download)
          → x.latest_offset ≡ d.latest_offset + length body
          → x.written ≡ d.written ++ body
          → x.status ≡ running
          → P x
      continued x l w s h =
          let same : after x (loop x events) ≡ loop x events =
            ap (λ t. elim t [ running ↦ loop x events | _ ↦ x ]) s in
          subst
            (λ final.
              Completes d final (λ n bs. Adds chunk (some body) m.properties n bs (Brings events)))
            (sym same)
            (written-Completes m body d x events again at o s l w
              (sym (ap (λ y. y.status) same) ∙ h))

      acknowledged :
          (f : Option Error)
          → P (
              send unpack_error unpack_info session_id user_id
                (ack_of (d.latest_offset + length body))
                f
                (record q { number_of_chunks = 0 }))
      acknowledged none = continued _ refl refl r
      acknowledged (some e) = λ h. absurd cc

  chunk-Completes :
      (m : Packet) (body : Option (List ℕ)) (stored failure : Option Error) (d : Download)
      (events : List Event)
      → ((q : Download) → Goes q events)
      → d.status ≡ running
      → d.latest_offset ≡ length d.written
      → let d' =
          receive_chunk unpack_error unpack_info session_id user_id m body stored failure d in
        (after d' (loop d' events)).status ≡ returned none
        → Completes d
            (after d' (loop d' events))
            (λ n bs. Adds chunk body m.properties n bs (Brings events))
  chunk-Completes m none stored none d events again r o =
      λ h. ([], sym (append-nil d.written), refl, (d.sent, ap (λ n. d.sent ++ (ack_of n ∷ [])) o))
  chunk-Completes m none stored (some e) d events again r o = λ h. absurd cc
  chunk-Completes m (some body) stored failure d events again r o =
      if_elim P
        (at_offset unpack_error unpack_info session_id user_id (prop_offset m.properties)
          d.latest_offset)
        _
        (record d {
          status = returned (some (wrong_offset unpack_error unpack_info session_id user_id));
        })
        (λ at.
          write_chunk-Completes m body stored failure d events again
            (at_offset-true (prop_offset m.properties) d.latest_offset at) r o)
        (λ _ h. absurd cc)
    where
      P : Download → Type 0
      P d' =
          (after d' (loop d' events)).status ≡ returned none
          → Completes d (after d' (loop d' events))
              (λ n bs. Adds chunk (some body) m.properties n bs (Brings events))

  -- A message that is neither a chunk nor an error, after which the loop goes on.
  kept-Completes :
      (d q : Download) (events : List Event)
      → ((q : Download) → Goes q events)
      → d.status ≡ running
      → d.latest_offset ≡ length d.written
      → q.status ≡ running
      → q.latest_offset ≡ d.latest_offset
      → q.written ≡ d.written
      → (after q (loop q events)).status ≡ returned none
      → Completes d (after q (loop q events)) (Brings events)
  kept-Completes d q events again r o s l w h =
      let same : after q (loop q events) ≡ loop q events =
        ap (λ t. elim t [ running ↦ loop q events | _ ↦ q ]) s in
      let (bs, written, brings, last) =
        again q s (l ∙ (o ∙ ap length (sym w))) (sym (ap (λ y. y.status) same) ∙ h) in
      subst (λ final. Completes d final (Brings events)) (sym same)
        (bs, written ∙ ap (λ x. x ++ bs) w, subst (λ n. Brings events n bs) l brings, last)

  ping-Completes :
      (failure : Option Error) (d : Download) (events : List Event)
      → ((q : Download) → Goes q events)
      → d.status ≡ running
      → d.latest_offset ≡ length d.written
      → let d' =
          send unpack_error unpack_info session_id user_id
            (pong_message unpack_error unpack_info session_id user_id)
            failure
            d in
        (after d' (loop d' events)).status ≡ returned none
        → Completes d (after d' (loop d' events)) (Brings events)
  ping-Completes none d events again r o = kept-Completes d _ events again r o r refl refl
  ping-Completes (some e) d events again r o = λ h. absurd cc

  receive-Completes :
      (t : MsgType) (m : Packet) (b : Body) (stored failure : Option Error) (d : Download)
      (events : List Event)
      → ((q : Download) → Goes q events)
      → d.status ≡ running
      → d.latest_offset ≡ length d.written
      → let d' = receive unpack_error unpack_info session_id user_id t (m, b) stored failure d in
        (after d' (loop d' events)).status ≡ returned none
        → Completes d
            (after d' (loop d' events))
            (λ n bs. Adds t m.body m.properties n bs (Brings events))
  receive-Completes error m no_body stored failure d events again r o = λ h. absurd cc
  receive-Completes error m (error_body e) stored failure d events again r o = λ h. absurd cc
  receive-Completes error m (info_body i) stored failure d events again r o = λ h. absurd cc
  receive-Completes chunk m b stored failure d events again r o =
      chunk-Completes m m.body stored failure d events again r o
  receive-Completes ping m b stored failure d events again r o =
      ping-Completes failure d events again r o
  receive-Completes t m b stored failure d events again r o =
      kept-Completes d d events again r o r refl refl

  handle-Completes :
      (x : Result (Packet × Body)) (stored failure : Option Error) (d : Download)
      (events : List Event)
      → ((q : Download) → Goes q events)
      → d.status ≡ running
      → d.latest_offset ≡ length d.written
      → let d' = handle unpack_error unpack_info session_id user_id x stored failure d in
        (after d' (loop d' events)).status ≡ returned none
        → Completes d (after d' (loop d' events)) (λ n bs. Takes x n bs (Brings events))
  handle-Completes (ok (m, b)) stored failure d events again r o =
      receive-Completes m.msg_type m b stored failure d events again r o
  handle-Completes (err e) stored failure d events again r o = λ h. absurd cc
  handle-Completes panic stored failure d events again r o = λ h. absurd cc

  loop-Completes : (events : List Event) (d : Download) → Goes d events
  unfolding download_loop download_step
  loop-Completes [] d r o h = absurd cc
  loop-Completes (channel_closed ∷ events) d r o h = absurd cc
  loop-Completes (cancelled e ∷ events) d r o h = absurd cc
  loop-Completes (received m stored sending ∷ events) d r o h =
      handle-Completes (decode_message unpack_error unpack_info m) stored (sent_result sending) d
        events (loop-Completes events) r o h

  -- A download that reports success has written a whole file: the bytes that it wrote are those of
  -- the chunks, which came one after the other, each at the offset where the last one ended, up to
  -- the chunk without a body; and its last message acknowledges the length of the file.
  pub download_file_complete :
      (request : List ℕ) (requested : Sending) (events : List Event)
      → let final =
          download_file unpack_error unpack_info session_id user_id request requested events in
        final.status ≡ returned none
        → Brings events 0 final.written
          × ((front : List Packet) × (final.sent
                ≡ front
                  ++ (ack_message unpack_error unpack_info session_id user_id (length final.written)
                      ∷ [])))
  unfolding download_file
  download_file_complete request requested events = by_request (sent_result requested)
    where
      first : Download
      first = record {
        status = running;
        latest_offset = 0;
        number_of_chunks = 0;
        written = [];
        sent = transfer_message session_id user_id get (some request) (int64 0) ∷ [];
      }

      by_request :
          (x : Option Error)
          → let final : Download = elim x [
            | none ↦ loop first events
            | some e ↦ record first { status = returned (some e) }
          ] in
            final.status ≡ returned none
            → Brings events 0 final.written
              × ((front : List Packet) × (final.sent
                    ≡ front ++ (ack_of (length final.written) ∷ [])))
      by_request none = λ h.
          let (bs, written, brings, last) = loop-Completes events first refl refl h in
          (subst (λ x. Brings events 0 x) (sym written) brings, last)
      by_request (some e) = λ h. absurd cc
