-- ===== src/FileTransfer/Upload/Created.antt =====
-- api/http/management_filetransfer.go: what was sent when an upload is answered with 201.
use deviceconnect.Prelude.{
  ℕ, ◌+◌, ◌*◌, ◌≤◌, String, List, [], ◌∷◌, ◌++◌, length, length-append, append_assoc, Option, none,
  some, Bool, true, false, ltb, ◌==◌, if◌then◌else◌, if_elim, ◌≡◌, ◌≢◌, refl, sym, ap, ◌∙◌, arith,
}
use mathlib.Core.Path.{subst}
use deviceconnect.Errors.{Error, unexpected_eof}
use deviceconnect.Recording.Stream.{is_failure}
use deviceconnect.FileTransfer.Messages.{Packet, sent_result}
use deviceconnect.FileTransfer.Upload.{
  Waited, failed, acked, timed_out, Round, Status, reading, draining, created, refused, Upload,
  read_failed, chunk_message, wait, poll, window, sent_chunk, sent_last, upload_round, upload_loop,
  drain, upload_file, file_transfer_buffer_size, ack_sliding_window_recv,
}

-- The pieces in which the file was read: those before the first read that gives no byte.
abbrev pub pieces : List Round → List (List ℕ)
pieces [] = []
pieces (r ∷ rounds) = if length r.data_read == 0 then [] else r.data_read ∷ pieces rounds

abbrev pub joined : List (List ℕ) → List ℕ
joined [] = []
joined (p ∷ ps) = p ++ joined ps

module _ (session_id user_id : String) where
  -- A chunk for each piece, at the offset where the one before ended, and the chunk without a body.
  abbrev pub chunk_messages : ℕ → List (List ℕ) → List Packet
  chunk_messages n [] = chunk_message session_id user_id none n ∷ []
  chunk_messages n (p ∷ ps) =
      chunk_message session_id user_id (some p) n ∷ chunk_messages (n + length p) ps

  abbrev loop : Upload → List Round → Upload
  loop = upload_loop session_id user_id

  abbrev after : Upload → Upload → Upload
  after u rest = elim u.status [ reading ↦ rest | _ ↦ u ]

  -- All pieces `ps` were sent by the upload that began to loop at `u`.
  abbrev Sends : Upload → Upload → List (List ℕ) → Type 0
  Sends u final ps =
      (final.sent ≡ u.sent ++ chunk_messages u.offset ps)
      × (final.offset ≡ u.offset + length (joined ps))

  abbrev Goes : Upload → List Round → Type 0
  Goes u rounds =
      u.status ≡ reading
      → (loop u rounds).status ≡ draining
      → Sends u (loop u rounds) (pieces rounds)

  abbrev Drains : List Round → Upload → List (List ℕ) → Upload → Type 0
  Drains rounds u ps u' =
      (after u' (loop u' rounds)).status ≡ draining → Sends u (after u' (loop u' rounds)) ps

  continued :
      (rounds : List Round) (u q : Upload) (p : List ℕ)
      → ((q : Upload) → Goes q rounds)
      → q.status ≡ reading
      → q.offset ≡ u.offset + length p
      → q.sent ≡ u.sent ++ (chunk_message session_id user_id (some p) u.offset ∷ [])
      → Drains rounds u (p ∷ pieces rounds) q
  continued rounds u q p again r o s h =
      let same : after q (loop q rounds) ≡ loop q rounds =
        ap (λ t. elim t [ reading ↦ loop q rounds | _ ↦ q ]) r in
      let (sent, offset) = again q r (sym (ap (λ y. y.status) same) ∙ h) in
      subst (λ final. Sends u final (p ∷ pieces rounds)) (sym same)
        (
          sent
              ∙ (ap (λ x. x ++ chunk_messages q.offset (pieces rounds)) s
                  ∙ (append_assoc u.sent (chunk_message session_id user_id (some p) u.offset ∷ [])
                        (chunk_messages q.offset (pieces rounds))
                      ∙ ap
                          (λ n.
                            u.sent
                            ++ (chunk_message session_id user_id (some p) u.offset
                                ∷ chunk_messages n (pieces rounds)))
                          o)),
          omega (arith, offset, o, length-append p (joined (pieces rounds))),
        )

  wait-Drains :
      (w : Waited) (rounds : List Round) (u q : Upload) (p : List ℕ)
      → ((q : Upload) → Goes q rounds)
      → q.status ≡ reading
      → q.offset ≡ u.offset + length p
      → q.sent ≡ u.sent ++ (chunk_message session_id user_id (some p) u.offset ∷ [])
      → Drains rounds u (p ∷ pieces rounds) (wait session_id user_id w q)
  wait-Drains (failed e) rounds u q p again r o s = λ h. absurd cc
  wait-Drains (acked n) rounds u q p again r o s =
      continued rounds u (record q { latest_ack = n }) p again r o s
  wait-Drains timed_out rounds u q p again r o s = λ h. absurd cc

  poll-Drains :
      (x : Option Error) (rounds : List Round) (u q : Upload) (p : List ℕ)
      → ((q : Upload) → Goes q rounds)
      → q.status ≡ reading
      → q.offset ≡ u.offset + length p
      → q.sent ≡ u.sent ++ (chunk_message session_id user_id (some p) u.offset ∷ [])
      → Drains rounds u (p ∷ pieces rounds) (poll session_id user_id x q)
  poll-Drains none rounds u q p again r o s = continued rounds u q p again r o s
  poll-Drains (some e) rounds u q p again r o s = λ h. absurd cc

  sent_chunk-Drains :
      (x : Option Error) (r : Round) (rounds : List Round) (u : Upload)
      → ((q : Upload) → Goes q rounds)
      → u.status ≡ reading
      → Drains rounds u (r.data_read ∷ pieces rounds) (sent_chunk session_id user_id r x u)
  sent_chunk-Drains (some e) r rounds u again h = λ k. absurd cc
  sent_chunk-Drains none r rounds u again h =
      let q : Upload = record u {
        offset = u.offset + length r.data_read;
        sent = u.sent ++ (chunk_message session_id user_id (some r.data_read) u.offset ∷ []);
      } in
      if_elim (Drains rounds u (r.data_read ∷ pieces rounds))
        (ltb (u.latest_ack + file_transfer_buffer_size * ack_sliding_window_recv) q.offset)
        (wait session_id user_id r.waited q) (poll session_id user_id r.polled q)
        (λ _. wait-Drains r.waited rounds u q r.data_read again h refl refl)
        (λ _. poll-Drains r.polled rounds u q r.data_read again h refl refl)

  sent_last-Drains :
      (x : Option Error) (rounds : List Round) (u : Upload)
      → Drains rounds u [] (sent_last session_id user_id x u)
  sent_last-Drains (some e) rounds u = λ k. absurd cc
  sent_last-Drains none rounds u = λ k. (refl, omega arith)

  read_failed-Drains :
      (x : Option Error) (rounds : List Round) (u : Upload) (ps : List (List ℕ))
      → is_failure x ≡ true
      → Drains rounds u ps (read_failed x u)
  read_failed-Drains none rounds u ps f = absurd cc
  read_failed-Drains (some unexpected_eof) rounds u ps f = λ k. absurd cc
  read_failed-Drains (some e) rounds u ps f = λ k. absurd cc

  loop-Sends : (rounds : List Round) (u : Upload) → Goes u rounds
  unfolding upload_loop upload_round
  loop-Sends [] u r = λ h. absurd cc
  loop-Sends (r ∷ rounds) u reads =
      if_elim (Drains rounds u (pieces (r ∷ rounds))) (is_failure r.read_error)
        (read_failed r.read_error u) _
        (λ f. read_failed-Drains r.read_error rounds u (pieces (r ∷ rounds)) f)
        (λ _. by_size (loop-Sends rounds) (length r.data_read == 0))
    where
      by_size :
          ((q : Upload) → Goes q rounds)
          → (b : Bool)
          → Drains rounds u (if b then [] else r.data_read ∷ pieces rounds) (
              if b
              then sent_last session_id user_id (sent_result r.sending) u
              else sent_chunk session_id user_id r (sent_result r.sending) u)
      by_size again true = sent_last-Drains (sent_result r.sending) rounds u
      by_size again false = sent_chunk-Drains (sent_result r.sending) r rounds u again reads

  -- The first loop does not answer.
  abbrev Unanswered : Upload → Type 0
  Unanswered u = u.status ≢ created

  reading-Unanswered : (u : Upload) → u.status ≡ reading → Unanswered u
  reading-Unanswered u r h = absurd (differ (sym r ∙ h))
    where
      differ : ◌≡◌ {A = Status} reading created → ⊥
      differ q = cc

  read_failed-Unanswered :
      (x : Option Error) (u : Upload) → u.status ≡ reading → Unanswered (read_failed x u)
  read_failed-Unanswered none u r = reading-Unanswered u r
  read_failed-Unanswered (some unexpected_eof) u r = λ h. absurd cc
  read_failed-Unanswered (some e) u r = λ h. absurd cc

  window-Unanswered :
      (r : Round) (u : Upload) → u.status ≡ reading → Unanswered (window session_id user_id r u)
  window-Unanswered r u s =
      if_elim Unanswered
        (ltb (u.latest_ack + file_transfer_buffer_size * ack_sliding_window_recv) u.offset)
        (wait session_id user_id r.waited u) (poll session_id user_id r.polled u)
        (λ _. waits r.waited) (λ _. polls r.polled)
    where
      waits : (w : Waited) → Unanswered (wait session_id user_id w u)
      waits (failed e) = λ h. absurd cc
      waits (acked n) = reading-Unanswered (record u { latest_ack = n }) s
      waits timed_out = λ h. absurd cc

      polls : (x : Option Error) → Unanswered (poll session_id user_id x u)
      polls none = reading-Unanswered u s
      polls (some e) = λ h. absurd cc

  round-Unanswered :
      (r : Round) (u : Upload)
      → u.status ≡ reading
      → Unanswered (upload_round session_id user_id u r)
  unfolding upload_round
  round-Unanswered r u s =
      if_elim Unanswered (is_failure r.read_error) (read_failed r.read_error u) _
        (λ _. read_failed-Unanswered r.read_error u s)
        (λ _.
          if_elim Unanswered (length r.data_read == 0) _ _ (λ _. lasts (sent_result r.sending))
            (λ _. chunks (sent_result r.sending)))
    where
      lasts : (x : Option Error) → Unanswered (sent_last session_id user_id x u)
      lasts none = λ h. absurd cc
      lasts (some e) = λ h. absurd cc

      chunks : (x : Option Error) → Unanswered (sent_chunk session_id user_id r x u)
      chunks none =
          window-Unanswered r
            (record u {
              offset = u.offset + length r.data_read;
              sent = u.sent ++ (chunk_message session_id user_id (some r.data_read) u.offset ∷ []);
            })
            s
      chunks (some e) = λ h. absurd cc

  loop-Unanswered :
      (rounds : List Round) (u : Upload) → u.status ≡ reading → Unanswered (loop u rounds)
  unfolding upload_loop
  loop-Unanswered [] u r = reading-Unanswered u r
  loop-Unanswered (r ∷ rounds) u reads =
      by_status (loop-Unanswered rounds (upload_round session_id user_id u r))
        (upload_round session_id user_id u r).status refl
    where
      by_status :
          ((upload_round session_id user_id u r).status ≡ reading
            → Unanswered (loop (upload_round session_id user_id u r) rounds))
          → (x : Status) → (upload_round session_id user_id u r).status ≡ x
          → Unanswered (elim x [
            | reading ↦ loop (upload_round session_id user_id u r) rounds
            | _ ↦ upload_round session_id user_id u r
          ])
      by_status again reading e = again e
      by_status again draining e = round-Unanswered r u reads
      by_status again created e = round-Unanswered r u reads
      by_status again (refused c x) e = round-Unanswered r u reads

  -- The second loop answers with 201 only when everything is acknowledged, and sends nothing.
  abbrev Acknowledged : Upload → Upload → Type 0
  Acknowledged u final =
      final.status ≡ created
      → (final.sent ≡ u.sent) × (final.offset ≡ u.offset) × (final.offset ≤ final.latest_ack)

  drain-Acknowledged :
      (acks : List (Option ℕ)) (u : Upload)
      → u.status ≡ draining
      → Acknowledged u (drain session_id user_id u acks)
  unfolding drain
  drain-Acknowledged [] u d =
      if_elim (Acknowledged u) (ltb u.latest_ack u.offset) u (record u { status = created })
        (λ _ h. absurd cc) (λ f h. (refl, refl, ground arith))
  drain-Acknowledged (some n ∷ acks) u d =
      if_elim (Acknowledged u) (ltb u.latest_ack u.offset) _ (record u { status = created })
        (λ _. drain-Acknowledged acks (record u { latest_ack = n }) d)
        (λ f h. (refl, refl, ground arith))
  drain-Acknowledged (none ∷ acks) u d =
      if_elim (Acknowledged u) (ltb u.latest_ack u.offset) _ (record u { status = created })
        (λ _ h. absurd cc) (λ f h. (refl, refl, ground arith))

  -- An upload that is answered with 201 has sent the whole file: a chunk for each piece that was
  -- read, at the offset where the piece before ended, and then the chunk without a body; and the
  -- device has acknowledged every byte.
  pub upload_file-created :
      (rounds : List Round) (acks : List (Option ℕ))
      → let final = upload_file session_id user_id rounds acks in
        final.status ≡ created
        → (final.sent ≡ chunk_messages 0 (pieces rounds))
          × (length (joined (pieces rounds)) ≤ final.latest_ack)
  unfolding upload_file
  upload_file-created rounds acks = by_status u.status refl (loop-Sends rounds first refl)
    where
      first : Upload
      first = record { status = reading; offset = 0; latest_ack = 0; sent = [] }

      u : Upload
      u = loop first rounds

      by_status :
          (x : Status)
          → u.status ≡ x
          → (u.status ≡ draining → Sends first u (pieces rounds))
          → let final : Upload = elim x [ draining ↦ drain session_id user_id u acks | _ ↦ u ] in
            final.status ≡ created
            → (final.sent ≡ chunk_messages 0 (pieces rounds))
              × (length (joined (pieces rounds)) ≤ final.latest_ack)
      by_status draining e k = λ h.
          let (sent, offset) = k e in
          let (sent', offset', all) = drain-Acknowledged acks u e h in
          (sent' ∙ sent, omega (arith, offset, offset', all))
      by_status reading e k = λ h. absurd cc
      by_status created e k = λ h. absurd (loop-Unanswered rounds first refl e)
      by_status (refused c x) e k = λ h. absurd cc
