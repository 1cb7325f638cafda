-- ===== src/FileTransfer/UploadHandler/Answers.antt =====
-- api/http/management_filetransfer.go: what an upload that is answered with 201 has sent.
use deviceconnect.Prelude.{
  ◌≤◌, List, [], ◌∷◌, ◌++◌, length, append_assoc, Option, none, some, true, false, ◌≡◌, refl, sym,
  ap, ◌∙◌,
}
use deviceconnect.Errors.{Error, Result, ok, err, panic, wrap}
use deviceconnect.Protocol.{MsgType, error, close_session}
use deviceconnect.FileTransfer.Messages.{
  Packet, sent_result, Body, no_body, error_body, info_body, decode_message,
}
use deviceconnect.FileTransfer.Open.{Opening, control_message}
use deviceconnect.FileTransfer.Upload.{Status, reading, draining, created, refused}
use deviceconnect.FileTransfer.Upload.Created.{pieces, joined, chunk_messages, upload_file-created}
use deviceconnect.FileTransfer.Requests.{
  FileTransferParams, Sent, session_topic, publish, publish_all,
}
use deviceconnect.FileTransfer.UploadHandler.{
  PutAnswer, silent, answer, Network, Library, Response, new_response, respond, finish_upload,
  upload, answered, decoded, put_answered, put_message, put_sent, after_handshake, handshake,
  upload_file_response,
}

module _ (lib : Library) (n : Network) (fp : FileTransferParams) where
  -- What is known of a response that was created, when `sent` had been sent before.
  abbrev IsCreated : List Sent → Response → Type 0
  IsCreated sent r =
      r.is_created ≡ true
      → (r.reply ≡ none)
        × ((upload lib n fp).status ≡ created)
        × (r.sent
            ≡ sent
              ++ (publish_all fp (upload lib n fp).sent
                  ++ (publish fp (control_message close_session none) ∷ [])))

  finish_upload-IsCreated :
      (r : Response) (s : Status)
      → (upload lib n fp).status ≡ s
      → r.reply ≡ none
      → r.is_created ≡ false
      → IsCreated r.sent (finish_upload lib n fp r (upload lib n fp) s)
  finish_upload-IsCreated r created e empty new = λ h. (empty, e, append_assoc r.sent _ _)
  finish_upload-IsCreated r (refused status x) e empty new = λ h. absurd cc
  finish_upload-IsCreated r reading e empty new = λ h. absurd cc
  finish_upload-IsCreated r draining e empty new = λ h. absurd cc

  answered-IsCreated :
      (r : Response) (t : MsgType) (b : Body)
      → r.reply ≡ none
      → r.is_created ≡ false
      → IsCreated r.sent (answered lib n fp r t b)
  answered-IsCreated r error (error_body x) empty new = λ h. absurd cc
  answered-IsCreated r error no_body empty new = λ h. absurd cc
  answered-IsCreated r error (info_body x) empty new = λ h. absurd cc
  answered-IsCreated r t b empty new = finish_upload-IsCreated r _ refl empty new

  abbrev pub IsError : MsgType → Type 0
  IsError error = Unit {0}
  IsError _ = ⊥

  -- The device answered the request with a message that could be decoded and is not an error.
  abbrev pub IsWilling : PutAnswer → Type 0
  IsWilling silent = ⊥
  IsWilling (answer m) =
      (p : Packet) × (b : Body) × (decode_message lib.unpack_error lib.unpack_info m ≡ ok (p, b))
      × ¬ IsError p.msg_type

  answered-IsWilling :
      (r : Response) (t : MsgType) (b : Body)
      → r.is_created ≡ false
      → (answered lib n fp r t b).is_created ≡ true
      → ¬ IsError t
  answered-IsWilling r error (error_body x) new h = absurd cc
  answered-IsWilling r error no_body new h = absurd cc
  answered-IsWilling r error (info_body x) new h = absurd cc
  answered-IsWilling r t b new h = λ e. e

  put_answered-IsCreated :
      (r : Response) (a : PutAnswer)
      → r.reply ≡ none
      → r.is_created ≡ false
      → (put_answered lib n fp r a).is_created ≡ true
      → IsWilling a
        × ((put_answered lib n fp r a).reply ≡ none)
        × ((upload lib n fp).status ≡ created)
        × ((put_answered lib n fp r a).sent
            ≡ r.sent
              ++ (publish_all fp (upload lib n fp).sent
                  ++ (publish fp (control_message close_session none) ∷ [])))
  put_answered-IsCreated r silent empty new = λ h. absurd cc
  put_answered-IsCreated r (answer m) empty new =
      by_message (decode_message lib.unpack_error lib.unpack_info m) refl
    where
      by_message :
          (x : Result (Packet × Body))
          → decode_message lib.unpack_error lib.unpack_info m ≡ x
          → (decoded lib n fp r x).is_created ≡ true
          → IsWilling (answer m)
            × ((decoded lib n fp r x).reply ≡ none)
            × ((upload lib n fp).status ≡ created)
            × ((decoded lib n fp r x).sent
                ≡ r.sent
                  ++ (publish_all fp (upload lib n fp).sent
                      ++ (publish fp (control_message close_session none) ∷ [])))
      by_message (ok (p, b)) e h =
          let (reply, status, sent) = answered-IsCreated r p.msg_type b empty new h in
          ((p, b, e, answered-IsWilling r p.msg_type b new h), reply, status, sent)
      by_message (err x) e h = absurd cc
      by_message panic e h = absurd cc

  abbrev IsUploaded : Response → Type 0
  IsUploaded r =
      r.is_created ≡ true
      → ((handshake lib n fp).0 ≡ none)
        × IsWilling n.put_answer
        × (r.reply ≡ none)
        × (r.sent
            ≡ (publish_all fp (handshake lib n fp).1 ++ (put_message lib n fp ∷ []))
              ++ (publish_all fp (chunk_messages fp.session_id fp.user_id 0 (pieces n.rounds))
                  ++ (publish fp (control_message close_session none) ∷ [])))
        × (length (joined (pieces n.rounds)) ≤ (upload lib n fp).latest_ack)

  upload_file_response-IsUploaded : IsUploaded (upload_file_response lib n fp)
  unfolding upload_file_response
  upload_file_response-IsUploaded = by_subscription (n.subscribed (session_topic fp))
    where
      by_put :
          (sent : List Packet) (x : Option Error)
          → (handshake lib n fp) ≡ (none, sent)
          → IsUploaded (
              put_sent lib n fp
                (record new_response { sent = publish_all fp sent ++ (put_message lib n fp ∷ []) })
                x)
      by_put sent (some y) e = λ h. absurd cc
      by_put sent none e = λ h.
          let r : Response = record new_response {
            sent = publish_all fp sent ++ (put_message lib n fp ∷ []);
          } in
          let (willing, reply, status, all) = put_answered-IsCreated r n.put_answer refl refl h in
          let (chunks, acked) =
            upload_file-created fp.session_id fp.user_id n.rounds n.acks status in
          (
            ap (λ o. o.0) e,
            willing,
            reply,
            all
                ∙ (ap
                      (λ c.
                        (publish_all fp sent ++ (put_message lib n fp ∷ []))
                        ++ (publish_all fp c
                            ++ (publish fp (control_message close_session none) ∷ [])))
                      chunks
                    ∙ ap
                        (λ (o : Opening).
                          (publish_all fp o.1 ++ (put_message lib n fp ∷ []))
                          ++ (publish_all fp
                                (chunk_messages fp.session_id fp.user_id 0 (pieces n.rounds))
                              ++ (publish fp (control_message close_session none) ∷ [])))
                        (sym e)),
            acked,
          )

      by_handshake :
          (o : Opening) → handshake lib n fp ≡ o → IsUploaded (after_handshake lib n fp o)
      by_handshake (some y, sent) e = λ h. absurd cc
      by_handshake (none, sent) e = by_put sent (sent_result n.put_sending) e

      by_subscription :
          (x : Option Error)
          → IsUploaded (elim x as (λ _. Response) [
            | some e ↦ respond 500 (wrap e "failed to subscribe to the mesages") new_response
            | none ↦ after_handshake lib n fp (handshake lib n fp)
          ])
      by_subscription none = by_handshake (handshake lib n fp) refl
      by_subscription (some e) = λ h. absurd cc

  -- An upload that is answered with 201 was accepted by the device and is complete: after the
  -- opening message and the request came one message for each piece that was read of the file, in order and
  -- at its offset, with an empty one at the end, the device acknowledged every byte, the session was
  -- closed with the last message, and no error was answered. Every message is on the subject of the
  -- device in its tenant, under the session.
  pub upload_file_response-created :
      (upload_file_response lib n fp).is_created ≡ true
      → let r = upload_file_response lib n fp in
        ((handshake lib n fp).0 ≡ none)
        × IsWilling n.put_answer
        × (r.reply ≡ none)
        × (r.sent
            ≡ (publish_all fp (handshake lib n fp).1 ++ (put_message lib n fp ∷ []))
              ++ (publish_all fp (chunk_messages fp.session_id fp.user_id 0 (pieces n.rounds))
                  ++ (publish fp (control_message close_session none) ∷ [])))
        × (length (joined (pieces n.rounds)) ≤ (upload lib n fp).latest_ack)
  upload_file_response-created h = upload_file_response-IsUploaded h
