-- ===== src/FileTransfer/DownloadHandler/Closing.antt =====
-- api/http/management_filetransfer.go: how `downloadFileResponse` ends.
use deviceconnect.Prelude.{
  ℕ, String, List, [], ◌∷◌, ◌++◌, append_assoc, append-nil, none, some, Bool, true, false, if_elim,
  ◌≡◌, refl, sym, ap, ◌∙◌,
}
use mathlib.Core.Path.{subst}
use deviceconnect.Errors.{Error, Result, ok, err, panic, wrap}
use deviceconnect.Protocol.{close_session}
use deviceconnect.FileTransfer.Messages.{
  Sending, published, not_marshalled, not_published, sent_result,
}
use deviceconnect.FileTransfer.Open.{Opening, control_message}
use deviceconnect.FileTransfer.Download.{
  Event, channel_closed, Status, running, returned, crashed, Download, download_step, download_loop,
  download_file,
}
use deviceconnect.FileTransfer.Requests.{
  Sent, session_topic, publish_all, publish, FileTransferParams, handle_response_error,
}
use deviceconnect.FileTransfer.DownloadHandler.{
  FileInfo, write_headers, Network, Response, Library, new_response, reply, closing, not_regular,
  has_regular_mode, finish_transfer, transfer, with_headers, answer_info, stat_message, stat_result,
  after_handshake, handshake, download_file_response,
}

abbrev pub close_message : FileTransferParams → Sent
close_message p = publish p (control_message close_session none)

pub reply-sent : (begun : Bool) (e : Error) (r : Response) → (reply begun e r).sent ≡ r.sent
unfolding handle_response_error
reply-sent true e r = refl
reply-sent false e r = refl

module _ (lib : Library) (n : Network) (is_head : Bool) (p : FileTransferParams)
    (path : String) where
  -- Nothing more is sent than what was, and what an end of the function sends.
  abbrev pub IsClosed : List Sent → Response → Type 0
  IsClosed sent r = (front : List Sent) × (r.sent ≡ sent ++ (front ++ (close_message p ∷ [])))

  abbrev IsRunning : Status → Type 0
  IsRunning running = Unit {0}
  IsRunning _ = ⊥

  closing-reply :
      (begun : Bool) (e : Error) (r : Response) (sent front : List Sent)
      → r.sent ≡ sent ++ front
      → IsClosed sent (closing p (reply begun e r))
  closing-reply begun e r sent front h = (
    front,
    ap (λ x. x ++ (close_message p ∷ [])) (reply-sent begun e r ∙ h)
        ∙ append_assoc sent front (close_message p ∷ []),
  )

  finish_transfer-IsClosed :
      (r : Response) (d : Download) (s : Status)
      → ¬ IsRunning s
      → IsClosed r.sent (finish_transfer lib n is_head p path r d s)
  finish_transfer-IsClosed r d running w = absurd (w tt)
  finish_transfer-IsClosed r d (returned none) w =
      (publish_all p d.sent, append_assoc r.sent (publish_all p d.sent) (close_message p ∷ []))
  finish_transfer-IsClosed r d (returned (some e)) w =
      closing-reply (lib.begun d) e
        (record r { written = d.written; sent = r.sent ++ publish_all p d.sent }) r.sent
        (publish_all p d.sent) refl
  finish_transfer-IsClosed r d crashed w =
      (publish_all p d.sent, append_assoc r.sent (publish_all p d.sent) (close_message p ∷ []))

  answer_info-IsClosed :
      (r : Response) (x : Result FileInfo)
      → ¬ IsRunning (transfer lib n is_head p path).status
      → IsClosed r.sent (answer_info lib n is_head p path r x)
  answer_info-IsClosed r (ok info) w =
      if_elim (IsClosed r.sent) (has_regular_mode lib n is_head p path info.mode)
        (with_headers lib n is_head p path r info) (closing p (reply false not_regular r))
        (λ _.
          if_elim (IsClosed r.sent) is_head _ _ (λ _. ([], refl))
            (λ _.
              finish_transfer-IsClosed (record r { headers = some (write_headers lib.base info) })
                (transfer lib n is_head p path) (transfer lib n is_head p path).status w))
        (λ _. closing-reply false not_regular r r.sent [] (sym (append-nil r.sent)))
  answer_info-IsClosed r (err e) w =
      closing-reply false (wrap e "failed to retrieve file info") r r.sent []
        (sym (append-nil r.sent))
  answer_info-IsClosed r panic w = ([], refl)

  -- The loop ends at the latest where the channel is closed.
  download_loop-ends :
      (d : Download) (events : List Event)
      → ¬ IsRunning
          (download_loop lib.unpack_error lib.unpack_info p.session_id p.user_id d
            (events ++ (channel_closed ∷ []))).status
  unfolding download_loop download_step
  download_loop-ends d [] = λ h. h
  download_loop-ends d (e ∷ events) =
      by_status (download_step lib.unpack_error lib.unpack_info p.session_id p.user_id d e)
        (download_step lib.unpack_error lib.unpack_info p.session_id p.user_id d e).status refl
        (download_loop-ends
          (download_step lib.unpack_error lib.unpack_info p.session_id p.user_id d e) events)
    where
      by_status :
          (d' : Download) (s : Status)
          → d'.status ≡ s
          → ¬ IsRunning
              (download_loop lib.unpack_error lib.unpack_info p.session_id p.user_id d'
                (events ++ (channel_closed ∷ []))).status
          → ¬ IsRunning
              (elim s as (λ _. Download) [
                | running ↦
                    download_loop lib.unpack_error lib.unpack_info p.session_id p.user_id d'
                      (events ++ (channel_closed ∷ []))
                | _ ↦ d'
              ]).status
      by_status d' running e ih = ih
      by_status d' (returned x) e ih = λ h. subst IsRunning e h
      by_status d' crashed e ih = λ h. subst IsRunning e h

  download_file-ends :
      (request : List ℕ) (requested : Sending) (events : List Event)
      → ¬ IsRunning
          (download_file lib.unpack_error lib.unpack_info p.session_id p.user_id request requested
            (events ++ (channel_closed ∷ []))).status
  unfolding download_file sent_result
  download_file-ends request published events = download_loop-ends _ events
  download_file-ends request (not_marshalled e) events = λ h. h
  download_file-ends request (not_published e) events = λ h. h

  -- A download whose subscription and handshake succeeded ends by closing the session: after the
  -- messages of the handshake and the question about the file, the last message to the device is
  -- the one that closes the session, whatever the answers are, where the channel of the device's
  -- messages is closed in the end.
  pub download_file_response-IsClosed :
      (events : List Event)
      → n.subscribed (session_topic p) ≡ none
      → (handshake lib n is_head p path).0 ≡ none
      → n.events ≡ events ++ (channel_closed ∷ [])
      → IsClosed
          (publish_all p (handshake lib n is_head p path).1
            ++ (stat_message lib n is_head p path ∷ []))
          (download_file_response lib n is_head p path)
  unfolding download_file_response
  download_file_response-IsClosed events s h e =
      subst
        (λ x.
          IsClosed (publish_all p hs.1 ++ (stat_message lib n is_head p path ∷ []))
            (elim x as (λ _. Response) [
              | some y ↦ reply false (wrap y "failed to subscribe to the mesages") new_response
              | none ↦ after_handshake lib n is_head p path hs
            ]))
        (sym s) (by_handshake hs h)
    where
      hs : Opening
      hs = handshake lib n is_head p path

      by_handshake :
          (o : Opening)
          → o.0 ≡ none
          → IsClosed
              (publish_all p o.1 ++ (stat_message lib n is_head p path ∷ []))
              (after_handshake lib n is_head p path o)
      by_handshake (some y, sent) k = absurd cc
      by_handshake (none, sent) k =
          answer_info-IsClosed
            (record new_response {
              sent = publish_all p sent ++ (stat_message lib n is_head p path ∷ []);
            })
            (stat_result lib n is_head p path)
            (subst
              (λ es.
                ¬ IsRunning
                  (download_file lib.unpack_error lib.unpack_info p.session_id p.user_id
                    (lib.pack_get path) n.requested es).status)
              (sym e) (download_file-ends (lib.pack_get path) n.requested events))
