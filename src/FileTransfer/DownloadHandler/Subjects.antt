-- ===== src/FileTransfer/DownloadHandler/Subjects.antt =====
-- api/http/management_filetransfer.go: to whom `downloadFileResponse` publishes.
use deviceconnect.Prelude.{
  String, List, [], ◌∷◌, ◌++◌, Option, none, some, Bool, true, false, if_elim, ◌≡◌, refl, sym,
}
use mathlib.Core.Path.{subst}
use deviceconnect.Errors.{Error, Result, ok, err, panic, wrap}
use deviceconnect.Protocol.{close_session}
use deviceconnect.Subject.{device_subject}
use deviceconnect.FileTransfer.Messages.{Packet}
use deviceconnect.FileTransfer.Open.{Opening, control_message}
use deviceconnect.FileTransfer.Download.{Status, running, returned, crashed, Download}
use deviceconnect.FileTransfer.Requests.{
  Sent, session_topic, publish_all, publish, FileTransferParams,
}
use deviceconnect.FileTransfer.DownloadHandler.{
  FileInfo, write_headers, Network, Response, Library, new_response, reply, closing, not_regular,
  has_regular_mode, finish_transfer, transfer, with_headers, answer_info, stat_result, stat_message,
  after_handshake, handshake, download_file_response,
}
use deviceconnect.FileTransfer.DownloadHandler.Closing.{reply-sent}

-- Every message is on the subject, and of the session.
abbrev pub AreTo : String → String → List Sent → Type 0
AreTo subject session_id [] = Unit {0}
AreTo subject session_id (m ∷ ms) =
    (m.subject ≡ subject) × (m.session_id ≡ session_id) × AreTo subject session_id ms

AreTo-append :
    (subject session_id : String) (ms ns : List Sent)
    → AreTo subject session_id ms
    → AreTo subject session_id ns
    → AreTo subject session_id (ms ++ ns)
AreTo-append subject session_id [] ns h k = k
AreTo-append subject session_id (m ∷ ms) ns (a, b, h) k =
    (a, b, AreTo-append subject session_id ms ns h k)

module _ (lib : Library) (n : Network) (is_head : Bool) (p : FileTransferParams)
    (path : String) where
  -- What is sent goes to the device of the parameters, in their tenant, under their session.
  abbrev AreOwn : List Sent → Type 0
  AreOwn = AreTo (device_subject p.tenant_id p.device.id) p.session_id

  AreOwn-append : (ms ns : List Sent) → AreOwn ms → AreOwn ns → AreOwn (ms ++ ns)
  AreOwn-append = AreTo-append (device_subject p.tenant_id p.device.id) p.session_id

  publish_all-AreOwn : (ms : List Packet) → AreOwn (publish_all p ms)
  publish_all-AreOwn [] = tt
  publish_all-AreOwn (m ∷ ms) = (refl, refl, publish_all-AreOwn ms)

  reply-AreOwn :
      (begun : Bool) (e : Error) (r : Response) → AreOwn r.sent → AreOwn (reply begun e r).sent
  reply-AreOwn begun e r h = subst AreOwn (sym (reply-sent begun e r)) h

  closing-AreOwn : (r : Response) → AreOwn r.sent → AreOwn (closing p r).sent
  closing-AreOwn r h =
      AreOwn-append r.sent (publish p (control_message close_session none) ∷ []) h (refl, refl, tt)

  finish_transfer-AreOwn :
      (r : Response) (d : Download) (s : Status)
      → AreOwn r.sent
      → AreOwn (finish_transfer lib n is_head p path r d s).sent
  finish_transfer-AreOwn r d s h = by_status s
    where
      k : AreOwn (r.sent ++ publish_all p d.sent)
      k = AreOwn-append r.sent (publish_all p d.sent) h (publish_all-AreOwn d.sent)

      written : Response
      written = record r { written = d.written; sent = r.sent ++ publish_all p d.sent }

      by_status : (x : Status) → AreOwn (finish_transfer lib n is_head p path r d x).sent
      by_status running = k
      by_status (returned none) = closing-AreOwn written k
      by_status (returned (some e)) =
          closing-AreOwn (reply (lib.begun d) e written) (reply-AreOwn (lib.begun d) e written k)
      by_status crashed = closing-AreOwn (record written { panicked = true }) k

  answer_info-AreOwn :
      (r : Response) (x : Result FileInfo)
      → AreOwn r.sent
      → AreOwn (answer_info lib n is_head p path r x).sent
  answer_info-AreOwn r (ok info) h =
      if_elim (λ (q : Response). AreOwn q.sent) (has_regular_mode lib n is_head p path info.mode)
        (with_headers lib n is_head p path r info) (closing p (reply false not_regular r))
        (λ _.
          if_elim (λ (q : Response). AreOwn q.sent) is_head (closing p r')
            (finish_transfer lib n is_head p path r' d d.status) (λ _. closing-AreOwn r' h)
            (λ _. finish_transfer-AreOwn r' d d.status h))
        (λ _. closing-AreOwn (reply false not_regular r) (reply-AreOwn false not_regular r h))
    where
      r' : Response
      r' = record r { headers = some (write_headers lib.base info) }

      d : Download
      d = transfer lib n is_head p path
  answer_info-AreOwn r (err e) h =
      let x = wrap e "failed to retrieve file info" in
      closing-AreOwn (reply false x r) (reply-AreOwn false x r h)
  answer_info-AreOwn r panic h = closing-AreOwn (record r { panicked = true }) h

  after_handshake-AreOwn : (o : Opening) → AreOwn (after_handshake lib n is_head p path o).sent
  after_handshake-AreOwn (some e, sent) =
      reply-AreOwn false e (record new_response { sent = publish_all p sent })
        (publish_all-AreOwn sent)
  after_handshake-AreOwn (none, sent) =
      let m = stat_message lib n is_head p path in
      answer_info-AreOwn (record new_response { sent = publish_all p sent ++ (m ∷ []) })
        (stat_result lib n is_head p path)
        (AreOwn-append (publish_all p sent) (m ∷ []) (publish_all-AreOwn sent) (refl, refl, tt))

  pub download_file_response-AreOwn : AreOwn (download_file_response lib n is_head p path).sent
  unfolding download_file_response
  download_file_response-AreOwn = by_subscription (n.subscribed (session_topic p))
    where
      by_subscription :
          (x : Option Error)
          → AreOwn
              (elim x as (λ _. Response) [
                | some e ↦ reply false (wrap e "failed to subscribe to the mesages") new_response
                | none ↦ after_handshake lib n is_head p path (handshake lib n is_head p path)
              ]).sent
      by_subscription (some e) =
          reply-AreOwn false (wrap e "failed to subscribe to the mesages") new_response tt
      by_subscription none = after_handshake-AreOwn (handshake lib n is_head p path)
