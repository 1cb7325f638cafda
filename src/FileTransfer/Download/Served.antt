-- ===== src/FileTransfer/Download/Served.antt =====
-- api/http/management_filetransfer.go: the download of a file that the device sends in order.
use deviceconnect.Prelude.{
  ℕ, ◌+◌, String, List, [], ◌∷◌, length, Option, none, some, true, leb, ==_iff, if◌then◌else◌,
  if_elim, ◌≡◌, refl, sym, ap, ◌∙◌,
}
use mathlib.Core.Path.{subst}
use deviceconnect.Errors.{Result, ok, err, panic}
use deviceconnect.Protocol.{MsgType, error, chunk}
use deviceconnect.FileTransfer.Messages.{
  Packet, published, sent_result, Body, DeviceError, prop_offset, decode_message,
}
use deviceconnect.FileTransfer.Download.{
  Event, channel_closed, cancelled, received, running, returned, Download, write_chunk, at_offset,
  receive_chunk, receive, handle, download_step, download_loop, download_file, wrong_offset,
  ack_sliding_window_send,
}
use deviceconnect.FileTransfer.Download.Content.{Adds, Takes, Brings}

-- Every call of the writer and every publishing ends without an error.
abbrev pub IsServed : List Event → Type 0
IsServed [] = Unit {0}
IsServed (received m stored sending ∷ events) =
    (stored ≡ none) × (sending ≡ published) × IsServed events
IsServed (_ ∷ events) = IsServed events

module _ (unpack_error : Option (List ℕ) → Result DeviceError)
    (unpack_info : Option (List ℕ) → Result ℕ) (session_id user_id : String) where
  abbrev loop : Download → List Event → Download
  loop = download_loop unpack_error unpack_info session_id user_id

  abbrev Ends : Download → List Event → Type 0
  Ends q events =
      (bs : List ℕ)
      → q.status ≡ running
      → Brings unpack_error unpack_info session_id user_id events q.latest_offset bs
      → IsServed events
      → (loop q events).status ≡ returned none

  abbrev after : Download → Download → Download
  after d rest = elim d.status [ running ↦ rest | _ ↦ d ]

  -- The loop goes on with `q`.
  continued :
      (q : Download) (events : List Event) (n : ℕ) (bs : List ℕ)
      → Ends q events
      → q.status ≡ running
      → q.latest_offset ≡ n
      → Brings unpack_error unpack_info session_id user_id events n bs
      → IsServed events
      → (after q (loop q events)).status ≡ returned none
  continued q events n bs ends r l b s =
      ap (λ t. let x : Download = elim t [ running ↦ loop q events | _ ↦ q ] in x.status) r
      ∙ ends bs r
          (subst (λ k. Brings unpack_error unpack_info session_id user_id events k bs) (sym l) b) s

  chunk-Ends :
      (m : Packet) (body : Option (List ℕ)) (d : Download) (events : List Event) (bs : List ℕ)
      → ((q : Download) → Ends q events)
      → d.status ≡ running
      → Adds chunk body m.properties d.latest_offset bs
          (Brings unpack_error unpack_info session_id user_id events)
      → IsServed events
      → let d' = receive_chunk unpack_error unpack_info session_id user_id m body none none d in
        (after d' (loop d' events)).status ≡ returned none
  chunk-Ends m none d events bs ends r a s = refl
  chunk-Ends m (some body) d events bs ends r (at, (tail, e, b)) s =
      subst
        (λ t. P (
          if t
          then write_chunk unpack_error unpack_info session_id user_id body none none d
          else refused))
        (sym there)
        (if_elim P (leb ack_sliding_window_send (d.number_of_chunks + 1)) _ _
          (λ _. continued _ events (d.latest_offset + length body) tail (ends _) r refl b s)
          (λ _. continued _ events (d.latest_offset + length body) tail (ends _) r refl b s))
    where
      P : Download → Type 0
      P d' = (after d' (loop d' events)).status ≡ returned none

      refused : Download
      refused = record d {
        status = returned (some (wrong_offset unpack_error unpack_info session_id user_id));
      }

      there :
          at_offset unpack_error unpack_info session_id user_id
            (prop_offset m.properties)
            d.latest_offset
          ≡ true
      there =
          ap (λ o. at_offset unpack_error unpack_info session_id user_id o d.latest_offset) at
          ∙ (==_iff d.latest_offset d.latest_offset).1 refl

  receive-Ends :
      (t : MsgType) (m : Packet) (b : Body) (d : Download) (events : List Event) (bs : List ℕ)
      → ((q : Download) → Ends q events)
      → d.status ≡ running
      → Adds t m.body m.properties d.latest_offset bs
          (Brings unpack_error unpack_info session_id user_id events)
      → IsServed events
      → let d' = receive unpack_error unpack_info session_id user_id t (m, b) none none d in
        (after d' (loop d' events)).status ≡ returned none
  receive-Ends error m b d events bs ends r a s = absurd a
  receive-Ends chunk m b d events bs ends r a s = chunk-Ends m m.body d events bs ends r a s
  receive-Ends t m b d events bs ends r a s =
      continued _ events d.latest_offset bs (ends _) r refl a s

  handle-Ends :
      (x : Result (Packet × Body)) (d : Download) (events : List Event) (bs : List ℕ)
      → ((q : Download) → Ends q events)
      → d.status ≡ running
      → Takes x d.latest_offset bs (Brings unpack_error unpack_info session_id user_id events)
      → IsServed events
      → let d' = handle unpack_error unpack_info session_id user_id x none none d in
        (after d' (loop d' events)).status ≡ returned none
  handle-Ends (ok (m, b)) d events bs ends r a s =
      receive-Ends m.msg_type m b d events bs ends r a s
  handle-Ends (err e) d events bs ends r a s = absurd a
  handle-Ends panic d events bs ends r a s = absurd a

  loop-Ends : (events : List Event) (d : Download) → Ends d events
  unfolding download_loop download_step sent_result
  loop-Ends [] d bs r b s = absurd b
  loop-Ends (channel_closed ∷ events) d bs r b s = absurd b
  loop-Ends (cancelled e ∷ events) d bs r b s = absurd b
  loop-Ends (received m stored sending ∷ events) d bs r b (w, p, s) =
      rw (w, p)
        (handle-Ends (decode_message unpack_error unpack_info m) d events bs (loop-Ends events) r b
          s)

  -- When the device brings a whole file and no call fails, the download reports success.
  pub download_file_served :
      (request : List ℕ) (events : List Event) (bs : List ℕ)
      → Brings unpack_error unpack_info session_id user_id events 0 bs
      → IsServed events
      → (download_file unpack_error unpack_info session_id user_id request published events).status
        ≡ returned none
  unfolding download_file sent_result
  download_file_served request events bs b s = loop-Ends events _ bs refl b s
