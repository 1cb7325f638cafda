-- ===== src/FileTransfer/Upload/Inbounds.antt =====
-- api/http/management_filetransfer.go: the acknowledgements that the writer of an upload gets.
use deviceconnect.Prelude.{
  ℕ, ◌≤◌, String, List, [], ◌∷◌, ◌++◌, Option, none, some, true, ltb, if_elim, ◌≡◌, refl, arith,
}
use deviceconnect.Errors.{Error, Result, ok, err, panic}
use deviceconnect.Protocol.{MsgType, error, ack, ping}
use deviceconnect.FileTransfer.Messages.{
  Packet, Sending, sent_result, Body, no_body, error_body, info_body, DeviceError, prop_offset,
  decode_message,
}
use deviceconnect.FileTransfer.Upload.{Inbound, acknowledged, inbound, inbound_step}

module _ (unpack_error : Option (List ℕ) → Result DeviceError)
    (unpack_info : Option (List ℕ) → Result ℕ) (session_id user_id : String) where
  -- The offset in the channel is the latest.
  abbrev pub IsLatest : Inbound → Type 0
  IsLatest i = elim i.latest_ack_offsets [ none ↦ Unit {0} | some n ↦ n ≡ i.latest_ack_offset ]

  abbrev Advances : Inbound → Inbound → Type 0
  Advances i i' = (i.latest_ack_offset ≤ i'.latest_ack_offset) × IsLatest i'

  acknowledged-Advances :
      (o : Option ℕ) (i : Inbound)
      → IsLatest i
      → Advances i (acknowledged unpack_error unpack_info session_id user_id o i)
  acknowledged-Advances none i h = (omega arith, h)
  acknowledged-Advances (some n) i h =
      if_elim (Advances i) (ltb i.latest_ack_offset n) _ i (λ l. (ground arith, refl))
        (λ _. (omega arith, h))

  inbound-Advances :
      (t : MsgType) (m : Packet) (b : Body) (failure : Option Error) (i : Inbound)
      → IsLatest i
      → Advances i (inbound unpack_error unpack_info session_id user_id t (m, b) failure i)
  inbound-Advances error m no_body failure i h = (omega arith, h)
  inbound-Advances error m (error_body e) failure i h = (omega arith, h)
  inbound-Advances error m (info_body n) failure i h = (omega arith, h)
  inbound-Advances ack m b failure i h = acknowledged-Advances (prop_offset m.properties) i h
  inbound-Advances ping m b none i h = (omega arith, h)
  inbound-Advances ping m b (some e) i h = (omega arith, h)
  inbound-Advances t m b failure i h = (omega arith, h)

  -- No message of the device takes an acknowledgement back: the latest offset does not fall, and
  -- where the offset that waits for the writer was the latest one, it is so afterwards.
  pub inbound_step-Advances :
      (i : Inbound) (m : Result Packet) (sending : Sending)
      → IsLatest i
      → let i' = inbound_step unpack_error unpack_info session_id user_id i m sending in
        (i.latest_ack_offset ≤ i'.latest_ack_offset) × IsLatest i'
  unfolding inbound_step
  inbound_step-Advances i m sending h = by_decoded (decode_message unpack_error unpack_info m)
    where
      by_decoded :
          (x : Result (Packet × Body))
          → Advances i (elim x [
            | ok (p, b) ↦
                inbound unpack_error unpack_info session_id user_id p.msg_type
                  (p, b)
                  (sent_result sending)
                  i
            | err e ↦ record i { errors = i.errors ++ (e ∷ []); done = true }
            | panic ↦ record i { done = true }
          ])
      by_decoded (ok (p, b)) = inbound-Advances p.msg_type p b (sent_result sending) i h
      by_decoded (err e) = (omega arith, h)
      by_decoded panic = (omega arith, h)
