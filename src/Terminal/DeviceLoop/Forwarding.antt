-- ===== src/Terminal/DeviceLoop/Forwarding.antt =====
-- api/http/management.go: which of the device's messages are written to the user's websocket.
use deviceconnect.Prelude.{
  ℕ, true, false, List, [], ◌∷◌, ◌++◌, append_assoc, append-nil, Option, none, some, if_elim, ◌≡◌,
  ◌⊎◌, inl, inr, refl, sym, ap, ◌∙◌, arith,
}
use deviceconnect.Errors.{Error}
use deviceconnect.Protocol.{ProtoMsg, Proto, MsgType, shell, shell_command}
use deviceconnect.Session.{Session}
use deviceconnect.Terminal.DeviceLoop.{
  Arrival, Input, from_device, malformed, context_done, tick, failure, Status, running, returned,
  Forwarded, original, DeviceLoop, record_session, handle_sess_limit, is_over_limit, inspect,
  write_message, device_step, device_loop,
}

-- The messages among the inputs, in their order.
abbrev pub messages : List Input → List ProtoMsg
messages [] = []
messages (from_device a ∷ inputs) = a.msg ∷ messages inputs
messages (_ ∷ inputs) = messages inputs

-- Messages as they came.
abbrev pub originals : List ProtoMsg → List Forwarded
originals [] = []
originals (m ∷ ms) = original m ∷ originals ms

originals-concat :
    (ms : List ProtoMsg) (m : ProtoMsg)
    → originals (ms ++ (m ∷ [])) ≡ originals ms ++ (original m ∷ [])
originals-concat [] m = refl
originals-concat (x ∷ ms) m = ap (λ fs. original x ∷ fs) (originals-concat ms m)

-- Of the messages `ms` that came, the first ones were written, each as it came and once; while the
-- loop runs and the session is within its limit, these are all of them.
abbrev pub IsForwarded : List ProtoMsg → DeviceLoop → Type 0
IsForwarded ms l =
    (written : List ProtoMsg) × (rest : List ProtoMsg) × (ms ≡ written ++ rest)
    × (l.forwarded ≡ originals written)
    × (l.sess_over_limit ≡ false → l.status ≡ running → rest ≡ [])

module _ (to_ms : ℕ → ℕ) (limit_text : List ℕ) (s : Session) where
  -- What is known of the message to write and the state before it is written.
  abbrev IsInspected : Arrival → DeviceLoop → Forwarded × DeviceLoop → Type 0
  IsInspected a l (m, l') =
      (l'.forwarded ≡ l.forwarded)
      × (l'.sess_over_limit ≡ false → (m ≡ original a.msg) × (l.sess_over_limit ≡ false))

  record_session-IsInspected :
      (a : Arrival) (l : DeviceLoop)
      → IsInspected a l (original a.msg, record_session to_ms limit_text s a l)
  unfolding record_session
  record_session-IsInspected a l = ground arith

  handle_sess_limit-IsInspected :
      (a : Arrival) (m : Forwarded) (l : DeviceLoop)
      → IsInspected a l
          (handle_sess_limit to_ms limit_text s m (record l { sess_over_limit = true }))
  unfolding handle_sess_limit
  handle_sess_limit-IsInspected a m l = ground arith

  inspect-IsInspected :
      (a : Arrival) (p : Proto) (t : MsgType) (l : DeviceLoop)
      → IsInspected a l (inspect to_ms limit_text s a p t l)
  inspect-IsInspected a shell shell_command l =
      if_elim (IsInspected a l) (is_over_limit to_ms limit_text s l) _ _
        (λ _. handle_sess_limit-IsInspected a (original a.msg) l)
        (λ _. record_session-IsInspected a l)
  inspect-IsInspected a p t l = (refl, λ within. (refl, within))

  -- A message is written as it came, or it is the first that is not written.
  abbrev IsNext : Arrival → DeviceLoop → DeviceLoop → Type 0
  IsNext a l l' =
      ((l.sess_over_limit ≡ false) × (l'.forwarded ≡ l.forwarded ++ (original a.msg ∷ [])))
      ⊎ ((l'.forwarded ≡ l.forwarded) × (l'.sess_over_limit ≡ false → l'.status ≡ running → ⊥))

  write_message-IsNext :
      (a : Arrival) (l : DeviceLoop) (x : Forwarded × DeviceLoop)
      → IsInspected a l x
      → IsNext a l (write_message to_ms limit_text s a.written x)
  write_message-IsNext a l (m, l') (same, within) =
      if_elim (IsNext a l) l'.sess_over_limit l' _ (λ over. inr (same, λ q _. absurd cc))
        (λ q. by_write a.written (within q).0 (within q).1)
    where
      by_write :
          (w : Option Error)
          → m ≡ original a.msg
          → l.sess_over_limit ≡ false
          → IsNext a l (elim w [
            | none ↦ record l' { forwarded = l'.forwarded ++ (m ∷ []) }
            | some e ↦ record l' { status = returned (some e) }
          ])
      by_write none e f = inl (f, rw (same, e))
      by_write (some x) e f = inr (same, λ _ q. absurd cc)

  next-IsForwarded :
      (ms : List ProtoMsg) (a : Arrival) (l l' : DeviceLoop)
      → l.status ≡ running
      → IsNext a l l'
      → IsForwarded ms l
      → IsForwarded (ms ++ (a.msg ∷ [])) l'
  next-IsForwarded ms a l l' r (inl (within, fw)) (written, rest, e, f, all) = (
    written ++ (a.msg ∷ []),
    [],
    rw (e, all within r) (ap (λ x. x ++ (a.msg ∷ [])) (append-nil written) ∙ sym (append-nil _)),
    fw ∙ rw f (sym (originals-concat written a.msg)),
    λ _ _. refl,
  )
  next-IsForwarded ms a l l' r (inr (fw, ended)) (written, rest, e, f, all) = (
    written,
    rest ++ (a.msg ∷ []),
    rw e (append_assoc written rest (a.msg ∷ [])),
    fw ∙ f,
    λ x y. absurd (ended x y),
  )

  ended-IsForwarded :
      (ms more : List ProtoMsg) (e : Option Error) (l : DeviceLoop)
      → l.status ≡ returned e
      → IsForwarded ms l
      → IsForwarded (ms ++ more) l
  ended-IsForwarded ms more e l r (written, rest, k, f, all) =
      (written, rest ++ more, rw k (append_assoc written rest more), f, λ _ q. absurd cc)

  returned-IsForwarded :
      (ms : List ProtoMsg) (e : Option Error) (l : DeviceLoop)
      → IsForwarded ms l
      → IsForwarded (ms ++ []) (record l { status = returned e })
  returned-IsForwarded ms e l (written, rest, k, f, all) =
      (written, rest, append-nil ms ∙ k, f, λ _ q. absurd cc)

  device_step-IsForwarded :
      (ms : List ProtoMsg) (l : DeviceLoop) (i : Input)
      → l.status ≡ running
      → IsForwarded ms l
      → IsForwarded (ms ++ messages (i ∷ [])) (device_step to_ms limit_text s l i)
  unfolding device_step
  device_step-IsForwarded ms l (from_device a) r h =
      next-IsForwarded ms a l
        (write_message to_ms limit_text s a.written
          (inspect to_ms limit_text s a a.msg.proto a.msg.msg_type l))
        r
        (write_message-IsNext a l (inspect to_ms limit_text s a a.msg.proto a.msg.msg_type l)
          (inspect-IsInspected a a.msg.proto a.msg.msg_type l))
        h
  device_step-IsForwarded ms l (malformed e) r h = returned-IsForwarded ms (some e) l h
  device_step-IsForwarded ms l context_done r h = returned-IsForwarded ms none l h
  device_step-IsForwarded ms l (tick true) r h = rw (append-nil ms) h
  device_step-IsForwarded ms l (tick false) r h = returned-IsForwarded ms _ l h
  device_step-IsForwarded ms l (failure e) r h = returned-IsForwarded ms (some e) l h

  messages-cons :
      (i : Input) (inputs : List Input)
      → messages (i ∷ inputs) ≡ messages (i ∷ []) ++ messages inputs
  messages-cons (from_device a) inputs = refl
  messages-cons (malformed e) inputs = refl
  messages-cons context_done inputs = refl
  messages-cons (tick b) inputs = refl
  messages-cons (failure e) inputs = refl

  pub device_loop-IsForwarded :
      (inputs : List Input) (ms : List ProtoMsg) (l : DeviceLoop)
      → l.status ≡ running
      → IsForwarded ms l
      → IsForwarded (ms ++ messages inputs) (device_loop to_ms limit_text s l inputs)
  unfolding device_loop
  device_loop-IsForwarded [] ms l r h = rw (append-nil ms) h
  device_loop-IsForwarded (i ∷ inputs) ms l r h =
      rw (messages-cons i inputs, sym (append_assoc ms (messages (i ∷ [])) (messages inputs)))
        (by_status (device_step to_ms limit_text s l i).status refl (λ e.
          device_loop-IsForwarded inputs (ms ++ messages (i ∷ []))
            (device_step to_ms limit_text s l i) e (device_step-IsForwarded ms l i r h)))
    where
      l' : DeviceLoop
      l' = device_step to_ms limit_text s l i

      k : IsForwarded (ms ++ messages (i ∷ [])) l'
      k = device_step-IsForwarded ms l i r h

      by_status :
          (x : Status)
          → l'.status ≡ x
          → (l'.status ≡ running
              → IsForwarded
                  ((ms ++ messages (i ∷ [])) ++ messages inputs)
                  (device_loop to_ms limit_text s l' inputs))
          → IsForwarded
              ((ms ++ messages (i ∷ [])) ++ messages inputs)
              (elim x [ running ↦ device_loop to_ms limit_text s l' inputs | returned _ ↦ l' ])
      by_status running e rest = rest e
      by_status (returned y) e rest =
          ended-IsForwarded (ms ++ messages (i ∷ [])) (messages inputs) y l' e k
