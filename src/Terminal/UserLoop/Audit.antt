-- ===== src/Terminal/UserLoop/Audit.antt =====
-- api/http/management.go: what the user's loop lets through to the device.
use deviceconnect.Terminal.Resize.{resize_control}
use deviceconnect.Control.{Control}
use mathlib.Core.Path.{subst}
use deviceconnect.Terminal.UserLoop.{
  forward, shell_message, record_resize, audit_terminal, audit_port_forward, dispatch,
}
use deviceconnect.Prelude.{
  String, Bool, true, false, List, [], ◌∷◌, ◌++◌, Option, none, some, leb, if◌then◌else◌, ◌≡◌, refl,
  sym, ◌∙◌, arith, str_eq_iff, if_elim,
}
use deviceconnect.Terminal.UserLoop.Logged.{
  is_shell, is_port_forward, first_logged, IsLogged, user_loop-AreLogged,
}
use deviceconnect.Errors.{Error}
use deviceconnect.Protocol.{
  ProtoMsg, Proto, MsgType, shell, port_forward, lookup, insert, text, Properties, Value,
}
use deviceconnect.Session.{Session, session_type_terminal, session_type_port_forward}
use deviceconnect.Subject.{device_subject}
use deviceconnect.Terminal.UserLoop.{
  UserLoop, Input, arrival, close_frame, read_error, malformed, Status, running, returned,
  user_step, user_loop, new_user_loop, stamped, message_size_limit, Arrival, property_user_id,
}

lookup-insert_self : (k : String) (v : Value) (m : Properties) → lookup k (insert k v m) ≡ some v
lookup-insert_self k v [] = ground (arith, str_eq_iff k k)
lookup-insert_self k v ((j, w) ∷ m) =
    ground (arith, str_eq_iff k k, str_eq_iff j k, lookup-insert_self k v m)

-- A message that may reach the device: on the subject of the session's device, under the session's
-- own id and its user, and of a kind that is marked as entered in the audit log.
abbrev pub IsAllowed : String → Session → Bool → Bool → String × ProtoMsg → Type 0
IsAllowed tenant s terminal port_forwarding (subject, m) =
    (subject ≡ device_subject tenant s.device_id)
    × (m.session_id ≡ s.id)
    × (lookup "user_id" m.properties ≡ some (text s.user_id))
    × (m.proto ≡ shell → terminal ≡ true)
    × (m.proto ≡ port_forward → port_forwarding ≡ true)

abbrev pub AllAllowed : String → Session → Bool → Bool → List (String × ProtoMsg) → Type 0
AllAllowed tenant s t p [] = Unit {0}
AllAllowed tenant s t p (m ∷ ms) = IsAllowed tenant s t p m × AllAllowed tenant s t p ms

AllAllowed-concat :
    (tenant : String) (s : Session) (t p : Bool) (ms : List (String × ProtoMsg))
    (m : String × ProtoMsg)
    → AllAllowed tenant s t p ms
    → IsAllowed tenant s t p m
    → AllAllowed tenant s t p (ms ++ (m ∷ []))
AllAllowed-concat tenant s t p [] m h k = (k, tt)
AllAllowed-concat tenant s t p (x ∷ ms) m (h, hs) k = (h, AllAllowed-concat tenant s t p ms m hs k)

-- What was allowed stays so when an audit entry is added.
AllAllowed-mono :
    (tenant : String) (s : Session) (t p t' p' : Bool) (ms : List (String × ProtoMsg))
    → (t ≡ true → t' ≡ true)
    → (p ≡ true → p' ≡ true)
    → AllAllowed tenant s t p ms
    → AllAllowed tenant s t' p' ms
AllAllowed-mono tenant s t p t' p' [] f g h = tt
AllAllowed-mono tenant s t p t' p' (m ∷ ms) f g ((a, b, c, d, e), hs) =
    ((a, b, c, (λ q. f (d q)), (λ q. g (e q))), AllAllowed-mono tenant s t p t' p' ms f g hs)

-- The types that the session has are those whose audit entries were taken, each once.
abbrev pub IsTyped : Bool → Bool → List String → Type 0
IsTyped false false ts = ts ≡ []
IsTyped true false ts = ts ≡ session_type_terminal ∷ []
IsTyped false true ts = ts ≡ session_type_port_forward ∷ []
IsTyped true true ts =
    (t : Bool) × (ts ≡ (
      if t
      then session_type_terminal ∷ session_type_port_forward ∷ []
      else session_type_port_forward ∷ session_type_terminal ∷ []))

pub record IsAudited (tenant : String) (s : Session) (l : UserLoop) : Type 0 where
  pub allowed : AllAllowed tenant s l.log_terminal l.log_port_forward l.sent
  pub typed : IsTyped l.log_terminal l.log_port_forward l.types

module _ (tenant : String) (s : Session) where
  stamped-IsAllowed :
      (t p : Bool) (m : ProtoMsg)
      → (m.proto ≡ shell → t ≡ true)
      → (m.proto ≡ port_forward → p ≡ true)
      → IsAllowed tenant s t p (device_subject tenant s.device_id, stamped s m)
  stamped-IsAllowed t p m f g =
      (refl, refl, lookup-insert_self property_user_id (text s.user_id) m.properties, f, g)

  forward-IsAudited :
      (a : Arrival) (l : UserLoop)
      → IsAudited tenant s l
      → (a.msg.proto ≡ shell → l.log_terminal ≡ true)
      → (a.msg.proto ≡ port_forward → l.log_port_forward ≡ true)
      → IsAudited tenant s (forward tenant s a l)
  forward-IsAudited a l h f g = by_publish a.published
    where
      sent-allowed :
          AllAllowed tenant s l.log_terminal l.log_port_forward
            (l.sent ++ ((device_subject tenant s.device_id, stamped s a.msg) ∷ []))
      sent-allowed =
          AllAllowed-concat tenant s l.log_terminal l.log_port_forward l.sent
            (device_subject tenant s.device_id, stamped s a.msg) h.allowed
            (stamped-IsAllowed l.log_terminal l.log_port_forward a.msg f g)

      l' : UserLoop
      l' = record l { sent = l.sent ++ ((device_subject tenant s.device_id, stamped s a.msg) ∷ []) }

      by_publish :
          (x : Option Error)
          → IsAudited tenant s
              (elim x [ none ↦ l' | some e ↦ record l' { status = returned (some e) } ])
      by_publish none = record { allowed = sent-allowed; typed = h.typed }
      by_publish (some e) = record { allowed = sent-allowed; typed = h.typed }

  -- A change of other variables keeps what was said of the messages.
  same-IsAudited :
      (l l' : UserLoop)
      → IsAudited tenant s l
      → l'.sent ≡ l.sent
      → l'.types ≡ l.types
      → l'.log_terminal ≡ l.log_terminal
      → l'.log_port_forward ≡ l.log_port_forward
      → IsAudited tenant s l'
  same-IsAudited l l' h a b c d = record {
    allowed = rw (a, c, d) h.allowed;
    typed = rw (b, c, d) h.typed;
  }

  shell_forward :
      (a : Arrival) (l : UserLoop)
      → IsAudited tenant s l
      → l.log_terminal ≡ true
      → a.msg.proto ≡ shell
      → IsAudited tenant s (forward tenant s a l)
  shell_forward a l h f e = forward-IsAudited a l h (λ _. f) (λ q. absurd (differ (sym e ∙ q)))
    where
      differ : ◌≡◌ {A = Proto} shell port_forward → ⊥
      differ q = cc

  port_forward_forward :
      (a : Arrival) (l : UserLoop)
      → IsAudited tenant s l
      → l.log_port_forward ≡ true
      → a.msg.proto ≡ port_forward
      → IsAudited tenant s (forward tenant s a l)
  port_forward_forward a l h f e =
      forward-IsAudited a l h (λ q. absurd (differ (sym e ∙ q))) (λ _. f)
    where
      differ : ◌≡◌ {A = Proto} port_forward shell → ⊥
      differ q = cc

  resize_forward :
      (a : Arrival) (c : Option Control) (l : UserLoop)
      → IsAudited tenant s l
      → l.log_terminal ≡ true
      → a.msg.proto ≡ shell
      → IsAudited tenant s (forward tenant s a (record_resize c a.taken l))
  resize_forward a none l h f e = shell_forward a l h f e
  resize_forward a (some c) l h f e =
      shell_forward a (record_resize (some c) a.taken l) (same-IsAudited l _ h refl refl refl refl)
        f e

  shell_message-IsAudited :
      (a : Arrival) (t : MsgType) (l : UserLoop)
      → IsAudited tenant s l
      → l.log_terminal ≡ true
      → a.msg.proto ≡ shell
      → IsAudited tenant s (shell_message tenant s a t l)
  shell_message-IsAudited a MsgType.spawn_shell l h f e =
      shell_forward a (record l { terminal_running = true })
        (same-IsAudited l _ h refl refl refl refl) f e
  shell_message-IsAudited a MsgType.stop_shell l h f e =
      shell_forward a (record l { terminal_running = false })
        (same-IsAudited l _ h refl refl refl refl) f e
  shell_message-IsAudited a MsgType.resize_shell l h f e =
      if_elim (IsAudited tenant s) l.ignore_control l _ (λ _. h)
        (λ _.
          if_elim (IsAudited tenant s) (leb message_size_limit l.control_bytes)
            (record l { ignore_control = true }) _ (λ _. same-IsAudited l _ h refl refl refl refl)
            (λ _.
              resize_forward a (resize_control (stamped s a.msg).properties a.bytes_recorded) l h f
                e))
  shell_message-IsAudited a t l h f e = shell_forward a l h f e

  IsTyped-terminal :
      (p : Bool) (ts : List String)
      → IsTyped false p ts
      → IsTyped true p (ts ++ (session_type_terminal ∷ []))
  IsTyped-terminal false ts h = rw h
  IsTyped-terminal true ts h = (false, rw h)

  IsTyped-port_forward :
      (t : Bool) (ts : List String)
      → IsTyped t false ts
      → IsTyped t true (ts ++ (session_type_port_forward ∷ []))
  IsTyped-port_forward false ts h = rw h
  IsTyped-port_forward true ts h = (true, rw h)

  audit_terminal-IsAudited :
      (x : Option Error) (l : UserLoop) (rest : UserLoop → UserLoop)
      → IsAudited tenant s l
      → l.log_terminal ≡ false
      → ((q : UserLoop)
          → IsAudited tenant s q
          → q.log_terminal ≡ true
          → IsAudited tenant s (rest q))
      → IsAudited tenant s (audit_terminal x l rest)
  audit_terminal-IsAudited (some e) l rest h f k = same-IsAudited l _ h refl refl refl refl
  audit_terminal-IsAudited none l rest h f k =
      k (record l { types = l.types ++ (session_type_terminal ∷ []); log_terminal = true })
        (record {
          allowed =
              AllAllowed-mono tenant s l.log_terminal l.log_port_forward true l.log_port_forward
                l.sent (λ _. refl) (λ q. q) h.allowed;
          typed =
              IsTyped-terminal l.log_port_forward l.types
                (subst (λ t. IsTyped t l.log_port_forward l.types) f h.typed);
        })
        refl

  audit_port_forward-IsAudited :
      (x : Option Error) (l : UserLoop) (rest : UserLoop → UserLoop)
      → IsAudited tenant s l
      → l.log_port_forward ≡ false
      → ((q : UserLoop)
          → IsAudited tenant s q
          → q.log_port_forward ≡ true
          → IsAudited tenant s (rest q))
      → IsAudited tenant s (audit_port_forward x l rest)
  audit_port_forward-IsAudited (some e) l rest h f k = same-IsAudited l _ h refl refl refl refl
  audit_port_forward-IsAudited none l rest h f k =
      k (record l { types = l.types ++ (session_type_port_forward ∷ []); log_port_forward = true })
        (record {
          allowed =
              AllAllowed-mono tenant s l.log_terminal l.log_port_forward l.log_terminal true l.sent
                (λ q. q) (λ _. refl) h.allowed;
          typed =
              IsTyped-port_forward l.log_terminal l.types
                (subst (λ p. IsTyped l.log_terminal p l.types) f h.typed);
        })
        refl

  dispatch-IsAudited :
      (a : Arrival) (p : Proto) (l : UserLoop)
      → a.msg.proto ≡ p
      → IsAudited tenant s l
      → IsAudited tenant s (dispatch tenant s a p l)
  dispatch-IsAudited a shell l e h =
      if_elim (IsAudited tenant s) l.log_terminal _ _
        (λ logged. shell_message-IsAudited a a.msg.msg_type l h logged e)
        (λ fresh.
          audit_terminal-IsAudited a.logged l (λ q. shell_message tenant s a a.msg.msg_type q) h
            fresh (λ q k f. shell_message-IsAudited a a.msg.msg_type q k f e))
  dispatch-IsAudited a port_forward l e h =
      if_elim (IsAudited tenant s) l.log_port_forward _ _
        (λ logged. port_forward_forward a l h logged e)
        (λ fresh.
          audit_port_forward-IsAudited a.logged l (λ q. forward tenant s a q) h fresh
            (λ q k f. port_forward_forward a q k f e))
  dispatch-IsAudited a p l e h = forward-IsAudited a l h (λ q. absurd (cc)) (λ q. absurd (cc))

  user_step-IsAudited :
      (l : UserLoop) (i : Input)
      → IsAudited tenant s l
      → IsAudited tenant s (user_step tenant s l i)
  unfolding user_step
  user_step-IsAudited l close_frame h = same-IsAudited l _ h refl refl refl refl
  user_step-IsAudited l (read_error e) h = same-IsAudited l _ h refl refl refl refl
  user_step-IsAudited l (malformed e) h = same-IsAudited l _ h refl refl refl refl
  user_step-IsAudited l (arrival a) h = dispatch-IsAudited a a.msg.proto l refl h

  loop-IsAudited :
      (inputs : List Input) (l : UserLoop)
      → IsAudited tenant s l
      → IsAudited tenant s (user_loop tenant s l inputs)
  unfolding user_loop
  loop-IsAudited [] l h = h
  loop-IsAudited (i ∷ inputs) l h =
      by_status (user_step tenant s l i).status
        (loop-IsAudited inputs (user_step tenant s l i) (user_step-IsAudited l i h))
    where
      l' : UserLoop
      l' = user_step tenant s l i

      k : IsAudited tenant s l'
      k = user_step-IsAudited l i h

      by_status :
          (x : Status)
          → IsAudited tenant s (user_loop tenant s l' inputs)
          → IsAudited tenant s (elim x [ running ↦ user_loop tenant s l' inputs | returned _ ↦ l' ])
      by_status running r = r
      by_status (returned _) r = k

abbrev pub is_accepted : Option (Option Error) → Bool
is_accepted (some none) = true
is_accepted _ = false

-- Whatever comes on the user's websocket, and after any part of it: every message that the loop
-- published goes to the subject of the session's device and bears the session's id and its user's;
-- a shell or a port forwarding message was published only if the audit log took the entry at the
-- first message of its kind that came; the types of the session are those whose flags are set, each
-- once; and a flag is set only if the audit log took that entry, while in a loop that still runs one
-- that is not set means that no message of its kind came, so a refused entry has ended the loop.
pub user_loop-IsAudited :
    (tenant : String) (s : Session) (inputs : List Input)
    → let l = user_loop tenant s new_user_loop inputs in
      AllAllowed tenant s
        (is_accepted (first_logged is_shell inputs))
        (is_accepted (first_logged is_port_forward inputs))
        l.sent
      × IsTyped l.log_terminal l.log_port_forward l.types
      × IsLogged is_shell inputs l.log_terminal l.status
      × IsLogged is_port_forward inputs l.log_port_forward l.status
user_loop-IsAudited tenant s inputs =
    let l = user_loop tenant s new_user_loop inputs in
    let h = loop-IsAudited tenant s inputs new_user_loop (record { allowed = tt; typed = refl }) in
    let (t, p) = user_loop-AreLogged tenant s inputs in
    (
      AllAllowed-mono tenant s l.log_terminal l.log_port_forward
          (is_accepted (first_logged is_shell inputs))
          (is_accepted (first_logged is_port_forward inputs)) l.sent (λ f. rw (t.0 f) refl)
          (λ f. rw (p.0 f) refl) h.allowed,
      h.typed,
      t,
      p,
    )
