-- ===== src/Terminal/UserLoop/Logged.antt =====
-- api/http/management.go: when the read loop of the user's websocket has an entry in the audit log.
use deviceconnect.Prelude.{
  String, Bool, true, false, leb, List, [], ◌∷◌, ◌++◌, append_assoc, append-nil, Option, none, some,
  if◌then◌else◌, if_elim, ◌≡◌, ◌⊎◌, inl, inr, refl, sym, ◌∙◌, arith, Bool-cases,
}
use mathlib.Core.Path.{subst}
use deviceconnect.Errors.{Error}
use deviceconnect.Control.{Control}
use deviceconnect.Protocol.{Proto, MsgType, shell, port_forward}
use deviceconnect.Session.{Session, session_type_terminal, session_type_port_forward}
use deviceconnect.Subject.{device_subject}
use deviceconnect.Terminal.Resize.{resize_control}
use deviceconnect.Terminal.UserLoop.{
  UserLoop, Input, arrival, close_frame, read_error, malformed, Status, running, returned, Arrival,
  forward, shell_message, record_resize, audit_terminal, audit_port_forward, dispatch, user_step,
  user_loop, new_user_loop, stamped, message_size_limit,
}

abbrev pub is_shell : Proto → Bool
is_shell shell = true
is_shell _ = false

abbrev pub is_port_forward : Proto → Bool
is_port_forward port_forward = true
is_port_forward _ = false

-- How the audit log answers at the first message of a kind: `none` where no such message came,
-- `some none` where it takes the entry, and `some (some e)` where it refuses it.
abbrev pub first_logged : (Proto → Bool) → List Input → Option (Option Error)
first_logged kind [] = none
first_logged kind (arrival a ∷ inputs) =
    if kind a.msg.proto then some a.logged else first_logged kind inputs
first_logged kind (_ ∷ inputs) = first_logged kind inputs

abbrev or_else : {A : Type 0} → Option A → Option A → Option A
or_else none y = y
or_else (some x) y = some x

first_logged-append :
    (kind : Proto → Bool) (xs ys : List Input)
    → first_logged kind (xs ++ ys) ≡ or_else (first_logged kind xs) (first_logged kind ys)
first_logged-append kind [] ys = refl
first_logged-append kind (arrival a ∷ xs) ys =
    ground (arith, Bool-cases (kind a.msg.proto), first_logged-append kind xs ys)
first_logged-append kind (close_frame ∷ xs) ys = first_logged-append kind xs ys
first_logged-append kind (read_error e ∷ xs) ys = first_logged-append kind xs ys
first_logged-append kind (malformed e ∷ xs) ys = first_logged-append kind xs ys

-- The flag of a kind, of a loop that has had the inputs: it is set only where the audit log took the
-- entry at the first message of the kind; while the loop runs, a flag that is not set means that no
-- such message came, so a refused entry has ended the loop.
abbrev pub IsLogged : (Proto → Bool) → List Input → Bool → Status → Type 0
IsLogged kind inputs flag status =
    (flag ≡ true → first_logged kind inputs ≡ some none)
    × (status ≡ running → flag ≡ false → first_logged kind inputs ≡ none)

module _ (kind : Proto → Bool) (i : Input) where
  -- What a round makes of a flag.
  abbrev IsTaken : Bool → Bool → Status → Type 0
  IsTaken flag flag' status =
      (flag' ≡ true → (flag ≡ true) ⊎ (first_logged kind (i ∷ []) ≡ some none))
      × (status ≡ running → flag' ≡ false → (flag ≡ false) × (first_logged kind (i ∷ []) ≡ none))

  kept-IsTaken :
      (flag flag' : Bool) (status : Status)
      → flag' ≡ flag
      → first_logged kind (i ∷ []) ≡ none
      → IsTaken flag flag' status
  kept-IsTaken flag flag' status e n = ((λ h. inl (sym e ∙ h)), (λ _ h. (sym e ∙ h, n)))

  logged-IsTaken :
      (flag flag' : Bool) (status : Status) → flag ≡ true → flag' ≡ flag → IsTaken flag flag' status
  logged-IsTaken flag flag' status h e = ((λ _. inl h), (λ _ h'. absurd cc))

  accepted-IsTaken :
      (flag flag' : Bool) (status : Status)
      → flag' ≡ true
      → first_logged kind (i ∷ []) ≡ some none
      → IsTaken flag flag' status
  accepted-IsTaken flag flag' status h e = ((λ _. inr e), (λ _ h'. absurd cc))

  refused-IsTaken : (flag : Bool) (e : Option Error) → flag ≡ false → IsTaken flag flag (returned e)
  refused-IsTaken flag e h = ((λ h'. inl h'), (λ r _. absurd cc))

  step-IsLogged :
      (seen : List Input) (flag flag' : Bool) (s s' : Status)
      → s ≡ running
      → IsTaken flag flag' s'
      → IsLogged kind seen flag s
      → IsLogged kind (seen ++ (i ∷ [])) flag' s'
  step-IsLogged seen flag flag' s s' r (t, n) (h, k) = (
    (λ e. first_logged-append kind seen (i ∷ []) ∙ by_taken (t e) (Bool-cases flag)),
    (λ r' e. let (f, m) = n r' e in first_logged-append kind seen (i ∷ []) ∙ rw (k r f) m),
  )
    where
      by_taken :
          (flag ≡ true) ⊎ (first_logged kind (i ∷ []) ≡ some none)
          → (flag ≡ true) ⊎ (flag ≡ false)
          → or_else (first_logged kind seen) (first_logged kind (i ∷ [])) ≡ some none
      by_taken (inl f) x = rw (h f) refl
      by_taken (inr m) (inl f) = rw (h f) refl
      by_taken (inr m) (inr f) = rw (k r f) m

module _ (tenant : String) (s : Session) where
  -- The flags of a loop are left as they are.
  abbrev IsKept : UserLoop → UserLoop → Type 0
  IsKept l l' = (l'.log_terminal ≡ l.log_terminal) × (l'.log_port_forward ≡ l.log_port_forward)

  forward-IsKept : (a : Arrival) (l : UserLoop) → IsKept l (forward tenant s a l)
  forward-IsKept a l = by_publish a.published
    where
      l' : UserLoop
      l' = record l { sent = l.sent ++ ((device_subject tenant s.device_id, stamped s a.msg) ∷ []) }

      by_publish :
          (x : Option Error)
          → IsKept l (elim x [ none ↦ l' | some e ↦ record l' { status = returned (some e) } ])
      by_publish none = (refl, refl)
      by_publish (some e) = (refl, refl)

  resize-IsKept :
      (a : Arrival) (c : Option Control) (l : UserLoop)
      → IsKept l (forward tenant s a (record_resize c a.taken l))
  resize-IsKept a none l = forward-IsKept a l
  resize-IsKept a (some c) l = forward-IsKept a (record_resize (some c) a.taken l)

  shell_message-IsKept :
      (a : Arrival) (t : MsgType) (l : UserLoop) → IsKept l (shell_message tenant s a t l)
  shell_message-IsKept a MsgType.spawn_shell l =
      forward-IsKept a (record l { terminal_running = true })
  shell_message-IsKept a MsgType.stop_shell l =
      forward-IsKept a (record l { terminal_running = false })
  shell_message-IsKept a MsgType.resize_shell l =
      if_elim (IsKept l) l.ignore_control l _ (λ _. (refl, refl))
        (λ _.
          if_elim (IsKept l) (leb message_size_limit l.control_bytes)
            (record l { ignore_control = true }) _ (λ _. (refl, refl))
            (λ _. resize-IsKept a (resize_control (stamped s a.msg).properties a.bytes_recorded) l))
  shell_message-IsKept a t l = forward-IsKept a l

  -- What a round makes of both flags.
  abbrev IsStep : Input → UserLoop → UserLoop → Type 0
  IsStep i l l' =
      IsTaken is_shell i l.log_terminal l'.log_terminal l'.status
      × IsTaken is_port_forward i l.log_port_forward l'.log_port_forward l'.status

  shell-IsStep :
      (a : Arrival) (l : UserLoop)
      → a.msg.proto ≡ shell
      → IsStep (arrival a) l (dispatch tenant s a shell l)
  shell-IsStep a l e =
      if_elim (IsStep (arrival a) l) l.log_terminal _ _
        (λ logged.
          let (t, p) = shell_message-IsKept a a.msg.msg_type l in
          let l' = shell_message tenant s a a.msg.msg_type l in
          (
            logged-IsTaken is_shell (arrival a) l.log_terminal l'.log_terminal l'.status logged t,
            kept-IsTaken is_port_forward (arrival a) l.log_port_forward l'.log_port_forward
                l'.status p (rw e refl),
          ))
        (λ fresh. by_audit a.logged refl fresh)
    where
      by_audit :
          (x : Option Error)
          → a.logged ≡ x
          → l.log_terminal ≡ false
          → IsStep
              (arrival a)
              l
              (audit_terminal x l (λ q. shell_message tenant s a a.msg.msg_type q))
      by_audit (some y) k fresh = (
        refused-IsTaken is_shell (arrival a) l.log_terminal (some y) fresh,
        kept-IsTaken is_port_forward (arrival a) l.log_port_forward l.log_port_forward
            (returned (some y)) refl (rw e refl),
      )
      by_audit none k fresh =
          let q : UserLoop = record l {
            types = l.types ++ (session_type_terminal ∷ []);
            log_terminal = true;
          } in
          let (t, p) = shell_message-IsKept a a.msg.msg_type q in
          let l' = shell_message tenant s a a.msg.msg_type q in
          (
            accepted-IsTaken is_shell (arrival a) l.log_terminal l'.log_terminal l'.status t
                (rw (e, k) refl),
            kept-IsTaken is_port_forward (arrival a) l.log_port_forward l'.log_port_forward
                l'.status p (rw e refl),
          )

  port_forward-IsStep :
      (a : Arrival) (l : UserLoop)
      → a.msg.proto ≡ port_forward
      → IsStep (arrival a) l (dispatch tenant s a port_forward l)
  port_forward-IsStep a l e =
      if_elim (IsStep (arrival a) l) l.log_port_forward _ _
        (λ logged.
          let (t, p) = forward-IsKept a l in
          let l' = forward tenant s a l in
          (
            kept-IsTaken is_shell (arrival a) l.log_terminal l'.log_terminal l'.status t
                (rw e refl),
            logged-IsTaken is_port_forward (arrival a) l.log_port_forward l'.log_port_forward
                l'.status logged p,
          ))
        (λ fresh. by_audit a.logged refl fresh)
    where
      by_audit :
          (x : Option Error)
          → a.logged ≡ x
          → l.log_port_forward ≡ false
          → IsStep (arrival a) l (audit_port_forward x l (λ q. forward tenant s a q))
      by_audit (some y) k fresh = (
        kept-IsTaken is_shell (arrival a) l.log_terminal l.log_terminal (returned (some y)) refl
            (rw e refl),
        refused-IsTaken is_port_forward (arrival a) l.log_port_forward (some y) fresh,
      )
      by_audit none k fresh =
          let q : UserLoop = record l {
            types = l.types ++ (session_type_port_forward ∷ []);
            log_port_forward = true;
          } in
          let (t, p) = forward-IsKept a q in
          let l' = forward tenant s a q in
          (
            kept-IsTaken is_shell (arrival a) l.log_terminal l'.log_terminal l'.status t
                (rw e refl),
            accepted-IsTaken is_port_forward (arrival a) l.log_port_forward l'.log_port_forward
                l'.status p (rw (e, k) refl),
          )

  -- A round that has no message of the two kinds.
  other-IsStep :
      (i : Input) (l l' : UserLoop)
      → IsKept l l'
      → first_logged is_shell (i ∷ []) ≡ none
      → first_logged is_port_forward (i ∷ []) ≡ none
      → IsStep i l l'
  other-IsStep i l l' (t, p) n m = (
    kept-IsTaken is_shell i l.log_terminal l'.log_terminal l'.status t n,
    kept-IsTaken is_port_forward i l.log_port_forward l'.log_port_forward l'.status p m,
  )

  dispatch-IsStep :
      (a : Arrival) (p : Proto) (l : UserLoop)
      → a.msg.proto ≡ p
      → IsStep (arrival a) l (dispatch tenant s a p l)
  dispatch-IsStep a shell l e = shell-IsStep a l e
  dispatch-IsStep a port_forward l e = port_forward-IsStep a l e
  dispatch-IsStep a p l e =
      other-IsStep (arrival a) l (forward tenant s a l) (forward-IsKept a l) (rw e refl) (rw e refl)

  user_step-IsStep : (l : UserLoop) (i : Input) → IsStep i l (user_step tenant s l i)
  unfolding user_step
  user_step-IsStep l (arrival a) = dispatch-IsStep a a.msg.proto l refl
  user_step-IsStep l close_frame =
      other-IsStep close_frame l (record l { status = returned none }) (refl, refl) refl refl
  user_step-IsStep l (read_error e) =
      other-IsStep (read_error e) l (record l { status = returned (some e) }) (refl, refl) refl refl
  user_step-IsStep l (malformed e) =
      other-IsStep (malformed e) l (record l { status = returned (some e) }) (refl, refl) refl refl

  -- Both flags are as the audit log answered.
  abbrev AreLogged : List Input → UserLoop → Type 0
  AreLogged inputs l =
      IsLogged is_shell inputs l.log_terminal l.status
      × IsLogged is_port_forward inputs l.log_port_forward l.status

  user_step-AreLogged :
      (seen : List Input) (l : UserLoop) (i : Input)
      → l.status ≡ running
      → AreLogged seen l
      → AreLogged (seen ++ (i ∷ [])) (user_step tenant s l i)
  user_step-AreLogged seen l i r (t, p) =
      let l' = user_step tenant s l i in
      let (t', p') = user_step-IsStep l i in
      (
        step-IsLogged is_shell i seen l.log_terminal l'.log_terminal l.status l'.status r t' t,
        step-IsLogged is_port_forward i seen l.log_port_forward l'.log_port_forward l.status
            l'.status r p' p,
      )

  -- What comes after the end of the loop says nothing else of the first messages.
  ended-IsLogged :
      (kind : Proto → Bool) (seen more : List Input) (flag : Bool) (e : Option Error)
      → IsLogged kind seen flag (returned e)
      → IsLogged kind (seen ++ more) flag (returned e)
  ended-IsLogged kind seen more flag e (h, k) =
      ((λ f. first_logged-append kind seen more ∙ rw (h f) refl), (λ r _. absurd cc))

  loop-AreLogged :
      (inputs seen : List Input) (l : UserLoop)
      → l.status ≡ running
      → AreLogged seen l
      → AreLogged (seen ++ inputs) (user_loop tenant s l inputs)
  unfolding user_loop
  loop-AreLogged [] seen l r h = rw (append-nil seen) h
  loop-AreLogged (i ∷ inputs) seen l r h = rw (sym (append_assoc seen (i ∷ []) inputs)) (
      by_status (user_step tenant s l i).status refl (λ e.
        loop-AreLogged inputs (seen ++ (i ∷ [])) (user_step tenant s l i) e
          (user_step-AreLogged seen l i r h)))
    where
      l' : UserLoop
      l' = user_step tenant s l i

      k : AreLogged (seen ++ (i ∷ [])) l'
      k = user_step-AreLogged seen l i r h

      by_status :
          (x : Status)
          → l'.status ≡ x
          → (l'.status ≡ running
              → AreLogged ((seen ++ (i ∷ [])) ++ inputs) (user_loop tenant s l' inputs))
          → AreLogged
              ((seen ++ (i ∷ [])) ++ inputs)
              (elim x [ running ↦ user_loop tenant s l' inputs | returned _ ↦ l' ])
      by_status running e rest = rest e
      by_status (returned y) e rest =
          let ended =
            λ (kind : Proto → Bool) (flag : Bool)
                (x : IsLogged kind (seen ++ (i ∷ [])) flag l'.status).
              subst (IsLogged kind ((seen ++ (i ∷ [])) ++ inputs) flag) (sym e) (
                ended-IsLogged kind (seen ++ (i ∷ [])) inputs flag y
                  (subst (IsLogged kind (seen ++ (i ∷ [])) flag) e x)) in
          (ended is_shell l'.log_terminal k.0, ended is_port_forward l'.log_port_forward k.1)

  pub user_loop-AreLogged :
      (inputs : List Input) → AreLogged inputs (user_loop tenant s new_user_loop inputs)
  user_loop-AreLogged inputs =
      loop-AreLogged inputs [] new_user_loop refl
        (((λ h. absurd cc), (λ _ _. refl)), ((λ h. absurd cc), (λ _ _. refl)))
