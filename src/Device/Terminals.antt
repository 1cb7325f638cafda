-- ===== src/Device/Terminals.antt =====
-- api/http/device.go: which sessions count as having a terminal when the device goes away.
use deviceconnect.Prelude.{
  String, Bool, true, false, List, [], ◌∷◌, ◌++◌, Option, none, some, str_eq, str_eq_iff,
  if◌then◌else◌, ◌≡◌, arith, ◌≢◌,
}
use deviceconnect.Protocol.{ProtoMsg, Proto, MsgType, shell, spawn_shell, stop_shell}
use deviceconnect.Subject.{session_subject}
use deviceconnect.Device.{Incoming, received, Sessions, terminal, Effect, publish, is_shell}

-- A map: each key stands in it once.
abbrev pub IsMap : Sessions → Type 0
IsMap [] = Unit {0}
IsMap ((k, b) ∷ m) = (terminal k m ≡ none) × IsMap m

-- What a message leaves for its own session: a shell message that spawns a terminal leaves it
-- marked, one that stops it removes the session, and any other message clears the mark.
abbrev pub mark : Proto → MsgType → Option Bool
mark shell spawn_shell = some true
mark shell stop_shell = none
mark _ _ = some false

-- The mark of session `j` after the messages: that of the last message of the session.
abbrev pub last_mark : String → Option Bool → List ProtoMsg → Option Bool
last_mark j b [] = b
last_mark j b (m ∷ ms) =
    last_mark j (if str_eq m.session_id j then mark m.proto m.msg_type else b) ms

-- Every shell message names its session.
abbrev pub AllNamed : List ProtoMsg → Type 0
AllNamed [] = Unit {0}
AllNamed (m ∷ ms) = (is_shell m.proto ≡ true → m.session_id ≢ "") × AllNamed ms

-- The messages read, each published without an error, before `rest`.
abbrev pub all_received : List ProtoMsg → List Incoming → List Incoming
all_received [] rest = rest
all_received (m ∷ ms) rest = received m none ∷ all_received ms rest

module _ (tenant : String) where
  abbrev pub publish_all : List ProtoMsg → List Effect
  publish_all [] = []
  publish_all (m ∷ ms) = publish (session_subject tenant m.session_id) m ∷ publish_all ms

-- A session whose last message is neither the spawning of a terminal nor its end, but output of the
-- terminal or any other message, is no longer marked: with its terminal running it gets no stop
-- message when the device goes away.
pub last_mark_cleared :
    (j : String) (ms : List ProtoMsg) (m : ProtoMsg) (b : Option Bool)
    → m.session_id ≡ j
    → m.msg_type ≢ spawn_shell
    → m.msg_type ≢ stop_shell
    → last_mark j b (ms ++ (m ∷ [])) ≡ some false
last_mark_cleared j [] m b h ns nt = ground (arith, str_eq_iff m.session_id j)
last_mark_cleared j (x ∷ ms) m b h ns nt =
    last_mark_cleared j ms m (if str_eq x.session_id j then mark x.proto x.msg_type else b) h ns nt
