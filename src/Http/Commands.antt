-- ===== src/Http/Commands.antt =====
-- api/http/management.go and api/http/internal.go: the commands to the Mender client on a device,
-- from a user and from another service. `publish` says how the publishing of a message ends.
use deviceconnect.Prelude.{
  ℕ, String, Bool, true, false, List, [], ◌∷◌, Option, none, some, str_eq, if◌then◌else◌, ◌≡◌, refl,
  ◌⊎◌, map, ap,
}
use deviceconnect.Errors.{Error, Result, ok, err, panic, device_not_connected}
use deviceconnect.Protocol.{
  ProtoMsg, MsgType, mender_client, check_update, send_inventory, text, Properties, insert,
}
use deviceconnect.Subject.{device_subject}
use deviceconnect.Store.Collection.{Collection, first}
use deviceconnect.Store.Devices.{Device, is_device, get_device, device_status_connected}
use deviceconnect.App.{known_device}
use deviceconnect.FileTransfer.Requests.{Identity, missing_user_authentication}
use deviceconnect.Terminal.UserLoop.{property_user_id}
use deviceconnect.Http.Replies.{Replies, error_reply, status_reply, device_error_reply}

abbrev pub Published : Type 0
Published = List (String × ProtoMsg)

-- The message: `ws.ProtoHdr` has no session.
abbrev pub command : MsgType → Properties → ProtoMsg
command msg_type properties = record {
  proto = mender_client;
  msg_type = msg_type;
  session_id = "";
  properties = properties;
  body = [];
}

-- After the publishing: an error is answered, and the function goes on.
abbrev pub accepted : Option Error → Replies
accepted none = status_reply 202 ∷ []
accepted (some e) = error_reply 500 e ∷ status_reply 202 ∷ []

module _ (c : Collection Device) (publish : String → ProtoMsg → Option Error) where
  open c use {Db, docs}

  abbrev pub send_to : String → MsgType → Properties → Result Device → Replies × Published
  send_to tenant msg_type properties (ok d) =
      if str_eq d.status device_status_connected
      then (
        accepted (publish (device_subject tenant d.id) (command msg_type properties)),
        (device_subject tenant d.id, command msg_type properties) ∷ [],
      )
      else (error_reply 409 device_not_connected ∷ [], [])
  send_to tenant msg_type properties (err e) = (device_error_reply e ∷ [], [])
  send_to tenant msg_type properties panic = ([], [])

  -- `InternalController.sendMenderCommand`
  unfoldable pub internal_send_mender_command : MsgType → String → String → Db → Replies × Published
  unfolding get_device
  internal_send_mender_command msg_type tenant_id device_id db =
      send_to tenant_id msg_type [] (known_device (get_device c tenant_id device_id db))

  abbrev pub send_as : MsgType → Option Identity → String → Db → Replies × Published
  send_as msg_type none device_id db = (error_reply 400 missing_user_authentication ∷ [], [])
  send_as msg_type (some id) device_id db =
      if id.is_user
      then send_to id.tenant msg_type (insert property_user_id (text id.subject) [])
          (known_device (get_device c id.tenant device_id db))
      else (error_reply 400 missing_user_authentication ∷ [], [])

  -- `ManagementController.sendMenderCommand`
  unfoldable pub send_mender_command : MsgType → Option Identity → String → Db → Replies × Published
  send_mender_command msg_type id device_id db = send_as msg_type id device_id db

  -- `CheckUpdate` and `SendInventory`, of users and of services
  abbrev pub check_update_command : Option Identity → String → Db → Replies × Published
  check_update_command = send_mender_command check_update

  abbrev pub send_inventory_command : Option Identity → String → Db → Replies × Published
  send_inventory_command = send_mender_command send_inventory

  abbrev pub internal_check_update : String → String → Db → Replies × Published
  internal_check_update = internal_send_mender_command check_update

  abbrev pub internal_send_inventory : String → String → Db → Replies × Published
  internal_send_inventory = internal_send_mender_command send_inventory

  -- A command that was sent: which message, and why it could be.
  abbrev IsSent : MsgType → Properties → String → String → Db → Replies × Published → Type 0
  IsSent msg_type properties tenant device_id db (replies, published) =
      ((code : ℕ) × (e : Error) × (replies ≡ error_reply code e ∷ []) × (published ≡ []))
      ⊎ ((d : Device) × (first (is_device tenant device_id) (docs db) ≡ some d)
          × (d.status ≡ device_status_connected)
          × (published ≡ (device_subject tenant d.id, command msg_type properties) ∷ [])
          × (replies
              ≡ accepted (publish (device_subject tenant d.id) (command msg_type properties))))

  -- A user's command and the command of a service that names the user's tenant are answered alike
  -- and reach the same subjects, where publishing depends on the subject alone.
  pub send_mender_command-internal :
      (msg_type : MsgType) (i : Identity) (device_id : String) (db : Db)
      → ((subject : String) (m n : ProtoMsg) → publish subject m ≡ publish subject n)
      → i.is_user ≡ true
      → let user = send_mender_command msg_type (some i) device_id db in
        let service = internal_send_mender_command msg_type i.tenant device_id db in
        (user.0 ≡ service.0) × (map (λ p. p.0) user.1 ≡ map (λ p. p.0) service.1)
  unfolding send_mender_command internal_send_mender_command
  send_mender_command-internal msg_type i device_id db same user =
      rw user (by_device (known_device (get_device c i.tenant device_id db)))
    where
      by_device :
          (x : Result Device)
          → let u = send_to i.tenant msg_type (insert property_user_id (text i.subject) []) x in
            let s = send_to i.tenant msg_type [] x in
            (u.0 ≡ s.0) × (map (λ p. p.0) u.1 ≡ map (λ p. p.0) s.1)
      by_device (ok d) =
          let subject = device_subject i.tenant d.id in
          by_status subject (str_eq d.status device_status_connected) _ _
            (ap accepted (same subject _ _))
        where
          by_status :
              (subject : String) (b : Bool) {x y : Replies} (m n : ProtoMsg)
              → x ≡ y
              → let u : Replies × Published =
                  if b
                  then (x, (subject, m) ∷ [])
                  else (error_reply 409 device_not_connected ∷ [], []) in
                let s : Replies × Published =
                  if b
                  then (y, (subject, n) ∷ [])
                  else (error_reply 409 device_not_connected ∷ [], []) in
                (u.0 ≡ s.0) × (map (λ p. p.0) u.1 ≡ map (λ p. p.0) s.1)
          by_status subject true m n e = (e, refl)
          by_status subject false m n e = (refl, refl)
      by_device (err e) = (refl, refl)
      by_device panic = (refl, refl)
