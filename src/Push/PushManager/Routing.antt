-- ===== src/Push/PushManager/Routing.antt =====
-- Which messages of the queue are pushed, and to whom.
use imsystem.Prelude.{
  ℕ, true, false, Option, none, some, [], ◌≡◌, ◌≢◌, refl, ◌==◌, ◌∙◌, Bool-cases, inl, inr,
  if◌then◌else◌, arith,
}
use imsystem.Prelude.Int.{ℤ, pos}
use imsystem.Prelude.Texts.{Text, codes}
use imsystem.Common.Effect.{Outcome, returned, thrown}
use imsystem.Gateway.TcpConnection.{Json}
use imsystem.Push.PushManager.{
  PushTask, Notification, new_task, has_required, read_receiver, read_content, with_content,
  parse_message, fetch_device_token, routed, handle_incoming_push_task, apns, fcm,
}

-- The text of the notification: the content of the message, or nothing where reading it threw.
abbrev pub content_of : Outcome Text → Text
content_of (returned c) = c
content_of (thrown e) = []

-- The notification for the device of a user.
abbrev notify : Text → Option (ℤ × Text) → Option Notification
notify content device =
    routed (record (new_task (pos 0)) { title = codes "New Message"; content = content }) device

routed-notify :
    (task : PushTask) (content : Text) (device : Option (ℤ × Text))
    → task.title ≡ codes "New Message"
    → routed (record task { content = content }) device ≡ notify content device
routed-notify task content none titled = refl
routed-notify task content (some (platform, token)) titled = rw titled refl

not_zero : (id : ℕ) → id ≢ 0 → (id == 0) ≡ false
not_zero id ne = ground arith

-- The two users with a device, by their numbers, and the service that each is notified by.
unfoldable pub expected : ℕ → Text → Option Notification
expected id content =
    if id == 2002
    then some (apns (codes "apns_device_token_abcdef123456") (codes "New Message") content)
    else if id == 3003
    then some (fcm (codes "fcm_device_token_zyxwv98765") (codes "New Message") content)
    else none

notify-expected :
    (id : ℕ) (content : Text) → notify content (fetch_device_token id) ≡ expected id content
unfolding fetch_device_token expected codes
notify-expected id content = elim (Bool-cases (id == 2002)) [
  | inl e ↦ rw e refl
  | inr e ↦ rw e (elim (Bool-cases (id == 3003)) [ inl f ↦ rw f refl | inr f ↦ rw f refl ])
]

-- A message that is JSON with the three required fields, and whose receiver is not 0, is pushed to
-- user 2002 through APNs, to user 3003 through FCM, and to nobody else: to the token of the user's
-- device, with the title "New Message" and the content of the message, or with an empty content
-- where `asString` throws on it.
pub handle_incoming_push_task_complete :
    {J : Type 0} (json : Json J) (unset : ℤ) (raw : Text) (root : J) (id : ℕ)
    → json.parse raw ≡ returned (some root)
    → has_required json root ≡ returned true
    → read_receiver json root ≡ returned id
    → id ≢ 0
    → handle_incoming_push_task json unset raw ≡ expected id (content_of (read_content json root))
unfolding handle_incoming_push_task parse_message
handle_incoming_push_task_complete json unset raw root id parsed whole receiver ne =
    rw (parsed, whole, receiver)
      (with_text (read_content json root)
        ∙ notify-expected id (content_of (read_content json root)))
  where
    begun : PushTask
    begun = record (new_task unset) { receiver_id = id; title = codes "New Message" }

    with_text :
        (text : Outcome Text)
        → (if (with_content json begun text).receiver_id == 0
            then none
            else routed
                (with_content json begun text)
                (fetch_device_token (with_content json begun text).receiver_id))
          ≡ notify (content_of text) (fetch_device_token id)
    with_text (returned c) =
        rw (not_zero id ne) (routed-notify begun c (fetch_device_token id) refl)
    with_text (thrown e) = rw (not_zero id ne) (routed-notify begun [] (fetch_device_token id) refl)
