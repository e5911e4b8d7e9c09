-- ===== src/Push/PushManager.antt =====
-- push/src/push_manager.cpp, and `PushMessage` of push/src/apns_client.cpp and fcm_client.cpp, which
-- build a notification and only log it.
pub mod Routing
use imsystem.Prelude.{
  ℕ, Bool, true, false, not, Option, none, some, [], String, ◌==◌, is_empty, if◌then◌else◌,
}
use imsystem.Prelude.Int.{ℤ, pos, eqb_ℤ}
use imsystem.Prelude.Texts.{Text, codes}
use imsystem.Common.Effect.{Outcome, returned, thrown, then_read}
use imsystem.Gateway.TcpConnection.{Json}

pub record PushTask : Type 0 where
  pub receiver_id : ℕ
  pub platform : ℤ
  pub device_token : Text
  pub title : Text
  pub content : Text

-- A notification that a client sends out.
pub data Notification : Type 0 where
  apns fcm : Text → Text → Text → Notification

-- A task before anything is read; `unset` is what the memory of the platform held.
abbrev pub new_task : ℤ → PushTask
new_task unset = record {
  receiver_id = 0;
  platform = unset;
  device_token = [];
  title = [];
  content = [];
}

module _ {J : Type 0} (json : Json J) where
  -- `!root.isMember(…) || …` over the three required fields.
  abbrev pub and_member : J → String → Bool → Outcome Bool
  and_member root name false = returned false
  and_member root name true = json.is_member root name

  unfoldable pub has_required : J → Outcome Bool
  has_required root =
      then_read (then_read (json.is_member root "receiver_id") (and_member root "msg_type"))
        (and_member root "content")

  unfoldable pub read_receiver : J → Outcome ℕ
  read_receiver root = then_read (json.get root "receiver_id") json.as_uint64

  unfoldable pub read_content : J → Outcome Text
  read_content root = then_read (json.get root "content") json.as_string

  -- The assignments inside the `try`: what is thrown leaves those before it in the task.
  abbrev pub with_content : PushTask → Outcome Text → PushTask
  with_content task (returned c) = record task { content = c }
  with_content task (thrown e) = task

  abbrev pub with_receiver : ℤ → J → Outcome ℕ → PushTask
  with_receiver unset root (returned id) =
      with_content (record (new_task unset) { receiver_id = id; title = codes "New Message" })
        (read_content root)
  with_receiver unset root (thrown e) = new_task unset

  abbrev pub with_fields : ℤ → J → Outcome Bool → PushTask
  with_fields unset root (returned true) = with_receiver unset root (read_receiver root)
  with_fields unset root (returned false) = new_task unset
  with_fields unset root (thrown e) = new_task unset

  abbrev pub with_root : ℤ → Outcome (Option J) → PushTask
  with_root unset (returned none) = new_task unset
  with_root unset (returned (some root)) = with_fields unset root (has_required root)
  with_root unset (thrown e) = new_task unset

  unfoldable pub parse_message : ℤ → Text → PushTask
  parse_message unset raw_msg = with_root unset (json.parse raw_msg)

-- The platform and the token of the two users that the source knows.
unfoldable pub fetch_device_token : ℕ → Option (ℤ × Text)
fetch_device_token user_id =
    if user_id == 2002
    then some (pos 1, codes "apns_device_token_abcdef123456")
    else if user_id == 3003
    then some (pos 2, codes "fcm_device_token_zyxwv98765")
    else none

-- `PushMessage` of both clients refuses an empty token.
abbrev pub push_message : (Text → Text → Text → Notification) → PushTask → Option Notification
push_message client task =
    if is_empty task.device_token
    then none
    else some (client task.device_token task.title task.content)

abbrev pub dispatch : PushTask → Option Notification
dispatch task =
    if eqb_ℤ task.platform (pos 1)
    then push_message apns task
    else if eqb_ℤ task.platform (pos 2)
    then push_message fcm task
    else none

abbrev pub routed : PushTask → Option (ℤ × Text) → Option Notification
routed task none = none
routed task (some (platform, token)) =
    dispatch (record task { platform = platform; device_token = token })

-- What is sent out for a message of the queue.
unfoldable pub handle_incoming_push_task : {J : Type 0} → Json J → ℤ → Text → Option Notification
handle_incoming_push_task json unset raw =
    let task = parse_message json unset raw in
    if task.receiver_id == 0 then none else routed task (fetch_device_token task.receiver_id)
