-- ===== src/Message/MessageService.antt =====
-- message/src/service/message_service.cpp, and its facade message/src/message_sync.cpp.
pub mod Saving
pub mod Pulling
pub mod Stores
pub mod Delivery
use imsystem.Prelude.{ℕ, Bool, true, false, not, List, [], ◌∷◌, is_empty, if◌then◌else◌, map}
use imsystem.Prelude.Int.{ℤ}
use imsystem.Prelude.Texts.{Text}
use imsystem.Common.Sql.{Sql}
use imsystem.Logic.ChatHandler.{LogicChatMsg}
use imsystem.Message.Model.{MsgBody, MsgIndex, new_index}
use imsystem.Message.MsgBodyDao.{Mongo, batch_get}
use imsystem.Message.MsgBodyDao
use imsystem.Message.MsgIndexDao.{fetch_offline_msg_ids}
use imsystem.Message.MsgIndexDao

abbrev pub body_of : LogicChatMsg → MsgBody
body_of msg = record {
  msg_id = msg.msg_id;
  content = msg.content;
  msg_type = msg.msg_type;
  session_type = msg.session_type;
}

-- The sequence id stays empty.
abbrev pub index_of : LogicChatMsg → MsgIndex
index_of msg = record new_index {
  msg_id = msg.msg_id;
  sender_id = msg.sender_id;
  receiver_id = msg.receiver_id;
  session_type = msg.session_type;
}

module _ {W Row : Type 0} (sql : Sql W Row) (clock : W → ℤ × W) (mongo : Mongo W) where
  abbrev pub indexed : Text × W → Text × W
  indexed (new_seq_id, w) = if is_empty new_seq_id then ([], w) else (new_seq_id, w)

  abbrev pub index_if : LogicChatMsg → Bool × W → Text × W
  index_if msg (stored, w) =
      if not stored then ([], w) else indexed (MsgIndexDao.insert sql clock (index_of msg) w)

  unfoldable pub save_message : LogicChatMsg → W → Text × W
  save_message msg w = index_if msg (MsgBodyDao.insert mongo (body_of msg) w)

  -- The fields that are not set hold what the memory held: `unset` is such a message.
  abbrev pub message_of : LogicChatMsg → MsgBody → LogicChatMsg
  message_of unset body = record unset {
    msg_id = body.msg_id;
    content = body.content;
    msg_type = body.msg_type;
    session_type = body.session_type;
  }

  abbrev pub assembled : LogicChatMsg → List MsgBody × W → List LogicChatMsg × W
  assembled unset (bodies, w) = (map (message_of unset) bodies, w)

  abbrev pub pull_bodies : LogicChatMsg → List Text × W → List LogicChatMsg × W
  pull_bodies unset (msg_ids, w) =
      if is_empty msg_ids then ([], w) else assembled unset (batch_get mongo msg_ids w)

  unfoldable pub pull_offline_messages : LogicChatMsg → ℕ → Text → ℤ → W → List LogicChatMsg × W
  pull_offline_messages unset user_id begin_seq limit w =
      pull_bodies unset (fetch_offline_msg_ids sql clock user_id begin_seq limit w)
