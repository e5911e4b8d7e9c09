-- ===== src/Message/Storage.antt =====
-- message/src/mysql_index.cpp and message/src/mongo_storage.cpp: the interfaces that forward to the
-- DAOs. Their own two records have the fields of the DAOs' ones.
use imsystem.Prelude.{ℕ, Bool, List, map}
use imsystem.Prelude.Int.{ℤ, pos}
use imsystem.Prelude.Texts.{Text}
use imsystem.Common.Sql.{Sql}
use imsystem.Message.Model.{MsgBody, MsgIndex, new_index}
use imsystem.Message.MsgBodyDao.{Mongo, batch_get}
use imsystem.Message.MsgBodyDao
use imsystem.Message.MsgIndexDao.{fetch_offline_msg_ids}
use imsystem.Message.MsgIndexDao

-- The fields that are copied; the sequence id is not among them.
abbrev pub copied_index : MsgIndex → MsgIndex
copied_index index = record new_index {
  msg_id = index.msg_id;
  sender_id = index.sender_id;
  receiver_id = index.receiver_id;
  session_type = index.session_type;
}

abbrev pub copied_body : MsgBody → MsgBody
copied_body body = record {
  msg_id = body.msg_id;
  content = body.content;
  msg_type = body.msg_type;
  session_type = body.session_type;
}

module _ {W Row : Type 0} (sql : Sql W Row) (clock : W → ℤ × W) where
  unfoldable pub insert_index : MsgIndex → W → Text × W
  insert_index index = MsgIndexDao.insert sql clock (copied_index index)

  unfoldable pub fetch_offline : ℕ → Text → W → List Text × W
  fetch_offline user_id last_seq_id = fetch_offline_msg_ids sql clock user_id last_seq_id (pos 100)

module _ {W : Type 0} (mongo : Mongo W) where
  unfoldable pub insert_message : MsgBody → W → Bool × W
  insert_message msg = MsgBodyDao.insert mongo (copied_body msg)

  abbrev pub copied : List MsgBody × W → List MsgBody × W
  copied (bodies, w) = (map copied_body bodies, w)

  unfoldable pub get_messages : List Text → W → List MsgBody × W
  get_messages msg_ids w = copied (batch_get mongo msg_ids w)
