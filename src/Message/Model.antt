-- ===== src/Message/Model.antt =====
-- message/src/model/msg_model.h
use imsystem.Prelude.{ℕ, []}
use imsystem.Prelude.Int.{ℤ, pos}
use imsystem.Prelude.Texts.{Text}

pub record MsgBody : Type 0 where
  pub msg_id : Text
  pub content : Text
  pub msg_type : ℤ
  pub session_type : ℤ

pub record MsgIndex : Type 0 where
  pub msg_id : Text
  pub sender_id : ℕ
  pub receiver_id : ℕ
  pub session_type : ℤ
  pub seq_id : Text
  pub created_at : ℤ

abbrev pub new_index : MsgIndex
new_index = record {
  msg_id = [];
  sender_id = 0;
  receiver_id = 0;
  session_type = pos 0;
  seq_id = [];
  created_at = pos 0;
}
