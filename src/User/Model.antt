-- ===== src/User/Model.antt =====
-- user/src/model/user_model.h
use imsystem.Prelude.{ℕ, []}
use imsystem.Prelude.Int.{ℤ, pos}
use imsystem.Prelude.Texts.{Text}

pub record User : Type 0 where
  pub user_id : ℕ
  pub username : Text
  pub password_hash : Text
  pub nickname : Text
  pub avatar_url : Text
  pub status : ℤ
  pub created_at : ℤ
  pub updated_at : ℤ

abbrev pub new_user : User
new_user = record {
  user_id = 0;
  username = [];
  password_hash = [];
  nickname = [];
  avatar_url = [];
  status = pos 0;
  created_at = pos 0;
  updated_at = pos 0;
}

pub record UserFriend : Type 0 where
  pub id : ℕ
  pub user_id : ℕ
  pub friend_id : ℕ
  pub status : ℤ
  pub created_at : ℤ

abbrev pub new_friend : UserFriend
new_friend = record { id = 0; user_id = 0; friend_id = 0; status = pos 1; created_at = pos 0 }
