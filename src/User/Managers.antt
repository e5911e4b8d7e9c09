-- ===== src/User/Managers.antt =====
-- user/src/friend_manager.cpp, the interface of the friend service that the gRPC layer calls.
use imsystem.Prelude.{ℕ, Bool, List, map}
use imsystem.Prelude.Int.{ℤ}
use imsystem.Prelude.Texts.{Text}
use imsystem.Common.Sql.{Sql}
use imsystem.User.FriendService.{FriendInfo, request_friend, list_friends}

pub record UserInfoModel : Type 0 where
  pub user_id : ℕ
  pub nickname : Text
  pub avatar_url : Text
  pub status : ℤ

abbrev pub model_of : FriendInfo → UserInfoModel
model_of f = record {
  user_id = f.user_id;
  nickname = f.nickname;
  avatar_url = f.avatar_url;
  status = f.status;
}

module _ {W Row : Type 0} (sql : Sql W Row) where
  unfoldable pub add_friend : ℕ → ℕ → Text → W → Bool × W
  add_friend = request_friend sql

  abbrev pub modelled : (List FriendInfo × ℤ) × W → (List UserInfoModel × ℤ) × W
  modelled ((friends, total_count), w) = ((map model_of friends, total_count), w)

  -- The list, and what is left in `total_count`.
  unfoldable pub get_friend_list : ℕ → ℤ → ℤ → ℤ → W → (List UserInfoModel × ℤ) × W
  get_friend_list user_id page page_size total_count w =
      modelled (list_friends sql user_id page page_size total_count w)
