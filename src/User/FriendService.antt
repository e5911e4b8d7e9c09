-- ===== src/User/FriendService.antt =====
-- user/src/service/friend_service.cpp, and its facade user/src/friend_manager.cpp.
pub mod Adding
use imsystem.Prelude.{
  ℕ, Bool, true, false, not, Option, none, some, List, [], ◌∷◌, ◌==◌, if◌then◌else◌, map,
}
use imsystem.Prelude.Int.{ℤ}
use imsystem.Prelude.Texts.{Text}
use imsystem.Common.Sql.{Sql}
use imsystem.User.Model.{User, UserFriend}
use imsystem.User.UserDao.{find_by_id}
use imsystem.User.FriendDao.{Listing, is_friend, add_friend, get_friend_list}

pub record FriendInfo : Type 0 where
  pub user_id : ℕ
  pub nickname : Text
  pub avatar_url : Text
  pub status : ℤ

module _ {W Row : Type 0} (sql : Sql W Row) where
  abbrev pub added : Bool × W → Bool × W
  added (ok, w) = if not ok then (false, w) else (true, w)

  abbrev pub add_unless_friends : ℕ → ℕ → Text → Bool × W → Bool × W
  add_unless_friends user_id target_user_id verify_msg (friends, w) =
      if friends then (false, w) else added (add_friend sql user_id target_user_id verify_msg w)

  abbrev pub add_found : ℕ → ℕ → Text → Option User × W → Bool × W
  add_found user_id target_user_id verify_msg (none, w) = (false, w)
  add_found user_id target_user_id verify_msg (some target, w) =
      add_unless_friends user_id target_user_id verify_msg (is_friend sql user_id target_user_id w)

  unfoldable pub request_friend : ℕ → ℕ → Text → W → Bool × W
  request_friend user_id target_user_id verify_msg w =
      if user_id == target_user_id
      then (false, w)
      else add_found user_id target_user_id verify_msg (find_by_id sql target_user_id w)

  abbrev pub info_of : User → FriendInfo
  info_of u = record {
    user_id = u.user_id;
    nickname = u.nickname;
    avatar_url = u.avatar_url;
    status = u.status;
  }

  abbrev pub kept : Option User → List FriendInfo → List FriendInfo
  kept none rest = rest
  kept (some u) rest = info_of u ∷ rest

  -- The loop over the friends: one that is not found is left out.
  unfoldable pub collect : List UserFriend → W → List FriendInfo × W
  collect [] w = ([], w)
  collect (uf ∷ ufs) w =
      let (friend_opt, w') = find_by_id sql uf.friend_id w in
      let (rest, w'') = collect ufs w' in (kept friend_opt rest, w'')

  abbrev pub listed : Listing × W → (List FriendInfo × ℤ) × W
  listed (found, w) = let (infos, w') = collect found.result w in ((infos, found.total_count), w')

  unfoldable pub list_friends : ℕ → ℤ → ℤ → ℤ → W → (List FriendInfo × ℤ) × W
  unfolding collect
  list_friends user_id page page_size total_count w =
      listed (get_friend_list sql user_id page page_size total_count w)
