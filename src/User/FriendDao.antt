-- ===== src/User/FriendDao.antt =====
-- user/src/dao/friend_dao.cpp
pub mod Relation
use imsystem.Prelude.{ℕ, Bool, true, false, Option, none, some, List, [], ◌∷◌, ◌++◌, String, map}
use imsystem.Prelude.Int.{ℤ, pos, ◌-ℤ◌, ◌*ℤ◌, ltb_ℤ}
use imsystem.Prelude.Texts.{Text}
use imsystem.Common.Effect.{Outcome, Io, pure, try_or, ◌>>=◌, ◌>>◌}
use imsystem.Common.Retry.{execute_with_retry_void}
use imsystem.Common.Sql.{
  Sql, uint64, int, next, retried, with_guard, with_locals, modify, fail_with,
}
use imsystem.User.Model.{UserFriend, new_friend}

abbrev pub select_is_friend : String
select_is_friend =
    "SELECT COUNT(1) AS cnt FROM user_friends WHERE user_id = ? AND friend_id = ? AND status = 1"

abbrev pub insert_friend : String
insert_friend =
    "INSERT INTO user_friends (user_id, friend_id, status) VALUES (?, ?, 1) ON DUPLICATE KEY UPDATE status = 1"

abbrev pub delete_friend : String
delete_friend = "DELETE FROM user_friends WHERE user_id = ? AND friend_id = ?"

abbrev pub count_friends : String
count_friends = "SELECT COUNT(1) AS cnt FROM user_friends WHERE user_id = ? AND status = 1"

abbrev pub select_friends : String
select_friends =
    "SELECT id, user_id, friend_id, status, created_at FROM user_friends WHERE user_id = ? AND status = 1 LIMIT ? OFFSET ?"

-- The locals that the retried function captures by reference.
pub record Listing : Type 0 where
  pub result : List UserFriend
  pub total_count : ℤ

module _ {W Row : Type 0} (sql : Sql W Row) where
  open sql use {execute_query, execute_update, get_uint64, get_int}

  abbrev pub positive_count : Option Row → Bool
  positive_count none = false
  positive_count (some row) = ltb_ℤ (pos 0) (get_int row "cnt")

  unfoldable pub is_friend_attempt : ℕ → ℕ → ℕ → Io W Bool
  is_friend_attempt user_id friend_id conn = do
    res ← execute_query conn select_is_friend (uint64 user_id ∷ uint64 friend_id ∷ [])
    row ← next res
    pure (positive_count row)

  unfoldable pub is_friend : ℕ → ℕ → W → Bool × W
  unfolding is_friend_attempt
  is_friend user_id friend_id = try_or (retried sql (is_friend_attempt user_id friend_id)) false

  -- The verification message is not used.
  unfoldable pub add_friend : ℕ → ℕ → Text → W → Bool × W
  add_friend user_id friend_id verify_msg =
      try_or
        (do
          retried sql
              λ conn. execute_update conn insert_friend (uint64 user_id ∷ uint64 friend_id ∷ [])
          pure true)
        false

  unfoldable pub remove_friend : ℕ → ℕ → W → Bool × W
  remove_friend user_id friend_id =
      try_or
        (do
          retried sql
              λ conn. execute_update conn delete_friend (uint64 user_id ∷ uint64 friend_id ∷ [])
          pure true)
        false

  unfoldable pub read_friend : Row → UserFriend
  read_friend row = record new_friend {
    id = get_uint64 row "id";
    user_id = get_uint64 row "user_id";
    friend_id = get_uint64 row "friend_id";
    status = get_int row "status";
  }

  abbrev pub counted : Option Row → Listing → Listing
  counted none acc = acc
  counted (some row) acc = record acc { total_count = get_int row "cnt" }

  abbrev pub pushed : List Row → Listing → Listing
  pushed rows acc = record acc { result = acc.result ++ map read_friend rows }

  -- One attempt on a connection: the count, then the page. `next` throws, if it does, behind the
  -- rows that it has delivered.
  unfoldable pub list_attempt : ℕ → ℤ → ℤ → ℕ → Io (Listing × W) (Unit {0})
  list_attempt user_id page page_size conn = do
    count_res ← (with_locals sql).execute_query conn count_friends (uint64 user_id ∷ [])
    row ← next count_res
    modify (counted row)
    res ←
        (with_locals sql).execute_query conn select_friends
          (uint64 user_id ∷ int page_size ∷ int ((page -ℤ pos 1) *ℤ page_size) ∷ [])
    modify (pushed res.rows)
    fail_with res.failure

  abbrev pub listing_of : Outcome (Unit {0}) × (Listing × W) → Listing × W
  listing_of (r, v) = v

  -- The result and `total_count`, which the caller passes in, after the last attempt.
  unfoldable pub get_friend_list : ℕ → ℤ → ℤ → ℤ → W → Listing × W
  get_friend_list user_id page page_size total_count w = listing_of (
      execute_with_retry_void (with_locals sql).sleep (pos 3) 500
        (with_guard (with_locals sql) (list_attempt user_id page page_size))
        (record { result = []; total_count = total_count }, w))
