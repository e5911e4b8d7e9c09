-- ===== src/User/UserDao.antt =====
-- user/src/dao/user_dao.cpp
use imsystem.Prelude.{ℕ, Bool, true, false, not, Option, none, some, [], ◌∷◌, ◌==◌, String}
use imsystem.Prelude.Texts.{Text}
use imsystem.Common.Effect.{Io, pure, try_or, ◌>>=◌, ◌>>◌}
use imsystem.Common.Sql.{Sql, Param, text, uint64, int, next, retried}
use imsystem.User.Model.{User, new_user}

abbrev pub select_by_username : String
select_by_username =
    "SELECT user_id, username, password_hash, nickname, avatar_url, status FROM users WHERE username = ?"

abbrev pub select_by_id : String
select_by_id =
    "SELECT user_id, username, password_hash, nickname, avatar_url, status FROM users WHERE user_id = ?"

abbrev pub insert_user : String
insert_user =
    "INSERT INTO users (username, password_hash, nickname, avatar_url) VALUES (?, ?, ?, ?)"

abbrev pub last_insert_id : String
last_insert_id = "SELECT LAST_INSERT_ID() AS id"

abbrev pub update_user : String
update_user = "UPDATE users SET nickname = ?, avatar_url = ?, status = ? WHERE user_id = ?"

abbrev pub delete_user : String
delete_user = "DELETE FROM users WHERE user_id = ?"

module _ {W Row : Type 0} (sql : Sql W Row) where
  open sql use {execute_query, execute_update, get_uint64, get_int, get_string}

  -- The columns of a row that the finders read.
  unfoldable pub read_user : Row → User
  read_user row = record new_user {
    user_id = get_uint64 row "user_id";
    username = get_string row "username";
    password_hash = get_string row "password_hash";
    nickname = get_string row "nickname";
    avatar_url = get_string row "avatar_url";
    status = get_int row "status";
  }

  abbrev pub optional_user : Option Row → Option User
  optional_user none = none
  optional_user (some row) = some (read_user row)

  -- One attempt of a finder on a connection.
  unfoldable pub find_by : String → Param → ℕ → Io W (Option User)
  find_by statement param conn = do
    res ← execute_query conn statement (param ∷ [])
    row ← next res
    pure (optional_user row)

  unfoldable pub find_by_username : Text → W → Option User × W
  unfolding find_by
  find_by_username username = try_or (retried sql (find_by select_by_username (text username))) none

  unfoldable pub find_by_id : ℕ → W → Option User × W
  unfolding find_by
  find_by_id user_id = try_or (retried sql (find_by select_by_id (uint64 user_id))) none

  abbrev pub read_id : Option Row → ℕ
  read_id none = 0
  read_id (some row) = get_uint64 row "id"

  unfoldable pub insert_attempt : User → ℕ → Io W ℕ
  insert_attempt user conn = do
    execute_update conn insert_user (
        text user.username
        ∷ text user.password_hash
        ∷ text user.nickname
        ∷ text user.avatar_url
        ∷ [])
    res ← execute_query conn last_insert_id []
    row ← next res
    pure (read_id row)

  abbrev pub inserted : ℕ × W → (Bool × ℕ) × W
  inserted (out_user_id, w) = ((not (out_user_id == 0), out_user_id), w)

  -- What `Insert` returns and leaves in `out_user_id`, which is 0 where it throws.
  unfoldable pub insert : User → W → (Bool × ℕ) × W
  unfolding insert_attempt
  insert user w = inserted (try_or (retried sql (insert_attempt user)) 0 w)

  unfoldable pub update : User → W → Bool × W
  update user =
      try_or
        (do
          retried sql λ conn. execute_update conn update_user (
              text user.nickname
              ∷ text user.avatar_url
              ∷ int user.status
              ∷ uint64 user.user_id
              ∷ [])
          pure true)
        false

  unfoldable pub delete : ℕ → W → Bool × W
  delete user_id =
      try_or
        (do retried sql (λ conn. execute_update conn delete_user (uint64 user_id ∷ [])); pure true)
        false
