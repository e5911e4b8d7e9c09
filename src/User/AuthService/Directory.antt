-- ===== src/User/AuthService/Directory.antt =====
-- What MySQL, Redis and bcrypt document of the calls that a registration and a login make, while
-- they are up: the table of the users, whose names are a unique key.
use imsystem.Prelude.{
  ℕ, suc, ◌<◌, Bool, true, Option, none, some, List, [], ◌∷◌, ◌++◌, ◌≡◌, map, if◌then◌else◌,
}
use imsystem.Prelude.Int.{ℤ, pos}
use imsystem.Prelude.Texts.{Text}
use imsystem.Common.Effect.{returned}
use imsystem.Common.Sql.{text}
use imsystem.User.Model.{User, new_user}
use imsystem.User.UserDao.{select_by_username, insert_user, last_insert_id, read_user}
use imsystem.User.AuthService.{AuthHost}

-- The columns of a row that the service reads.
pub record UserRow : Type 0 where
  pub user_id : ℕ
  pub username : Text
  pub password_hash : Text
  pub nickname : Text
  pub avatar_url : Text
  pub status : ℤ

-- The rows, and the number of the next one.
pub record Users : Type 0 where
  pub rows : List UserRow
  pub next_id : ℕ

-- The row of a name, where `same` is the collation of the column.
unfoldable pub find_user : (Text → Text → Bool) → Text → List UserRow → Option UserRow
find_user same username [] = none
find_user same username (u ∷ us) =
    let rest = find_user same username us in if same u.username username then some u else rest

abbrev pub user_of : UserRow → User
user_of u = record new_user {
  user_id = u.user_id;
  username = u.username;
  password_hash = u.password_hash;
  nickname = u.nickname;
  avatar_url = u.avatar_url;
  status = u.status;
}

abbrev pub as_option : Option UserRow → Option User
as_option none = none
as_option (some u) = some (user_of u)

abbrev pub as_list : Option UserRow → List User
as_list none = []
as_list (some u) = user_of u ∷ []

-- The row of a new user, with the status that is the default of its column.
abbrev pub row_of : ℕ → Text → Text → Text → Text → UserRow
row_of user_id username password_hash nickname avatar_url = record {
  user_id = user_id;
  username = username;
  password_hash = password_hash;
  nickname = nickname;
  avatar_url = avatar_url;
  status = pos 0;
}

abbrev pub with_user : Text → Text → Text → Text → Users → Users
with_user username password_hash nickname avatar_url s = record {
  rows = s.rows ++ row_of s.next_id username password_hash nickname avatar_url ∷ [];
  next_id = suc s.next_id;
}

-- `view` is the table that a world holds, `last_id` the number that a connection inserted last.
pub record Directory {W Row : Type 0} (host : AuthHost W Row) (same : Text → Text → Bool)
    (view : W → Users) (last_id : ℕ → W → ℕ) : Type 0 where
  pub same_refl : (username : Text) → same username username ≡ true
  pub positive : (w : W) → 0 < (view w).next_id
  pub acquires :
      (w : W) → (conn : ℕ) × (v : W) × (host.sql.acquire w ≡ (some conn, v)) × (view v ≡ view w)
  pub releases : (conn : ℕ) (w : W) → view (host.sql.release conn w) ≡ view w
  pub selects :
      (conn : ℕ) (username : Text) (w : W)
      → (rows : List Row) × (v : W) × (host.sql.execute_query conn select_by_username
            (text username ∷ [])
            w
          ≡ (returned (record { rows = rows; failure = none }), v))
        × (view v ≡ view w)
        × (map (read_user host.sql) rows ≡ as_list (find_user same username (view w).rows))
  pub inserts :
      (conn : ℕ) (username password_hash nickname avatar_url : Text) (w : W)
      → find_user same username (view w).rows ≡ none
      → (v : W) × (host.sql.execute_update conn insert_user
            (text username ∷ text password_hash ∷ text nickname ∷ text avatar_url ∷ [])
            w
          ≡ (returned tt, v))
        × (view v ≡ with_user username password_hash nickname avatar_url (view w))
        × (last_id conn v ≡ (view w).next_id)
  pub reads_id :
      (conn : ℕ) (w : W)
      → (row : Row) × (v : W) × (host.sql.execute_query conn last_insert_id [] w
          ≡ (returned (record { rows = row ∷ []; failure = none }), v))
        × (view v ≡ view w)
        × (host.sql.get_uint64 row "id" ≡ last_id conn w)
  -- A hash that bcrypt made of a password is one that it accepts for it.
  pub hashes :
      (password : Text) (cost : ℕ) (w : W)
      → (host.check_password password (host.generate_hash password cost w).0 ≡ true)
        × (view (host.generate_hash password cost w).1 ≡ view w)
  pub ticks : (w : W) → view (host.tokens.clock w).1 ≡ view w
  pub draws : (w : W) → view (host.tokens.random w).1 ≡ view w
  pub sets :
      (key v : Text) (seconds : ℕ) (w : W)
      → (u : W) × (host.tokens.redis.set_expiring key v seconds w ≡ (returned tt, u))
        × (view u ≡ view w)
