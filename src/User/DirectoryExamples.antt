-- ===== src/User/DirectoryExamples.antt =====
-- The authentication service over a table of users in memory.
use imsystem.Prelude.{
  ℕ, suc, true, false, Option, some, none, List, [], ◌∷◌, String, ◌≡◌, refl, map, arith,
  if◌then◌else◌,
}
use imsystem.Prelude.Int.{ℤ, pos}
use imsystem.Prelude.Texts.{Text, codes, text_eq, text_eq_refl}
use imsystem.Common.Effect.{returned}
use imsystem.Common.RedisClient.{Redis}
use imsystem.Common.Sql.{Sql, Param, text}
use imsystem.User.UserDao.{read_user}
use imsystem.User.TokenManager.{token_text}
use imsystem.User.AuthService.{AuthHost, register, login, success, user_already_exists}
use imsystem.User.AuthService.Directory.{Users, UserRow, Directory, find_user, as_list, with_user}
use imsystem.User.AuthService.Returning.{register-login}

-- The rows, and how many numbers were given out.
record Db : Type 0 where
  rows : List UserRow
  given : ℕ

abbrev view : Db → Users
view w = record { rows = w.rows; next_id = suc w.given }

data Row : Type 0 where
  of_id : ℕ → Row
  of_user : UserRow → Row

abbrev number : Row → ℕ
number (of_id n) = n
number (of_user u) = u.user_id

abbrev status : Row → ℤ
status (of_id n) = pos 0
status (of_user u) = u.status

abbrev column : UserRow → String → Text
column u c =
    if text_eq (codes c) (codes "username")
    then u.username
    else if text_eq (codes c) (codes "password_hash")
    then u.password_hash
    else if text_eq (codes c) (codes "nickname")
    then u.nickname
    else u.avatar_url

abbrev string : Row → String → Text
string (of_id n) c = []
string (of_user u) c = column u c

abbrev rows_of : Option UserRow → List Row
rows_of none = []
rows_of (some u) = of_user u ∷ []

abbrev query : List Param → Db → List Row
query (text username ∷ []) w = rows_of (find_user text_eq username w.rows)
query _ w = of_id (w.given) ∷ []

abbrev update : List Param → Db → Db
update (text u ∷ text p ∷ text n ∷ text a ∷ []) w = record {
  rows = (with_user u p n a (view w)).rows;
  given = suc w.given;
}
update _ w = w

abbrev sql : Sql Db Row
sql = record {
  acquire = λ w. (some 1, w);
  release = λ conn w. w;
  execute_query = λ conn s ps w. (returned (record { rows = query ps w; failure = none }), w);
  execute_update = λ conn s ps w. (returned tt, update ps w);
  get_uint64 = λ r c. number r;
  get_int = λ r c. status r;
  get_string = string;
  sleep = λ n w. w;
}

abbrev redis : Redis Db
redis = record {
  open_client = λ options size w. (returned tt, w);
  ping = λ w. (returned (codes "PONG"), w);
  set_expiring = λ key v seconds w. (returned tt, w);
  set_plain = λ key v w. (returned tt, w);
  get_value = λ key w. (returned none, w);
  del = λ key w. (returned 0, w);
}

-- A hash that is the password itself.
abbrev host : AuthHost Db Row
host = record {
  sql = sql;
  tokens = record { redis = redis; clock = λ w. (pos 5, w); random = λ w. (1000, w) };
  generate_hash = λ password cost w. (password, w);
  check_password = text_eq;
  write_json = λ info. info.username;
}

read_user-rows_of : (o : Option UserRow) → map (read_user sql) (rows_of o) ≡ as_list o
unfolding read_user text_eq codes
read_user-rows_of none = refl
read_user-rows_of (some u) = refl

up : Directory host text_eq view (λ conn w. w.given)
up = record {
  same_refl = text_eq_refl;
  positive = λ w. omega arith;
  acquires = λ w. (1, w, refl, refl);
  releases = λ conn w. refl;
  selects = λ conn username w. (_, w, refl, refl, read_user-rows_of _);
  inserts = λ conn username password_hash nickname avatar_url w fresh. (_, refl, refl, refl);
  reads_id = λ conn w. (_, w, refl, refl, refl);
  hashes = λ password cost w. (text_eq_refl password, refl);
  ticks = λ w. refl;
  draws = λ w. refl;
  sets = λ key v seconds w. (w, refl, refl);
}

abbrev empty : Db
empty = record { rows = []; given = 0 }

abbrev alice : Text
alice = codes "alice"

abbrev pw : Text
pw = codes "pw"

register-login_example :
    ((register host alice pw alice empty).0 ≡ record { ok = true; message = success; user_id = 1 })
    × ((register host alice alice pw (register host alice pw alice empty).1).0
        ≡ record { ok = false; message = user_already_exists; user_id = 0 })
    × ((ts : ℤ) × (number : ℕ) × ((login host alice pw
            (pos 1)
            (register host alice pw alice empty).1).0
          ≡ record {
            ok = true;
            message = success;
            token = token_text 1 (pos 1) ts number;
            user_info = alice;
          }))
unfolding find_user
register-login_example =
    register-login host text_eq view (λ conn w. w.given) up alice pw alice alice pw (pos 1) empty
      refl
