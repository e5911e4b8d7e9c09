-- ===== src/User/Examples.antt =====
-- Accounts and sessions at concrete inputs.
use imsystem.Prelude.{true, not, is_empty, Option, none, some, [], ◌∷◌, ◌≡◌, ◌↔◌, refl}
use imsystem.Prelude.Int.{pos}
use imsystem.Prelude.Texts.{Text, codes, text_eq}
use imsystem.Common.Effect.{returned}
use imsystem.Common.Retry.{execute_with_retry, retry_loop}
use imsystem.Common.RedisClient.{Redis, set, delete}
use imsystem.Common.Sql.{Sql, with_guard, retried}
use imsystem.User.Model.{User}
use imsystem.User.UserDao.{find_by_username}
use imsystem.User.TokenManager.{
  TokenHost, token_text, generate_and_save_token, verify_token, delete_token,
}
use imsystem.User.AuthService.{AuthHost, validate_password, login, logout}
use imsystem.User.AuthService.Sessions.{Stores, verify_token-accepts, login-stores}
use imsystem.User.FriendService.{request_friend}
use imsystem.User.FriendService.Adding.{Granted, request_friend_iff}

-- A world that is the one value that Redis holds, and a database with one user.
abbrev World : Type 0
World = Option Text

abbrev redis : Redis World
redis = record {
  open_client = λ options size w. (returned tt, w);
  ping = λ w. (returned (codes "PONG"), w);
  set_expiring = λ key v seconds w. (returned tt, some v);
  set_plain = λ key v w. (returned tt, some v);
  get_value = λ key w. (returned w, w);
  del = λ key w. (returned 1, none);
}

abbrev tokens : TokenHost World
tokens = record { redis = redis; clock = λ w. (pos 5, w); random = λ w. (1000, w) }

abbrev sql : Sql World (Unit {0})
sql = record {
  acquire = λ w. (some 1, w);
  release = λ conn w. w;
  execute_query = λ conn s ps w. (returned (record { rows = tt ∷ []; failure = none }), w);
  execute_update = λ conn s ps w. (returned tt, w);
  get_uint64 = λ r c. 3;
  get_int = λ r c. pos 0;
  get_string = λ r c. codes "alice";
  sleep = λ n w. w;
}

abbrev host : AuthHost World (Unit {0})
host = record {
  sql = sql;
  tokens = tokens;
  generate_hash = λ plain rounds w. (plain, w);
  check_password = λ plain hash. true;
  write_json = λ info. info.username;
}

redis-Stores : Stores redis (λ key w. w)
redis-Stores = record { stored = λ key v seconds w e. refl; dropped = λ key w n e. refl }

verify_token-accepts_example :
    (verify_token tokens 3 (codes "forged") none).0 ≡ not (is_empty (codes "forged"))
verify_token-accepts_example = verify_token-accepts tokens 3 (codes "forged") none

alice_logs_in : (login host (codes "alice") (codes "pw") (pos 1) none).0.ok ≡ true
unfolding login find_by_username retried execute_with_retry retry_loop with_guard validate_password
    generate_and_save_token set token_text codes
alice_logs_in = refl

login-stores_example :
    (user : User) × ((find_by_username sql (codes "alice") none).0 ≡ some user)
    × (true ≡ true)
    × ((login host (codes "alice") (codes "pw") (pos 1) none).1
        ≡ some (login host (codes "alice") (codes "pw") (pos 1) none).0.token)
login-stores_example =
    login-stores host (λ key w. w) redis-Stores (codes "alice") (codes "pw") (pos 1) none
      alice_logs_in

alice_logs_out : (logout host 3 (b'T' ∷ []) (some (b'T' ∷ []))).0 ≡ true
unfolding logout verify_token text_eq delete_token delete
alice_logs_out = refl

request_friend_iff_example :
    ((request_friend sql 3 4 (codes "hi") none).0 ≡ true) ↔ Granted sql 3 4 (codes "hi") none
request_friend_iff_example = request_friend_iff sql 3 4 (codes "hi") none
