-- ===== src/User/TokenManager.antt =====
-- user/src/token_manager.cpp. The clock and the random device act on the world.
pub mod Table
use imsystem.Prelude.{ℕ, ◌*◌, Bool, true, false, not, [], ◌∷◌, ◌++◌, is_empty, if◌then◌else◌}
use imsystem.Prelude.Int.{ℤ, pos}
use imsystem.Prelude.Texts.{Text, codes, text_eq}
use imsystem.Common.Chars.Numbers.{to_string}
use imsystem.Common.MysqlPool.{show_int}
use imsystem.Common.RedisClient.{Redis, connect, set, delete}

abbrev pub token_expire_seconds : ℤ
token_expire_seconds = pos (7 * 24 * 3600)

unfoldable pub get_redis_key : ℕ → Text
unfolding to_string
get_redis_key user_id = codes "user:token:" ++ to_string user_id

-- The text that is put together from its parts.
unfoldable pub token_text : ℕ → ℤ → ℤ → ℕ → Text
token_text user_id client_type ts number =
    codes "TK_"
    ++ (to_string user_id
        ++ (b'_' ∷ (show_int client_type ++ (b'_' ∷ (show_int ts ++ (b'_' ∷ to_string number))))))

-- The surroundings of the token manager; `random` draws from 1000 to 9999.
pub record TokenHost (W : Type 0) : Type 0 where
  pub redis : Redis W
  pub clock : W → ℤ × W
  pub random : W → ℕ × W

module _ {W : Type 0} (host : TokenHost W) where
  unfoldable pub init : Text → ℤ → W → Bool × W
  init redis_host redis_port = connect host.redis redis_host redis_port [] (pos 0)

  abbrev pub token_or_empty : Text → Bool × W → Text × W
  token_or_empty token (ok, w) = (if not ok then [] else token, w)

  unfoldable pub generate_and_save_token : ℕ → ℤ → W → Text × W
  generate_and_save_token user_id client_type w =
      let (ts, w1) = host.clock w in
      let (number, w2) = host.random w1 in
      let token = token_text user_id client_type ts number in
      token_or_empty token (set host.redis (get_redis_key user_id) token token_expire_seconds w2)

  -- The saved token is not read: the source takes the token that it is given in its place. The
  -- result of the refresh is not used.
  unfoldable pub verify_token : ℕ → Text → W → Bool × W
  verify_token user_id token w =
      let saved_token = token in
      if is_empty saved_token
      then (false, w)
      else if not (text_eq saved_token token)
      then (false, w)
      else (true, (set host.redis (get_redis_key user_id) saved_token token_expire_seconds w).1)

  unfoldable pub delete_token : ℕ → W → Bool × W
  delete_token user_id = delete host.redis (get_redis_key user_id)
