-- ===== src/User/AuthService/Sessions.antt =====
-- The tokens of a session: when they are issued, stored, accepted and deleted.
use imsystem.Prelude.{
  ℕ, Bool, true, false, not, Option, none, some, [], ◌∷◌, ◌*◌, ltb, ◌≡◌, refl, is_empty, Bool-cases,
  inl, inr, arith,
}
use imsystem.Prelude.Int.{ℤ}
use imsystem.Prelude.Texts.{Text, text_eq_refl}
use imsystem.Common.Effect.{Outcome, returned, thrown, pure, resume, settle}
use imsystem.Common.RedisClient.{Redis, set, delete}
use imsystem.User.Model.{User}
use imsystem.User.UserDao.{find_by_username}
use imsystem.User.TokenManager.{
  TokenHost, get_redis_key, token_or_empty, generate_and_save_token, verify_token, delete_token,
  token_expire_seconds,
}
use imsystem.User.AuthService.{
  AuthHost, validate_password, issued, login_found, login, deleted, logout_verified, logout,
}

-- What Redis documents of SETEX and DEL, with `value` as the view of the store.
pub record Stores {W : Type 0} (redis : Redis W) (value : Text → W → Option Text) : Type 0 where
  pub stored :
      (key v : Text) (seconds : ℕ) (w : W)
      → (redis.set_expiring key v seconds w).0 ≡ returned tt
      → value key (redis.set_expiring key v seconds w).1 ≡ some v
  pub dropped :
      (key : Text) (w : W) (n : ℕ)
      → (redis.del key w).0 ≡ returned n
      → value key (redis.del key w).1 ≡ none

-- The token that is checked against the stored one is the token itself: every token that is not
-- empty is accepted for every user, whatever Redis holds.
pub verify_token-accepts :
    {W : Type 0} (host : TokenHost W) (user_id : ℕ) (token : Text) (w : W)
    → (verify_token host user_id token w).0 ≡ not (is_empty token)
unfolding verify_token
verify_token-accepts host user_id token w = elim (Bool-cases (is_empty token)) [
  | inl e ↦ rw e refl
  | inr e ↦ rw (e, text_eq_refl token) refl
]

module _ {W Row : Type 0} (host : AuthHost W Row) (value : Text → W → Option Text)
    (store : Stores host.tokens.redis value) where
  set-stores :
      (key v : Text) (w : W)
      → (set host.tokens.redis key v token_expire_seconds w).0 ≡ true
      → value key (set host.tokens.redis key v token_expire_seconds w).1 ≡ some v
  unfolding set
  set-stores key v w =
      outcome (host.tokens.redis.set_expiring key v (7 * 24 * 3600) w) (store.stored key v _ w)
    where
      outcome :
          (r : Outcome (Unit {0}) × W)
          → (r.0 ≡ returned tt → value key r.1 ≡ some v)
          → (settle false (resume (λ _. pure true) r)).0 ≡ true
          → value key (settle false (resume (λ _. pure true) r)).1 ≡ some v
      outcome (returned r, u) k e = k refl
      outcome (thrown x, u) k e = absurd (ground arith)

  delete-drops :
      (key : Text) (w : W)
      → (delete host.tokens.redis key w).0 ≡ true
      → value key (delete host.tokens.redis key w).1 ≡ none
  unfolding delete
  delete-drops key w = outcome (host.tokens.redis.del key w) (store.dropped key w)
    where
      outcome :
          (r : Outcome ℕ × W)
          → ((n : ℕ) → r.0 ≡ returned n → value key r.1 ≡ none)
          → (settle false (resume (λ n. pure (ltb 0 n)) r)).0 ≡ true
          → value key (settle false (resume (λ n. pure (ltb 0 n)) r)).1 ≡ none
      outcome (returned n, u) k e = k n refl
      outcome (thrown x, u) k e = absurd (ground arith)

  issued-stores :
      (user : User) (key token : Text) (r : Bool × W)
      → (r.0 ≡ true → value key r.1 ≡ some token)
      → (issued host user (token_or_empty host.tokens token r)).0.ok ≡ true
      → value key (issued host user (token_or_empty host.tokens token r)).1
        ≡ some (issued host user (token_or_empty host.tokens token r)).0.token
  issued-stores user key token (false, u) k e = absurd (ground arith)
  issued-stores user key [] (true, u) k e = absurd (ground arith)
  issued-stores user key (x ∷ xs) (true, u) k e = k refl

  login_found-stores :
      (password : Text) (client_type : ℤ) (r : Option User × W)
      → (login_found host password client_type r).0.ok ≡ true
      → (user : User) × (r.0 ≡ some user)
        × (host.check_password password user.password_hash ≡ true)
        × (value (get_redis_key user.user_id) (login_found host password client_type r).1
            ≡ some (login_found host password client_type r).0.token)
  unfolding validate_password generate_and_save_token
  login_found-stores password client_type (none, v) h = absurd (ground arith)
  login_found-stores password client_type (some user, v) h =
      elim (Bool-cases (host.check_password password user.password_hash)) [
        | inl e ↦ (
          user,
          refl,
          e,
          rw e (
              issued-stores user (get_redis_key user.user_id) _ _
                (set-stores (get_redis_key user.user_id) _ _) (rw e at h)),
        )
        | inr e ↦ absurd (ground arith)
      ]

  -- Where Redis stores as it documents: a login that succeeds was for a user that was found, with
  -- that user's password, and the token that it answers is the one that Redis then holds for the
  -- user.
  pub login-stores :
      (username password : Text) (client_type : ℤ) (w : W)
      → (login host username password client_type w).0.ok ≡ true
      → (user : User) × ((find_by_username host.sql username w).0 ≡ some user)
        × (host.check_password password user.password_hash ≡ true)
        × (value (get_redis_key user.user_id) (login host username password client_type w).1
            ≡ some (login host username password client_type w).0.token)
  unfolding login
  login-stores username password client_type w =
      login_found-stores password client_type (find_by_username host.sql username w)

  logout_verified-drops :
      (user_id : ℕ) (r : Bool × W)
      → (logout_verified host user_id r).0 ≡ true
      → value (get_redis_key user_id) (logout_verified host user_id r).1 ≡ none
  unfolding delete_token
  logout_verified-drops user_id (false, v) h = absurd (ground arith)
  logout_verified-drops user_id (true, v) h =
      answer (delete host.tokens.redis (get_redis_key user_id) v)
        (delete-drops (get_redis_key user_id) v) h
    where
      answer :
          (r : Bool × W)
          → (r.0 ≡ true → value (get_redis_key user_id) r.1 ≡ none)
          → (deleted host r).0 ≡ true
          → value (get_redis_key user_id) (deleted host r).1 ≡ none
      answer (true, u) k e = k refl
      answer (false, u) k e = absurd (ground arith)

  -- Where Redis deletes as it documents: a logout that succeeds leaves no token for the user in
  -- Redis.
  pub logout-drops :
      (user_id : ℕ) (token : Text) (w : W)
      → (logout host user_id token w).0 ≡ true
      → value (get_redis_key user_id) (logout host user_id token w).1 ≡ none
  unfolding logout
  logout-drops user_id token w =
      logout_verified-drops user_id (verify_token host.tokens user_id token w)
