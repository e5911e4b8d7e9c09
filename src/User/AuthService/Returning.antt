-- ===== src/User/AuthService/Returning.antt =====
-- A user who registers and then logs in.
use imsystem.Prelude.{
  ℕ, ◌==◌, ◌*◌, Bool, true, false, Option, none, some, List, [], ◌∷◌, ◌++◌, ◌≡◌, refl, ap, ◌∙◌, map,
  Bool-cases, inl, inr, arith,
}
use imsystem.Prelude.Int.{ℤ, pos}
use imsystem.Prelude.Texts.{Text, codes}
use imsystem.Common.Effect.{returned, pure, resume}
use imsystem.Common.RedisClient.{set}
use imsystem.Common.Retry.{execute_with_retry, retry_loop}
use imsystem.Common.Sql.{with_guard, retried, first_row}
use imsystem.User.Model.{User}
use imsystem.User.UserDao.{
  read_user, optional_user, find_by, find_by_username, insert_attempt, insert,
}
use imsystem.User.TokenManager.{token_text, get_redis_key, generate_and_save_token}
use imsystem.User.AuthService.{
  AuthHost, hash_password, validate_password, user_record, register, info_of, login, success,
  user_already_exists,
}
use imsystem.User.AuthService.Directory.{
  Users, UserRow, Directory, find_user, user_of, as_option, as_list, row_of, with_user,
}

find_user-append :
    (same : Text → Text → Bool) (username : Text) (us : List UserRow) (u : UserRow)
    → same u.username username ≡ true
    → find_user same username us ≡ none
    → find_user same username (us ++ u ∷ []) ≡ some u
unfolding find_user
find_user-append same username [] u s h = rw s refl
find_user-append same username (v ∷ us) u s h = elim (Bool-cases (same v.username username)) [
  | inl e ↦ absurd (ground arith)
  | inr e ↦ rw e (find_user-append same username us u s (rw e at h))
]

module _ {W Row : Type 0} (host : AuthHost W Row) (same : Text → Text → Bool) (view : W → Users)
    (last_id : ℕ → W → ℕ) (up : Directory host same view last_id) where
  positive-test : (w : W) → ((view w).next_id == 0) ≡ false
  positive-test w = ground (arith, up.positive w)

  first-found :
      (rows : List Row) (o : Option UserRow) (v : W)
      → map (read_user host.sql) rows ≡ as_list o
      → resume (λ row. pure (optional_user host.sql row)) (first_row rows none v)
        ≡ (returned (as_option o), v)
  first-found [] none v h = refl
  first-found [] (some u) v h = absurd (cc)
  first-found (r ∷ rs) none v h = absurd (cc)
  first-found (r ∷ rs) (some u) v h = cc

  find_lem :
      (username : Text) (w : W)
      → (v : W) × (find_by_username host.sql username w
          ≡ (as_option (find_user same username (view w).rows), v))
        × (view v ≡ view w)
  unfolding find_by_username retried execute_with_retry retry_loop with_guard find_by
  find_lem username w =
      let (conn, w1, a, k1) = up.acquires w in
      let (rows, w2, q, k2, found) = up.selects conn username w1 in
      (
        host.sql.release conn w2,
        rw (a, q, first-found rows _ w2 found, ap (λ (s : Users). s.rows) k1) refl,
        up.releases conn w2 ∙ k2 ∙ k1,
      )

  insert_lem :
      (u : User) (w : W)
      → find_user same u.username (view w).rows ≡ none
      → (v : W) × (insert host.sql u w ≡ ((true, (view w).next_id), v))
        × (view v ≡ with_user u.username u.password_hash u.nickname u.avatar_url (view w))
  unfolding insert retried execute_with_retry retry_loop with_guard insert_attempt
  insert_lem u w fresh =
      let (conn, w1, a, k1) = up.acquires w in
      let (w2, i, k2, l) =
        up.inserts conn u.username u.password_hash u.nickname u.avatar_url w1 (rw k1 fresh) in
      let (row, w3, q, k3, n) = up.reads_id conn w2 in
      (
        host.sql.release conn w3,
        rw (a, i, q, n, l, ap (λ (s : Users). s.next_id) k1, positive-test w) refl,
        up.releases conn w3
            ∙ k3
            ∙ k2
            ∙ ap (with_user u.username u.password_hash u.nickname u.avatar_url) k1,
      )

  register_lem :
      (username password nickname : Text) (w : W)
      → find_user same username (view w).rows ≡ none
      → (hash : Text) × (v : W) × (register host username password nickname w
          ≡ (record { ok = true; message = success; user_id = (view w).next_id }, v))
        × (host.check_password password hash ≡ true)
        × (view v ≡ with_user username hash nickname (codes "http://mock/avatar.jpg") (view w))
  unfolding register hash_password
  register_lem username password nickname w fresh =
      let (w1, f, k1) = find_lem username w in
      let (checks, k2) = up.hashes password 12 w1 in
      let hash = (host.generate_hash password 12 w1).0 in
      let (v, i, k3) =
        insert_lem (user_record host username hash nickname) (host.generate_hash password 12 w1).1
          (rw (k2, k1) fresh) in
      (
        hash,
        v,
        rw (f, fresh, i, ap (λ (s : Users). s.next_id) (k2 ∙ k1), positive-test w) refl,
        checks,
        k3 ∙ ap (with_user username hash nickname (codes "http://mock/avatar.jpg")) (k2 ∙ k1),
      )

  generate_lem :
      (user_id : ℕ) (client_type : ℤ) (w : W)
      → (ts : ℤ) × (number : ℕ) × (v : W) × (generate_and_save_token host.tokens user_id client_type
            w
          ≡ (token_text user_id client_type ts number, v))
        × (view v ≡ view w)
  unfolding generate_and_save_token set
  generate_lem user_id client_type w =
      let ts = (host.tokens.clock w).0 in
      let w1 = (host.tokens.clock w).1 in
      let number = (host.tokens.random w1).0 in
      let w2 = (host.tokens.random w1).1 in
      let (v, s, k) =
        up.sets (get_redis_key user_id) (token_text user_id client_type ts number) (7 * 24 * 3600)
          w2 in
      (ts, number, v, rw s refl, k ∙ up.draws w1 ∙ up.ticks w)

  login_lem :
      (u : UserRow) (username password : Text) (client_type : ℤ) (w : W)
      → find_user same username (view w).rows ≡ some u
      → host.check_password password u.password_hash ≡ true
      → (ts : ℤ) × (number : ℕ) × ((login host username password client_type w).0 ≡ record {
        ok = true;
        message = success;
        token = token_text u.user_id client_type ts number;
        user_info = host.write_json (info_of host (user_of u));
      })
  unfolding login validate_password token_text codes
  login_lem u username password client_type w found checks =
      let (w1, f, k1) = find_lem username w in
      let (ts, number, v, g, k) = generate_lem u.user_id client_type w1 in
      (ts, number, rw (f, found, checks, g) refl)

  register-again :
      (u : UserRow) (username password nickname : Text) (w : W)
      → find_user same username (view w).rows ≡ some u
      → (register host username password nickname w).0
        ≡ record { ok = false; message = user_already_exists; user_id = 0 }
  unfolding register
  register-again u username password nickname w found =
      let (w1, f, k1) = find_lem username w in rw (f, found) refl

  -- While MySQL and Redis are up, a registration under a name that no user has succeeds with the
  -- number of the new row. Then a login with that name and password succeeds: it answers a token of
  -- that user, and the user's data as they were registered, with status 0. And a second
  -- registration under that name is refused.
  pub register-login :
      (username password nickname password' nickname' : Text) (client_type : ℤ) (w : W)
      → find_user same username (view w).rows ≡ none
      → ((register host username password nickname w).0
          ≡ record { ok = true; message = success; user_id = (view w).next_id })
        × ((register host username password' nickname'
              (register host username password nickname w).1).0
            ≡ record { ok = false; message = user_already_exists; user_id = 0 })
        × ((ts : ℤ) × (number : ℕ) × ((login host username password client_type
                (register host username password nickname w).1).0
              ≡ record {
                ok = true;
                message = success;
                token = token_text (view w).next_id client_type ts number;
                user_info = host.write_json (record {
                  user_id = (view w).next_id;
                  username = username;
                  nickname = nickname;
                  avatar_url = codes "http://mock/avatar.jpg";
                  status = pos 0;
                });
              }))
  register-login username password nickname password' nickname' client_type w fresh =
      let (hash, v, r, checks, k) = register_lem username password nickname w fresh in
      let u = row_of (view w).next_id username hash nickname (codes "http://mock/avatar.jpg") in
      let found =
        ap (λ (s : Users). find_user same username s.rows) k
        ∙ find_user-append same username (view w).rows u (up.same_refl username) fresh in
      rw r (
        refl,
        register-again u username password' nickname' v found,
        login_lem u username password client_type v found checks,
      )
