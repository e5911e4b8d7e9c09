-- ===== src/User/Simulation.antt =====
-- user/main.cpp: the client that `main` simulates, which logs in and lists its friends.
use imsystem.Prelude.{
  sym, ap, ◌∙◌, Bool, true, false, not, Option, none, some, [], ◌∷◌, ◌≡◌, refl, is_empty,
  if◌then◌else◌, Bool-cases, inl, inr,
}
use imsystem.Prelude.Int.{ℤ, pos}
use imsystem.Prelude.Texts.{Text, codes}
use imsystem.User.AuthService.{AuthHost, LoggedIn, issued, login_found, login, validate_password}
use imsystem.User.AuthService.Sessions.{verify_token-accepts}
use imsystem.User.Managers.{get_friend_list}
use imsystem.User.Model.{User}
use imsystem.User.TokenManager.{generate_and_save_token, verify_token}
use imsystem.User.UserDao.{find_by_username}

-- What the thread logs at its end.
pub data Simulated : Type 0 where
  found_friends : ℤ → Simulated
  token_invalid : Simulated
  login_failed : Text → Simulated

module _ {W Row : Type 0} (host : AuthHost W Row) where
  abbrev pub counted : {A : Type 0} → (A × ℤ) × W → Simulated × W
  counted ((friends, total), w) = (found_friends total, w)

  abbrev pub verified : Bool × W → Simulated × W
  verified (ok, w) =
      if ok
      then counted (get_friend_list host.sql 1001 (pos 1) (pos 20) (pos 0) w)
      else (token_invalid, w)

  abbrev pub logged_in : LoggedIn × W → Simulated × W
  logged_in (r, w) =
      if r.ok
      then verified (verify_token host.tokens 1001 r.token w)
      else (login_failed r.message, w)

  unfoldable pub simulate : W → Simulated × W
  simulate w = logged_in (login host (codes "test_user") (codes "123456") (pos 1) w)

  abbrev pub is_invalid : Simulated → Bool
  is_invalid token_invalid = true
  is_invalid _ = false

  -- A token is answered exactly with a success.
  issued-is_empty :
      (user : User) (r : Text × W)
      → (issued host user r).0.ok ≡ not (is_empty (issued host user r).0.token)
  issued-is_empty user ([], w) = refl
  issued-is_empty user (c ∷ cs, w) = refl

  login_found-is_empty :
      (password : Text) (client_type : ℤ) (r : Option User × W)
      → (login_found host password client_type r).0.ok
        ≡ not (is_empty (login_found host password client_type r).0.token)
  login_found-is_empty password client_type (none, w) = refl
  login_found-is_empty password client_type (some user, w) =
      elim (Bool-cases (validate_password host password user.password_hash)) [
        | inl e ↦
            rw e (
              issued-is_empty user (generate_and_save_token host.tokens user.user_id client_type w))
        | inr e ↦ rw e refl
      ]

  logged_in-valid :
      (r : LoggedIn × W) → r.0.ok ≡ not (is_empty r.0.token) → is_invalid (logged_in r).0 ≡ false
  logged_in-valid (r, w) h = elim (Bool-cases r.ok) [
    | inl e ↦ rw (e, checked r.token w (sym h ∙ e)) refl
    | inr e ↦ rw e refl
  ]
    where
      checked :
          (token : Text) (v : W)
          → not (is_empty token) ≡ true
          → verify_token host.tokens 1001 token v
            ≡ (true, (verify_token host.tokens 1001 token v).1)
      checked token v k =
          ap (λ b. (b, (verify_token host.tokens 1001 token v).1))
            (verify_token-accepts host.tokens 1001 token v ∙ k)

  -- A login that succeeds answers a token that is then accepted: the simulated client never sees an
  -- invalid token, also where another user than the one with the number 1001 logged in.
  simulate-valid : (w : W) → is_invalid (simulate w).0 ≡ false
  unfolding simulate login
  simulate-valid w = logged_in-valid (login host (codes "test_user") (codes "123456") (pos 1) w) (
      login_found-is_empty (codes "123456") (pos 1)
        (find_by_username host.sql (codes "test_user") w))
