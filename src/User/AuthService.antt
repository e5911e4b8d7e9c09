-- ===== src/User/AuthService.antt =====
-- user/src/service/auth_service.cpp, and its facade user/src/auth_manager.cpp. Bcrypt and the JSON
-- writer are parameters.
pub mod Registering
pub mod Sessions
pub mod Directory
pub mod Returning
use imsystem.Prelude.{
  ℕ, Bool, true, false, not, ◌||◌, Option, none, some, List, [], ◌∷◌, ◌==◌, is_empty, if◌then◌else◌,
}
use imsystem.Prelude.Int.{ℤ}
use imsystem.Prelude.Texts.{Text, codes}
use imsystem.Common.Sql.{Sql}
use imsystem.User.Model.{User, new_user}
use imsystem.User.UserDao.{find_by_username, insert}
use imsystem.User.TokenManager.{TokenHost, generate_and_save_token, verify_token, delete_token}

abbrev pub success : Text
success = codes "SUCCESS"

abbrev pub user_already_exists : Text
user_already_exists = codes "USER_ALREADY_EXISTS"

abbrev pub server_internal_error : Text
server_internal_error = codes "SERVER_INTERNAL_ERROR"

abbrev pub user_not_found : Text
user_not_found = codes "USER_NOT_FOUND"

abbrev pub password_error : Text
password_error = codes "PASSWORD_ERROR"

-- The object that `Login` writes.
pub record UserInfo : Type 0 where
  pub user_id : ℕ
  pub username : Text
  pub nickname : Text
  pub avatar_url : Text
  pub status : ℤ

pub record AuthHost (W Row : Type 0) : Type 0 where
  pub sql : Sql W Row
  pub tokens : TokenHost W
  -- `BCrypt::generateHash(password, rounds)` draws a salt.
  pub generate_hash : Text → ℕ → W → Text × W
  pub check_password : Text → Text → Bool
  pub write_json : UserInfo → Text

pub record Registered : Type 0 where
  pub ok : Bool
  pub message : Text
  pub user_id : ℕ

pub record LoggedIn : Type 0 where
  pub ok : Bool
  pub message : Text
  pub token : Text
  pub user_info : Text

module _ {W Row : Type 0} (host : AuthHost W Row) where
  unfoldable pub hash_password : Text → W → Text × W
  hash_password plain_text = host.generate_hash plain_text 12

  unfoldable pub validate_password : Text → Text → Bool
  validate_password plain_text hash_pass = host.check_password plain_text hash_pass

  abbrev pub register_result : (Bool × ℕ) × W → Registered × W
  register_result ((ok, new_user_id), w) =
      if not ok || new_user_id == 0
      then (record { ok = false; message = server_internal_error; user_id = 0 }, w)
      else (record { ok = true; message = success; user_id = new_user_id }, w)

  -- The record that is inserted for a name.
  abbrev pub user_record : Text → Text → Text → User
  user_record username hashed_pw nickname = record new_user {
    username = username;
    password_hash = hashed_pw;
    nickname = nickname;
    avatar_url = codes "http://mock/avatar.jpg";
  }

  abbrev pub register_new : Text → Text → Text → W → Registered × W
  register_new username password nickname w =
      let (hashed_pw, w') = hash_password password w in
      register_result (insert host.sql (user_record username hashed_pw nickname) w')

  abbrev pub register_unless : Text → Text → Text → Option User × W → Registered × W
  register_unless username password nickname (some user, w) =
      (record { ok = false; message = user_already_exists; user_id = 0 }, w)
  register_unless username password nickname (none, w) = register_new username password nickname w

  unfoldable pub register : Text → Text → Text → W → Registered × W
  register username password nickname w =
      register_unless username password nickname (find_by_username host.sql username w)

  abbrev pub refuse_login : Text → LoggedIn
  refuse_login message = record { ok = false; message = message; token = []; user_info = [] }

  abbrev pub info_of : User → UserInfo
  info_of user = record {
    user_id = user.user_id;
    username = user.username;
    nickname = user.nickname;
    avatar_url = user.avatar_url;
    status = user.status;
  }

  abbrev pub issued : User → Text × W → LoggedIn × W
  issued user (new_token, w) =
      if is_empty new_token then (refuse_login server_internal_error, w) else (
        record {
          ok = true;
          message = success;
          token = new_token;
          user_info = host.write_json (info_of user);
        },
        w,
      )

  abbrev pub login_found : Text → ℤ → Option User × W → LoggedIn × W
  login_found password client_type (none, w) = (refuse_login user_not_found, w)
  login_found password client_type (some user, w) =
      if not (validate_password password user.password_hash)
      then (refuse_login password_error, w)
      else issued user (generate_and_save_token host.tokens user.user_id client_type w)

  unfoldable pub login : Text → Text → ℤ → W → LoggedIn × W
  login username password client_type w =
      login_found password client_type (find_by_username host.sql username w)

  abbrev pub deleted : Bool × W → Bool × W
  deleted (ok, w) = if not ok then (false, w) else (true, w)

  abbrev pub logout_verified : ℕ → Bool × W → Bool × W
  logout_verified user_id (verified, w) =
      if not verified then (false, w) else deleted (delete_token host.tokens user_id w)

  unfoldable pub logout : ℕ → Text → W → Bool × W
  logout user_id token w = logout_verified user_id (verify_token host.tokens user_id token w)
