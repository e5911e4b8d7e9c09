-- ===== src/Admin/ApiHandler.antt =====
-- admin/src/api_handler.cpp. The jsoncpp library is a parameter, with the values that the answers
-- are built of as a data type. A request changes nothing but what it answers: the source only logs
-- where a ban or a new word list is to be stored.
use imsystem.Prelude.{
  ℕ, zero, suc, ◌+◌, ◌&&◌, Option, none, some, List, [], ◌∷◌, String, if◌then◌else◌,
}
use imsystem.Prelude.Int.{ℤ, pos}
use imsystem.Prelude.Texts.{Text, codes, text_eq}
use imsystem.Common.Effect.{Outcome, returned, then_read}

-- The JSON values that the source builds.
mutual
  pub data Value : Type 0 where
    number : ℤ → Value
    string : String → Value
    array : Values → Value
    object : Members → Value

  pub data Values : Type 0 where
    no_values : Values
    value : Value → Values → Values

  pub data Members : Type 0 where
    no_members : Members
    member : String → Value → Members → Members

-- jsoncpp, whose accessors throw on a value of the wrong kind.
pub record JsonLibrary (J : Type 0) : Type 0 where
  pub parse_from_stream : Text → Outcome (Option J)
  pub get : J → String → Outcome J
  pub element : J → ℕ → Outcome J
  pub size : J → ℕ
  pub as_string : J → Outcome Text
  pub as_uint64 : J → Outcome ℕ
  -- The value without indentation.
  pub write_string : Value → Text

-- An answer that is a code and a message.
abbrev pub coded : ℕ → String → Value
coded code msg = object (member "code" (number (pos code)) (member "msg" (string msg) no_members))

abbrev pub invalid_format : Value
invalid_format = coded 400 "Invalid JSON format"

abbrev pub granted : Value
granted = object (
    member "code" (number (pos 0)) (
      member "msg" (string "SUCCESS") (
        member "data"
          (object (
            member "token" (string "ADMIN_TOKEN_999999")
              (member "username" (string "Super Admin") no_members)))
          no_members)))

abbrev pub listed_user : ℕ → String → String → ℕ → Value
listed_user id username nickname status = object (
    member "id" (number (pos id)) (
      member "username" (string username)
        (member "nickname" (string nickname) (member "status" (number (pos status)) no_members))))

abbrev pub users : Value
users = object (
    member "code" (number (pos 0)) (
      member "msg" (string "SUCCESS") (
        member "data"
          (object (
            member "list"
              (array (
                value (listed_user 1001 "test_user" "Alice" 1)
                  (value (listed_user 2002 "bad_guy" "Spammer" 2) no_values)))
              (member "total" (number (pos 2)) no_members)))
          no_members)))

abbrev pub login_result : Text → Text → Value
login_result username password =
    if text_eq username (codes "admin") && text_eq password (codes "admin123")
    then granted
    else coded 401 "Invalid username or password"

module _ {J : Type 0} (json : JsonLibrary J) where
  abbrev pub text_at : J → String → Outcome Text
  text_at req name = then_read (json.get req name) json.as_string

  abbrev pub login_request : Option J → Outcome Value
  login_request none = returned invalid_format
  login_request (some req) = then_read (text_at req "username") λ username.
      then_read (text_at req "password") λ password. returned (login_result username password)

  -- The request that the body holds, handled, and its answer written.
  abbrev pub answer : (Option J → Outcome Value) → Text → Outcome Text
  answer handle body =
      then_read (json.parse_from_stream body)
        λ req. then_read (handle req) λ resp. returned (json.write_string resp)

  unfoldable pub login : Text → Outcome Text
  login = answer login_request

  unfoldable pub get_users : Outcome Text
  get_users = returned (json.write_string users)

  abbrev pub ban_request : Option J → Outcome Value
  ban_request none = returned invalid_format
  ban_request (some req) =
      then_read (json.get req "user_id")
        λ v. then_read (json.as_uint64 v) λ user_id. returned (coded 0 "User banned successfully")

  unfoldable pub ban_user : Text → Outcome Text
  ban_user = answer ban_request

  -- The words from the index on, of which `left` are left.
  unfoldable pub read_words : ℕ → ℕ → J → Outcome (List Text)
  read_words zero i words = returned []
  read_words (suc left) i words =
      let more = read_words left (i + 1) words in
      then_read (json.element words i) λ v.
        then_read (json.as_string v) λ word. then_read more λ new_words. returned (word ∷ new_words)

  abbrev pub config_request : Option J → Outcome Value
  config_request none = returned invalid_format
  config_request (some req) = then_read (json.get req "words") λ words.
      then_read (read_words (json.size words) 0 words)
        λ new_words. returned (coded 0 "Config updated globally")

  unfoldable pub update_config : Text → Outcome Text
  update_config = answer config_request

  unfoldable pub handle_route : Text → Text → Text → Outcome Text
  handle_route method path body =
      if text_eq method (codes "POST") && text_eq path (codes "/api/admin/login")
      then login body
      else if text_eq method (codes "GET") && text_eq path (codes "/api/admin/users")
      then get_users
      else if text_eq method (codes "POST") && text_eq path (codes "/api/admin/users/ban")
      then ban_user body
      else if text_eq method (codes "POST") && text_eq path (codes "/api/admin/config/words")
      then update_config body
      else returned []
