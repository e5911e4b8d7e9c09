-- ===== src/Common/MongoPool/Redacting.antt =====
-- What the log shows of a URI with a password.
use imsystem.Prelude.{
  ℕ, ◌+◌, ◌-◌, true, some, [], ◌∷◌, ◌++◌, ◌≡◌, refl, sym, ap, ◌∙◌, append_assoc, length-append,
  lt→ltb, length, take, drop, arith,
}
use imsystem.Prelude.Texts.{Text, codes}
use imsystem.Common.Chars.{find_char, starts_with, find_from, beyond}
use imsystem.Common.Chars.Finding.{lacks, find_char-append, lacks-append, take_whole, drop_whole}
use imsystem.Common.MongoPool.{scheme, replaced, redact_mongo_uri_for_log}

-- A URI of the scheme with a user, a password and a host.
abbrev pub uri_of : Text → Text → Text → Text
uri_of user secret host = scheme ++ (user ++ b':' ∷ (secret ++ b'@' ∷ host))

abbrev front : Text → Text
front user = scheme ++ (user ++ b':' ∷ [])

split_front :
    (user secret host : Text) → uri_of user secret host ≡ front user ++ (secret ++ b'@' ∷ host)
split_front user secret host =
    ap (λ r. scheme ++ r) (sym (append_assoc user (b':' ∷ []) (secret ++ b'@' ∷ host)))
    ∙ sym (append_assoc scheme (user ++ b':' ∷ []) (secret ++ b'@' ∷ host))

length-front : (user : Text) → length (front user) ≡ length scheme + length user + 1
length-front user =
    omega (arith, length-append scheme (user ++ b':' ∷ []), length-append user (b':' ∷ []))

module _ (user secret host : Text) (plain_user : lacks b':' user ≡ true)
    (no_at_user : lacks b'@' user ≡ true) (no_at : lacks b'@' secret ≡ true) where
  split_at : uri_of user secret host ≡ (front user ++ secret) ++ b'@' ∷ host
  split_at = split_front user secret host ∙ sym (append_assoc (front user) secret (b'@' ∷ host))

  at : find_char b'@' (uri_of user secret host) ≡ some (length (front user ++ secret))
  unfolding lacks codes
  at =
      ap (find_char b'@') split_at
      ∙ find_char-append b'@' (front user ++ secret) host (
          lacks-append b'@' (front user) secret
            (lacks-append b'@' scheme (user ++ b':' ∷ []) refl
              (lacks-append b'@' user (b':' ∷ []) no_at_user refl))
            no_at)

  colon :
      find_from b':' (length scheme) (uri_of user secret host) ≡ some (length scheme + length user)
  unfolding find_from codes
  colon = ap (beyond 10) (find_char-append b':' user (secret ++ b'@' ∷ host) plain_user)

  is_scheme : starts_with (uri_of user secret host) scheme ≡ true
  unfolding starts_with codes
  is_scheme = refl

  replaced_secret :
      replaced
        (uri_of user secret host)
        (some (length (front user ++ secret)))
        (some (length scheme + length user))
      ≡ uri_of user (codes "***") host
  replaced_secret =
      let n : length (front user ++ secret) ≡ length scheme + length user + 1 + length secret =
        omega (arith, length-front user, length-append (front user) secret) in
      let kept : take (length scheme + length user + 1) (uri_of user secret host) ≡ front user =
        ap (take (length scheme + length user + 1)) (split_front user secret host)
        ∙ take_whole (front user) (secret ++ b'@' ∷ host) _ (sym (length-front user)) in
      let behind : (k : ℕ)
          → k ≡ length (front user ++ secret)
          → drop k (uri_of user secret host) ≡ b'@' ∷ host =
        λ k e. ap (drop k) split_at ∙ drop_whole (front user ++ secret) (b'@' ∷ host) k e in
      rw
        (
          lt→ltb (length scheme + length user) (length (front user ++ secret)) (omega arith),
          kept,
          behind
              (length scheme
                + length user
                + 1
                + (length (front user ++ secret) - (length scheme + length user) - 1))
              (omega arith),
        )
        (sym (split_front user (codes "***") host))

  -- The password of a URI with a user name does not reach the log: it is replaced by three stars,
  -- if it contains no @ and the user name neither @ nor a colon.
  pub redact_mongo_uri_for_log-secret :
      redact_mongo_uri_for_log (uri_of user secret host) ≡ uri_of user (codes "***") host
  unfolding redact_mongo_uri_for_log
  redact_mongo_uri_for_log-secret = rw (is_scheme, at, colon) replaced_secret
