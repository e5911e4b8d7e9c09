-- ===== src/Common/Http.antt =====
-- Responses of HTTP/1.1, and what a client reads of one.
use imsystem.Prelude.{
  ℕ, ◌+◌, Option, true, false, some, none, [], ◌∷◌, ◌++◌, ◌≡◌, refl, ap, ◌∙◌, append_assoc,
  length-append, length, drop, arith,
}
use imsystem.Prelude.Texts.{Text, codes}
use imsystem.Common.Chars.{find_text, is_digit}
use imsystem.Common.Chars.Decimal.{read_digits-to_string-append, lacks-to_string}
use imsystem.Common.Chars.Finding.{
  lacks-apart, apart, find_text-append, find_text_first, drop_whole, drop-append,
}
use imsystem.Common.Chars.Numbers.{to_string, read_digits}

abbrev pub blank_line : Text
blank_line = 13 ∷ 10 ∷ 13 ∷ 10 ∷ []

-- The number behind the protocol.
abbrev pub status_read : Text → ℕ
status_read text = read_digits 0 (drop 9 text)

abbrev pub number_behind : Text → ℕ → Option ℕ → Option ℕ
number_behind text n none = none
number_behind text n (some i) = some (read_digits 0 (drop (i + n) text))

abbrev pub length_name : Text
length_name = codes "Content-Length: "

-- The number behind the first `Content-Length: `.
abbrev pub length_read : Text → Option ℕ
length_read text = number_behind text (length length_name) (find_text length_name text)

abbrev text_behind : Text → Option ℕ → Text
text_behind text none = []
text_behind text (some i) = drop (i + 4) text

-- What stands behind the first blank line.
abbrev pub body_read : Text → Text
body_read text = text_behind text (find_text blank_line text)

-- The pieces of a response around its two numbers and its body.
abbrev before_status : Text
before_status = codes "HTTP/1.1 "

abbrev before_blank : Text
before_blank = codes "\r\nConnection: close"

other_bytes : (is_digit b' ' ≡ false) × (is_digit b'C' ≡ false) × (is_digit 13 ≡ false)
unfolding is_digit
other_bytes = (refl, refl, refl)

digits-apart : (n : ℕ) → apart blank_line (to_string n) ≡ true
digits-apart n =
    lacks-apart 13 (10 ∷ 13 ∷ 10 ∷ []) (to_string n) (lacks-to_string 13 n other_bytes.2)

module _ (middle : Text) (status : ℕ) (body : Text) where
  abbrev before_name : Text
  before_name = codes " OK\r\n" ++ middle

  abbrev headers : Text
  headers = before_name ++ length_name

  abbrev after_length : Text
  after_length = before_blank ++ (blank_line ++ body)

  abbrev after_name : Text
  after_name = to_string (length body) ++ after_length

  abbrev after_status : Text
  after_status = headers ++ after_name

  -- A response with its status, its other headers and its body.
  abbrev pub framed : Text
  framed = before_status ++ (to_string status ++ after_status)

  module _ (name_apart : apart length_name before_name ≡ true)
      (blank_apart : apart blank_line headers ≡ true) where
    status_lem : status_read framed ≡ status
    unfolding codes
    status_lem = read_digits-to_string-append status 32 _ other_bytes.0

    find_name : find_text length_name after_status ≡ some (length before_name)
    unfolding codes
    find_name =
        rw (append_assoc before_name length_name after_name)
          (find_text_first b'C' _ before_name after_name name_apart)

    find_status :
        find_text length_name (to_string status ++ after_status)
        ≡ some (length (to_string status) + length before_name)
    unfolding codes
    find_status =
        find_text-append length_name (to_string status) after_status (length before_name)
          (lacks-apart b'C' (codes "ontent-Length: ") (to_string status)
            (lacks-to_string b'C' status other_bytes.1))
          find_name

    find_length :
        find_text length_name framed
        ≡ some (length before_status + (length (to_string status) + length before_name))
    unfolding codes
    find_length =
        find_text-append length_name before_status (to_string status ++ after_status) _ refl
          find_status

    drop-headers :
        (n : ℕ)
        → drop (length before_status + (length (to_string status) + (length headers + n))) framed
          ≡ drop n after_name
    drop-headers n =
        drop-append before_status _ _
        ∙ drop-append (to_string status) after_status _
        ∙ drop-append headers after_name n

    length_lem : length_read framed ≡ some (length body)
    unfolding codes
    length_lem = rw find_length (
        ap some (
          ap (λ k. read_digits 0 (drop k framed))
            {y = length before_status + (length (to_string status) + (length headers + 0))}
            (omega (arith, length-append before_name length_name))
          ∙ ap (read_digits 0) (drop-headers 0)
          ∙ read_digits-to_string-append (length body) 13 _ other_bytes.2))

    find_body :
        find_text blank_line framed
        ≡ some (
            length before_status
            + (length (to_string status)
                + (length headers + (length (to_string (length body)) + length before_blank))))
    unfolding codes
    find_body = find_text-append blank_line before_status _ _ refl (
        find_text-append blank_line (to_string status) after_status _ (digits-apart status) (
          find_text-append blank_line headers after_name _ blank_apart (
            find_text-append blank_line (to_string (length body)) after_length _
              (digits-apart (length body))
              (find_text_first 13 (10 ∷ 13 ∷ 10 ∷ []) before_blank body refl))))

    body_lem : body_read framed ≡ body
    unfolding codes
    body_lem = rw find_body (
        ap (λ k. drop k framed)
          {y = length before_status
            + (length (to_string status)
                + (length headers
                    + (length (to_string (length body)) + (length before_blank + 4))))}
          (omega arith)
        ∙ drop-headers (length (to_string (length body)) + (length before_blank + 4))
        ∙ drop-append (to_string (length body)) after_length (length before_blank + 4)
        ∙ drop_whole (before_blank ++ blank_line) body (length before_blank + 4) refl)

    pub framed_readable :
        (status_read framed ≡ status)
        × (length_read framed ≡ some (length body))
        × (body_read framed ≡ body)
    framed_readable = (status_lem, length_lem, body_lem)
