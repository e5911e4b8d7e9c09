-- ===== src/Admin/AdminServer/Requests.antt =====
-- What `HandleRequest` reads of a request that is written as HTTP writes it.
use imsystem.Prelude.{
  ◌+◌, true, some, [], ◌∷◌, ◌++◌, ◌≡◌, refl, sym, ap, ◌∙◌, append_assoc, length-append, length,
  take, drop, arith,
}
use imsystem.Prelude.Texts.{Text}
use imsystem.Common.Chars.{find_char, find_from, find_text}
use imsystem.Common.Chars.Finding.{
  lacks, find_char-append, find_from-append, take_whole, drop_whole, apart, find_text_first,
}
use imsystem.Common.Http.{blank_line}
use imsystem.Admin.AdminServer.{path_of, method_and_path, body_of, parse_request}

-- The method and the path, with the rest of the request line and the header lines, and the body
-- behind a blank line.
abbrev pub head_of : Text → Text → Text → Text
head_of method path rest = method ++ b' ' ∷ (path ++ b' ' ∷ rest)

abbrev pub request_of : Text → Text → Text → Text → Text
request_of method path rest body = head_of method path rest ++ (blank_line ++ body)

module _ (method path rest body : Text) (plain_method : lacks b' ' method ≡ true)
    (plain_path : lacks b' ' path ≡ true)
    (headers : apart blank_line (head_of method path rest) ≡ true) where
  abbrev after_path : Text
  after_path = rest ++ (blank_line ++ body)

  split_method : request_of method path rest body ≡ method ++ b' ' ∷ (path ++ b' ' ∷ after_path)
  split_method =
      append_assoc method (b' ' ∷ (path ++ b' ' ∷ rest)) (blank_line ++ body)
      ∙ ap (λ t. method ++ b' ' ∷ t) (append_assoc path (b' ' ∷ rest) (blank_line ++ body))

  split_path :
      request_of method path rest body ≡ (method ++ b' ' ∷ []) ++ (path ++ b' ' ∷ after_path)
  split_path = split_method ∙ sym (append_assoc method (b' ' ∷ []) (path ++ b' ' ∷ after_path))

  length-front : length method + 1 ≡ length (method ++ b' ' ∷ [])
  length-front = omega (arith, length-append method (b' ' ∷ []))

  method_end : find_char b' ' (request_of method path rest body) ≡ some (length method)
  method_end = rw split_method (find_char-append b' ' method _ plain_method)

  path_end :
      find_from b' ' (length method + 1) (request_of method path rest body)
      ≡ some (length method + 1 + length path)
  path_end = rw split_path (
      find_from-append b' ' (length method + 1) (method ++ b' ' ∷ []) path after_path length-front
        plain_path)

  path_read :
      path_of
        (request_of method path rest body)
        (length method)
        (some (length method + 1 + length path))
      ≡ path
  path_read =
      rw
        (
          split_path,
          drop_whole (method ++ b' ' ∷ []) (path ++ b' ' ∷ after_path) (length method + 1)
              length-front,
        )
        (take_whole path (b' ' ∷ after_path) _ (omega arith))

  method_read : take (length method) (request_of method path rest body) ≡ method
  method_read = rw split_method (take_whole method _ _ refl)

  read_head :
      method_and_path
        (request_of method path rest body)
        (find_char b' ' (request_of method path rest body))
      ≡ (method, path)
  read_head = rw (method_end, path_end, path_read, method_read) refl

  read_body :
      body_of
        (request_of method path rest body)
        (find_text blank_line (request_of method path rest body))
      ≡ body
  read_body = rw (find_text_first 13 (10 ∷ 13 ∷ 10 ∷ []) (head_of method path rest) body headers) (
      ap (drop (length (head_of method path rest) + 4))
        (sym (append_assoc (head_of method path rest) blank_line body))
      ∙ drop_whole (head_of method path rest ++ blank_line) body _
          (omega (arith, length-append (head_of method path rest) blank_line)))

  -- HandleRequest reads back the method, the path and the body of a request: the first two have no
  -- space, and no blank line starts before the one that ends the head.
  pub parse_request-request_of :
      parse_request (request_of method path rest body)
      ≡ record { method = method; path = path; body = body }
  unfolding parse_request
  parse_request-request_of = rw (read_head, read_body) refl
