-- ===== src/Admin/AdminServer/Statuses.antt =====
-- Which status a request gets.
use imsystem.Prelude.{
  ℕ, Bool, true, false, not, ◌&&◌, ◌||◌, Option, [], ◌∷◌, ◌≡◌, inl, inr, refl, ◌∙◌, is_empty,
  Bool-cases, if◌then◌else◌, arith,
}
use imsystem.Prelude.Texts.{Text, codes, text_eq}
use imsystem.Common.Chars.Finding.{lacks, apart}
use imsystem.Common.Effect.{Outcome, returned, thrown, then_read}
use imsystem.Admin.ApiHandler.{
  JsonLibrary, Value, users, answer, login, login_request, ban_user, ban_request, get_users,
  update_config, config_request, handle_route,
}
use imsystem.Common.Http.{blank_line, status_read}
use imsystem.Admin.AdminServer.{
  HttpConnection, status_and_body, route, finish, handle_request, on_read,
}
use imsystem.Admin.AdminServer.Requests.{head_of, request_of, parse_request-request_of}
use imsystem.Admin.AdminServer.Responses.{response_text_readable}

-- The table of the routes.
abbrev pub known : Text → Text → Bool
known method path =
    (text_eq method (codes "POST") && text_eq path (codes "/api/admin/login"))
    || (text_eq method (codes "GET") && text_eq path (codes "/api/admin/users"))
    || (text_eq method (codes "POST") && text_eq path (codes "/api/admin/users/ban"))
    || (text_eq method (codes "POST") && text_eq path (codes "/api/admin/config/words"))

abbrev pub expected_status : Text → Text → ℕ
expected_status method path =
    if text_eq method (codes "OPTIONS") then 204 else if known method path then 200 else 404

-- A text was returned, which is empty as the Boolean says, or something was thrown.
abbrev Empties : Bool → Outcome Text → Type 0
Empties b (returned t) = is_empty t ≡ b
Empties b (thrown e) = Unit {0}

-- The status of the answer that was chosen, if nothing was thrown.
abbrev Chosen : ℕ → Outcome (ℕ × Text) → Type 0
Chosen status (returned a) = a.0 ≡ status
Chosen status (thrown e) = Unit {0}

chain-Empties :
    (a b c d : Bool) (r s t u : Outcome Text)
    → Empties false r
    → Empties false s
    → Empties false t
    → Empties false u
    → Empties
        (not (a || b || c || d))
        (if a then r else if b then s else if c then t else if d then u else returned [])
chain-Empties true b c d r s t u h1 h2 h3 h4 = h1
chain-Empties false true c d r s t u h1 h2 h3 h4 = h2
chain-Empties false false true d r s t u h1 h2 h3 h4 = h3
chain-Empties false false false true r s t u h1 h2 h3 h4 = h4
chain-Empties false false false false r s t u h1 h2 h3 h4 = refl

answered-Chosen :
    (k : Bool) (r : Outcome Text)
    → Empties (not k) r
    → Chosen (if k then 200 else 404) (then_read r λ t. returned (status_and_body t))
answered-Chosen true (returned []) h = absurd (ground arith)
answered-Chosen true (returned (x ∷ xs)) h = refl
answered-Chosen false (returned []) h = refl
answered-Chosen false (returned (x ∷ xs)) h = absurd (ground arith)
answered-Chosen k (thrown e) h = tt

finish-Chosen :
    (status : ℕ) (c : HttpConnection) (r : Outcome (ℕ × Text))
    → Chosen status r
    → (finish c r).0 ≡ returned tt
    → (status_read (finish c r).1.response_data ≡ status) × ((finish c r).1.writing ≡ true)
finish-Chosen status c (returned a) h k = ((response_text_readable a.0 a.1).0 ∙ h, refl)
finish-Chosen status c (thrown e) h k = absurd (ground arith)

module _ {J : Type 0} (json : JsonLibrary J)
    (writes : (v : Value) → is_empty (json.write_string v) ≡ false) where
  written-Empties :
      (r : Outcome Value) → Empties false (then_read r λ v. returned (json.write_string v))
  written-Empties (returned v) = writes v
  written-Empties (thrown e) = tt

  answer-Empties : (f : Option J → Outcome Value) (body : Text) → Empties false (answer json f body)
  answer-Empties f body = parsed (json.parse_from_stream body)
    where
      parsed :
          (o : Outcome (Option J))
          → Empties false (then_read o λ req. then_read (f req) λ v. returned (json.write_string v))
      parsed (returned req) = written-Empties (f req)
      parsed (thrown e) = tt

  route-Empties :
      (method path body : Text)
      → Empties (not (known method path)) (handle_route json method path body)
  unfolding handle_route login get_users ban_user update_config
  route-Empties method path body =
      chain-Empties _ _ _ _ (login json body) (get_users json) (ban_user json body)
        (update_config json body) (answer-Empties (login_request json) body) (writes users)
        (answer-Empties (ban_request json) body) (answer-Empties (config_request json) body)

  route-Chosen :
      (method path body : Text)
      → Chosen
          (expected_status method path)
          (route json (record { method = method; path = path; body = body }))
  route-Chosen method path body = elim (Bool-cases (text_eq method (codes "OPTIONS"))) [
    | inl e ↦ rw e refl
    | inr e ↦ rw e (
        answered-Chosen (known method path) (handle_route json method path body)
          (route-Empties method path body))
  ]

  -- Where jsoncpp writes no value as the empty text: a request whose handler returns is answered
  -- with the status 204 if its method is OPTIONS, else 200 if its method and path are in the table
  -- of the routes, else 404; the request has no space in its method and its path, and no blank line
  -- before the one that ends the head.
  pub on_read-status :
      (method path rest body : Text) (c : HttpConnection)
      → lacks b' ' method ≡ true
      → lacks b' ' path ≡ true
      → apart blank_line (head_of method path rest) ≡ true
      → (on_read json false (request_of method path rest body) c).0 ≡ returned tt
      → (status_read (on_read json false (request_of method path rest body) c).1.response_data
          ≡ expected_status method path)
        × ((on_read json false (request_of method path rest body) c).1.writing ≡ true)
  unfolding on_read handle_request
  on_read-status method path rest body c h1 h2 h3 k =
      let parsed = parse_request-request_of method path rest body h1 h2 h3 in
      rw parsed (
        finish-Chosen (expected_status method path) (record c { reading = false }) _
          (route-Chosen method path body) (rw parsed at k))
