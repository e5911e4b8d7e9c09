-- ===== src/Admin/AdminServer/Serving/Throwing.antt =====
-- A request whose handler throws ends the process.
use imsystem.Prelude.{ℕ, true, false, some, ◌≡◌, refl, ◌∙◌, arith}
use imsystem.Prelude.Texts.{Text, codes, text_eq}
use imsystem.Common.Chars.Finding.{apart, lacks}
use imsystem.Common.Effect.{Exn, returned, thrown}
use imsystem.Admin.ApiHandler.{JsonLibrary, ban_user, handle_route}
use imsystem.Common.Http.{blank_line}
use imsystem.Admin.AdminServer.{HttpConnection, route, handle_request, on_read}
use imsystem.Admin.AdminServer.Requests.{head_of, request_of, parse_request-request_of}
use imsystem.Admin.AdminServer.Serving.{
  AdminServer, run_read, stop_server, Step, accepts, reads, writes, stops, Reach, here, next,
}

abbrev pub post : Text
post = codes "POST"

abbrev pub ban_path : Text
ban_path = codes "/api/admin/users/ban"

module _ {J : Type 0} (json : JsonLibrary J) where
  ban_route :
      (body : Text) (req v : J) (e : Exn)
      → json.parse_from_stream body ≡ returned (some req)
      → json.get req "user_id" ≡ returned v
      → json.as_uint64 v ≡ thrown e
      → route json (record { method = post; path = ban_path; body = body }) ≡ thrown e
  unfolding handle_route ban_user text_eq codes
  ban_route body req v e h1 h2 h3 = rw (h1, h2, h3) refl

  Step-ended :
      {s t : AdminServer}
      → Step json s t
      → s.terminated ≡ true
      → (t.terminated ≡ true) × (t.connections ≡ s.connections)
  unfolding stop_server
  Step-ended (accepts runs a failed) h = absurd (ground arith)
  Step-ended (reads runs i c at r failed request_data) h = absurd (ground arith)
  Step-ended (writes runs i c at w) h = absurd (ground arith)
  Step-ended stops h = (h, refl)

  ended :
      {s t : AdminServer}
      → s.terminated ≡ true
      → Reach json s t
      → (t.terminated ≡ true) × (t.connections ≡ s.connections)
  ended h here = (h, refl)
  ended h (next r step) = let (k, e) = ended h r in let (l, f) = Step-ended step k in (l, f ∙ e)

  run_read-ban :
      (rest body : Text) (req v : J) (e : Exn) (i : ℕ) (c : HttpConnection) (s : AdminServer)
      → apart blank_line (head_of post ban_path rest) ≡ true
      → json.parse_from_stream body ≡ returned (some req)
      → json.get req "user_id" ≡ returned v
      → json.as_uint64 v ≡ thrown e
      → run_read json false (request_of post ban_path rest body) i c s
        ≡ record s { terminated = true }
  unfolding run_read on_read handle_request codes lacks
  run_read-ban rest body req v e i c s h1 h2 h3 h4 =
      rw
        (
          parse_request-request_of post ban_path rest body refl refl h1,
          ban_route body req v e h2 h3 h4,
        )
        refl

  -- A request to ban a user, with a body that is JSON and a `user_id` on which `asUInt64` throws, as
  -- it does on a text, a negative number or an object, ends the process: no connection is served after it, also none of the others, by any sequence of steps.
  pub run_read-ban_terminates :
      (rest body : Text) (req v : J) (e : Exn) (i : ℕ) (c : HttpConnection) (s : AdminServer)
      → apart blank_line (head_of post ban_path rest) ≡ true
      → json.parse_from_stream body ≡ returned (some req)
      → json.get req "user_id" ≡ returned v
      → json.as_uint64 v ≡ thrown e
      → {t : AdminServer}
      → Reach json (run_read json false (request_of post ban_path rest body) i c s) t
      → (t.terminated ≡ true) × (t.connections ≡ s.connections)
  run_read-ban_terminates rest body req v e i c s h1 h2 h3 h4 =
      let done = run_read-ban rest body req v e i c s h1 h2 h3 h4 in rw done (ended refl)
