-- ===== src/Admin/AdminServer.antt =====
-- admin/src/admin_server.h and admin_server.cpp. Asio calls the handlers one at a time for each
-- connection; a read delivers at most 4096 bytes, which the source takes for the whole request.
pub mod Requests
pub mod Responses
pub mod Statuses
pub mod Serving
use imsystem.Prelude.{
  ℕ, ◌+◌, ◌-◌, Bool, true, false, Option, none, some, [], ◌∷◌, ◌++◌, length, drop, is_empty,
  if◌then◌else◌,
}
use imsystem.Prelude.Texts.{Text, codes, text_eq}
use imsystem.Common.Chars.{find_char, find_from, find_text, substr}
use imsystem.Common.Chars.Numbers.{to_string}
use imsystem.Common.Effect.{Outcome, returned, thrown, Io, then_read}
use imsystem.Common.Http.{blank_line}
use imsystem.Admin.ApiHandler.{JsonLibrary, handle_route}

-- The members, and which handlers asio holds.
pub record HttpConnection : Type 0 where
  pub response_data : Text
  pub socket_is_open : Bool
  pub reading : Bool
  pub writing : Bool

abbrev pub new_connection : HttpConnection
new_connection = record {
  response_data = [];
  socket_is_open = true;
  reading = false;
  writing = false;
}

pub record Request : Type 0 where
  pub method : Text
  pub path : Text
  pub body : Text

abbrev pub path_of : Text → ℕ → Option ℕ → Text
path_of request_data method_end none = []
path_of request_data method_end (some path_end) =
    substr request_data (method_end + 1) (path_end - method_end - 1)

abbrev pub method_and_path : Text → Option ℕ → Text × Text
method_and_path request_data none = ([], [])
method_and_path request_data (some method_end) = (
  substr request_data 0 method_end,
  path_of request_data method_end (find_from b' ' (method_end + 1) request_data),
)

abbrev pub body_of : Text → Option ℕ → Text
body_of request_data none = []
body_of request_data (some body_pos) = drop (body_pos + 4) request_data

unfoldable pub parse_request : Text → Request
parse_request request_data =
    let (method, path) = method_and_path request_data (find_char b' ' request_data) in
    record {
      method = method;
      path = path;
      body = body_of request_data (find_text blank_line request_data);
    }

abbrev pub not_found : Text
not_found = codes "{\"code\": 404, \"msg\": \"Not Found\"}"

unfoldable pub response_text : ℕ → Text → Text
response_text status_code response_body =
    codes "HTTP/1.1 "
    ++ (to_string status_code
        ++ (codes
              " OK\r\nContent-Type: application/json; charset=utf-8\r\nAccess-Control-Allow-Origin: *\r\nAccess-Control-Allow-Methods: GET, POST, OPTIONS\r\nAccess-Control-Allow-Headers: Content-Type, Authorization\r\nContent-Length: "
            ++ (to_string (length response_body)
                ++ (codes "\r\nConnection: close\r\n\r\n" ++ response_body))))

abbrev pub do_read : HttpConnection → HttpConnection
do_read c = record c { reading = true }

abbrev pub do_write : HttpConnection → HttpConnection
do_write c = record c { writing = true }

abbrev pub start : HttpConnection → HttpConnection
start c = do_read c

-- The handler of a write, whatever its error code.
abbrev pub on_write : HttpConnection → HttpConnection
on_write c = record c { writing = false; socket_is_open = false }

abbrev pub status_and_body : Text → ℕ × Text
status_and_body response_body =
    if is_empty response_body then (404, not_found) else (200, response_body)

-- The response is written unless the route threw.
abbrev pub finish : HttpConnection → Outcome (ℕ × Text) → Outcome (Unit {0}) × HttpConnection
finish c (returned a) = (returned tt, do_write (record c { response_data = response_text a.0 a.1 }))
finish c (thrown e) = (thrown e, c)

module _ {J : Type 0} (json : JsonLibrary J) where
  abbrev pub route : Request → Outcome (ℕ × Text)
  route r =
      if text_eq r.method (codes "OPTIONS")
      then returned (204, [])
      else then_read (handle_route json r.method r.path r.body)
          λ response_body. returned (status_and_body response_body)

  unfoldable pub handle_request : Text → Io HttpConnection (Unit {0})
  handle_request request_data c = finish c (route (parse_request request_data))

  -- The handler of a read. After an error it does nothing, and the last reference to the connection
  -- goes with it, which closes the socket.
  unfoldable pub on_read : Bool → Text → Io HttpConnection (Unit {0})
  on_read failed request_data c =
      let c' = record c { reading = false } in
      if failed
      then (returned tt, record c' { socket_is_open = false })
      else handle_request request_data c'
