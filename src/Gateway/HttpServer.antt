-- ===== src/Gateway/HttpServer.antt =====
-- `HttpConnection` of gateway/src/http_server.h and http_server.cpp: the health check.
use imsystem.Prelude.{true, false, Bool, ◌++◌, ◌≡◌, refl, some, length, if◌then◌else◌}
use imsystem.Prelude.Texts.{Text, codes}
use imsystem.Common.Chars.Numbers.{to_string}
use imsystem.Common.Http.{status_read, length_read, body_read, framed_readable}

-- The member, whether the socket was shut down or closed, and which handlers asio holds.
pub record HttpConnection : Type 0 where
  pub response_data : Text
  pub shut_down : Bool
  pub reading : Bool
  pub writing : Bool

abbrev pub new_connection : HttpConnection
new_connection = record {
  response_data = codes "";
  shut_down = false;
  reading = false;
  writing = false;
}

abbrev pub do_read : HttpConnection → HttpConnection
do_read c = record c { reading = true }

abbrev pub start : HttpConnection → HttpConnection
start c = do_read c

abbrev pub do_write : HttpConnection → HttpConnection
do_write c = record c { writing = true }

unfoldable pub response_text : Text → Text
response_text body =
    codes "HTTP/1.1 200 OK\r\nContent-Type: application/json\r\nContent-Length: "
    ++ (to_string (length body) ++ (codes "\r\nConnection: close\r\n\r\n" ++ body))

-- The body is what jsoncpp writes for the object with the members `status` and `service`.
unfoldable pub handle_request : Text → Text → HttpConnection → HttpConnection
handle_request body request_data c = do_write (record c { response_data = response_text body })

-- The handler of a read. After an error it does nothing, and the last reference to the connection
-- goes with it, which closes the socket.
unfoldable pub on_read : Text → Bool → Text → HttpConnection → HttpConnection
unfolding handle_request
on_read body failed request_data c =
    let c' = record c { reading = false } in
    if failed then record c' { shut_down = true } else handle_request body request_data c'

-- The handler of a write, whatever its error code.
unfoldable pub on_write : HttpConnection → HttpConnection
on_write c = record c { writing = false; shut_down = true }

abbrev content_type : Text
content_type = codes "Content-Type: application/json\r\n"

-- Whatever is read, an HTTP client reads back of the response the status 200, the length of the body
-- as its content length, and the body.
pub on_read_readable :
    (body request_data : Text) (c : HttpConnection)
    → (status_read (on_read body false request_data c).response_data ≡ 200)
      × (length_read (on_read body false request_data c).response_data ≡ some (length body))
      × (body_read (on_read body false request_data c).response_data ≡ body)
unfolding on_read response_text codes to_string
on_read_readable body request_data c = framed_readable content_type 200 body refl refl
