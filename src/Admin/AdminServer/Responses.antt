-- ===== src/Admin/AdminServer/Responses.antt =====
-- What an HTTP client reads of a response of the admin server.
use imsystem.Prelude.{ℕ, ◌≡◌, refl, some, length}
use imsystem.Prelude.Texts.{Text, codes}
use imsystem.Common.Http.{status_read, length_read, body_read, framed_readable}
use imsystem.Admin.AdminServer.{response_text}

abbrev headers : Text
headers =
    codes
      "Content-Type: application/json; charset=utf-8\r\nAccess-Control-Allow-Origin: *\r\nAccess-Control-Allow-Methods: GET, POST, OPTIONS\r\nAccess-Control-Allow-Headers: Content-Type, Authorization\r\n"

-- An HTTP client reads back of a response the status, the length of its body as its content length,
-- and the body.
pub response_text_readable :
    (status : ℕ) (body : Text)
    → (status_read (response_text status body) ≡ status)
      × (length_read (response_text status body) ≡ some (length body))
      × (body_read (response_text status body) ≡ body)
unfolding response_text codes
response_text_readable status body = framed_readable headers status body refl refl
