-- ===== src/Admin/Examples.antt =====
-- The admin service at concrete inputs.
use imsystem.Prelude.{true, false, some, [], ◌≡◌, refl}
use imsystem.Prelude.Int.{pos}
use imsystem.Prelude.Texts.{Text, codes, text_eq}
use imsystem.Common.Chars.{find_char, find_from}
use imsystem.Common.Chars.Finding.{lacks}
use imsystem.Common.Effect.{other_exception, returned, thrown}
use imsystem.Admin.ApiHandler.{JsonLibrary, handle_route, get_users}
use imsystem.Admin.AdminServer.{
  HttpConnection, new_connection, parse_request, handle_request, on_read,
}
use imsystem.Admin.AdminServer.Requests.{request_of, parse_request-request_of}
use imsystem.Common.Http.{status_read}
use imsystem.Admin.AdminServer.Statuses.{on_read-status}
use imsystem.Admin.AdminServer.Serving.{
  AdminServer, new_server, start_server, on_accept, run_read, accepts, Reach, here, next,
}
use imsystem.Admin.AdminServer.Serving.Phases.{Serves, Reach-Serves}
use imsystem.Admin.AdminServer.Serving.Throwing.{post, ban_path, run_read-ban_terminates}

-- A library that reads every text as the same object, whose members are texts.
abbrev json : JsonLibrary (Unit {0})
json = record {
  parse_from_stream = λ s. returned (some tt);
  get = λ v name. returned tt;
  element = λ v i. returned tt;
  size = λ v. 0;
  as_string = λ v. returned (codes "a");
  as_uint64 = λ v. thrown other_exception;
  write_string = λ v. codes "{}";
}

abbrev rest : Text
rest = codes "HTTP/1.1\r\nHost: localhost"

parse_request-request_of_example :
    parse_request (request_of post ban_path rest (codes "{\"user_id\": 7}"))
    ≡ record { method = post; path = ban_path; body = codes "{\"user_id\": 7}" }
unfolding codes lacks
parse_request-request_of_example =
    parse_request-request_of post ban_path rest (codes "{\"user_id\": 7}") refl refl refl

abbrev get : Text
get = codes "GET"

abbrev listed : HttpConnection
listed = (on_read json false (request_of get (codes "/api/admin/users") rest []) new_connection).1

on_read-status_example : (status_read listed.response_data ≡ 200) × (listed.writing ≡ true)
unfolding codes lacks on_read handle_request handle_route get_users text_eq parse_request find_char
    find_from
on_read-status_example =
    on_read-status json (λ v. refl) get (codes "/api/admin/users") rest [] new_connection refl refl
      refl refl

abbrev started : AdminServer
started = start_server (new_server (pos 4))

accepted : Reach json started (on_accept false started)
unfolding start_server
accepted = next here (accepts (refl, refl) refl false)

Reach-Serves_example : Serves json (on_accept false started)
Reach-Serves_example = Reach-Serves json (pos 4) accepted

abbrev ended : AdminServer
ended = run_read json false (request_of post ban_path rest (codes "{}")) 0 new_connection started

run_read-ban_terminates_example :
    (ended.terminated ≡ true) × (ended.connections ≡ started.connections)
unfolding codes
run_read-ban_terminates_example =
    run_read-ban_terminates json rest (codes "{}") tt tt other_exception 0 new_connection started
      refl refl refl refl here
