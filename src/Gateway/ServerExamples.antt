-- ===== src/Gateway/ServerExamples.antt =====
-- The gateway's servers and settings at concrete inputs.
use imsystem.Prelude.{ℕ, ◌+◌, true, false, some, [], ◌∷◌, refl, arith}
use imsystem.Prelude.Int.{pos}
use imsystem.Prelude.Texts.{Text, codes, text_eq}
use imsystem.Common.Chars.Numbers.{stoi}
use imsystem.Common.Config.{ConfigMap, get_int, lookup}
use imsystem.Common.Effect.{std_exception, returned, thrown, Io}
use imsystem.Logic.Processor.{bad_status}
use imsystem.Gateway.TcpConnection.{
  Connection, Json, Surroundings, new_connection, contains, on_read, parse_and_route_message,
}
use imsystem.Gateway.GatewayServer.{
  GatewayServer, new_server, run, leave, on_tcp_accept, run_read, here,
}
use imsystem.Gateway.GatewayServer.Accepting.{Closed, on_tcp_accept-gone}
use imsystem.Gateway.GatewayServer.Starving.{
  Starves, BadCommand, BadReads, no_read, bad, BadReads-Starves,
}
use imsystem.Gateway.Settings.{as_port, Residue, Threads, read_settings, read_settings_bounds}

-- A library in whose objects every member is an array.
abbrev json : Json (Unit {0})
json = record {
  parse = λ s. returned (some tt);
  is_member = λ v name. returned true;
  get = λ v name. returned tt;
  as_string = λ v. thrown (std_exception []);
  as_uint64 = λ v. returned 7;
  as_int = λ v. returned (pos 1);
  write_result = λ code msg seq_id. seq_id;
}

abbrev host : Surroundings ℕ (Unit {0})
host = record {
  json = json;
  clock = λ w. (pos w, w + 1);
  sleep = λ n w. w;
  send_message = λ req w. (bad_status [], w);
}

abbrev vanished : Io ℕ Text
vanished w = (thrown (std_exception []), w)

abbrev listening : Connection
listening = record (new_connection (pos 0)) { reading = true }

abbrev one_thread : GatewayServer
one_thread = record (run (new_server 1)) { connections = listening ∷ [] }

abbrev bad_frame : Text
bad_frame = codes "{\"cmd\": [], \"payload\": 0}"

bad_frame-BadCommand : BadCommand host vanished bad_frame [] tt tt
unfolding codes contains
bad_frame-BadCommand = record {
  no_ping = refl;
  parses = refl;
  has_cmd = refl;
  has_payload = refl;
  gets = refl;
  throws = refl;
}

abbrev two_threads : GatewayServer
two_threads = record (run (new_server 2)) { connections = listening ∷ listening ∷ [] }

abbrev after_one : GatewayServer × ℕ
after_one = run_read host vanished 0 bad_frame listening (two_threads, 5)

abbrev after_two : GatewayServer × ℕ
after_two = run_read host vanished 1 bad_frame listening after_one

two_BadReads : BadReads host vanished (two_threads, 5) 2 after_two
unfolding run run_read on_read parse_and_route_message contains codes leave
two_BadReads =
    bad
      (bad no_read (omega arith, refl) 0 listening refl refl bad_frame [] tt tt
        bad_frame-BadCommand)
      (omega arith, refl) 1 listening refl refl bad_frame [] tt tt bad_frame-BadCommand

BadReads-Starves_example : Starves host vanished after_two.0 after_two.0
unfolding run
BadReads-Starves_example = BadReads-Starves host vanished two_BadReads here

on_tcp_accept-gone_example : Closed 1 (on_tcp_accept host vanished false (one_thread, 5)).0
on_tcp_accept-gone_example =
    on_tcp_accept-gone host vanished one_thread 5 (std_exception []) refl here

abbrev settings : ConfigMap
settings = (codes "server.tcp_port", codes "40000") ∷ []

read_settings_bounds_example :
    Residue (pos 40000) (as_port (read_settings settings 8).tcp_port)
    × Residue (pos 8080) (as_port (read_settings settings 8).http_port)
    × Threads (pos 0) 8 (read_settings settings 8).threads
unfolding get_int lookup text_eq codes stoi
read_settings_bounds_example = read_settings_bounds settings 8
