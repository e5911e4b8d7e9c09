-- ===== src/Gateway/Examples.antt =====
-- The gateway's connections at concrete inputs.
use imsystem.Prelude.{ℕ, ◌+◌, true, false, some, ◌++◌, ◌≡◌, refl}
use imsystem.Prelude.Int.{pos}
use imsystem.Prelude.Texts.{codes}
use imsystem.Common.Effect.{returned}
use imsystem.Logic.Processor.{bad_status}
use imsystem.Gateway.TcpConnection.{
  Connection, Json, Surroundings, new_connection, start, check_heartbeat, on_read, on_timer,
}
use imsystem.Gateway.TcpConnection.Effects.{After, sends}
use imsystem.Gateway.TcpConnection.Answers.{on_read-answers}
use imsystem.Gateway.TcpConnection.Ping.{on_read-ping}
use imsystem.Gateway.TcpConnection.Running.{Reach, here, next, timer, IsAlive, Reach-IsAlive}

-- A library that reads every text as the same object.
abbrev json : Json (Unit {0})
json = record {
  parse = λ s. returned (some tt);
  is_member = λ v name. returned true;
  get = λ v name. returned tt;
  as_string = λ v. returned (codes "send_msg");
  as_uint64 = λ v. returned 7;
  as_int = λ v. returned (pos 1);
  write_result = λ code msg seq_id. seq_id;
}

-- A clock that goes on by 20 seconds, and a logic service that is down.
abbrev host : Surroundings ℕ (Unit {0})
host = record {
  json = json;
  clock = λ w. (pos w, w + 20);
  sleep = λ n w. w;
  send_message = λ req w. (bad_status (codes "down"), w);
}

abbrev begun : Connection × ℕ
begun = start host (new_connection (pos 0), 0)

on_read-answers_example :
    After
      (sends false 1 (on_read host (codes "{}") (new_connection (pos 0), 5)).0)
      (new_connection (pos 0), 5)
      (on_read host (codes "{}") (new_connection (pos 0), 5)).1
on_read-answers_example = on_read-answers host (codes "{}") (new_connection (pos 0), 5)

checked : Reach host begun (on_timer host false begun)
unfolding start check_heartbeat
checked = next here (timer refl)

Reach-IsAlive_example : IsAlive host (on_timer host false begun).0
Reach-IsAlive_example = Reach-IsAlive host (pos 0) 0 checked

abbrev ended : Connection × ℕ
ended = (
  record (new_connection (pos 0)) { is_stopped = true; socket_is_open = false; waiting = true },
  0,
)

ended_checked : Reach host ended (on_timer host false ended)
ended_checked = next here (timer refl)

on_read-ping_example :
    on_read host (codes "say " ++ (codes "PING" ++ codes " to me")) (new_connection (pos 0), 5) ≡ (
      returned tt,
      (
        record (new_connection (pos 0)) {
          last_active_time = pos 5;
          write_msg = codes "PONG\n";
          reading = true;
          writing = 1;
        },
        25,
      ),
    )
on_read-ping_example =
    on_read-ping host (codes "say ") (codes " to me") (new_connection (pos 0)) 5 refl
