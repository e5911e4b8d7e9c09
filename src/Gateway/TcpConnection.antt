-- ===== src/Gateway/TcpConnection.antt =====
-- `TcpConnection` of gateway/src/tcp_server.h and tcp_server.cpp. Each handler is one step, although
-- two handlers of a connection may run on two threads at once: what they interleave is not modelled.
-- jsoncpp and the logic service are parameters.
pub mod Effects
pub mod Answers
pub mod Running
pub mod Ping
use imsystem.Prelude.{
  ℕ, ◌+◌, ◌-◌, Bool, true, false, not, ◌||◌, Option, none, some, List, [], ◌∷◌, ◌++◌, String,
  if◌then◌else◌,
}
use imsystem.Prelude.Int.{ℤ, pos, ltb_ℤ, ◌-ℤ◌}
use imsystem.Prelude.Texts.{Text, codes, text_eq}
use imsystem.Common.Chars.{starts_with}
use imsystem.Common.Effect.{std_exception, Outcome, returned, thrown, Io, pure, throw, ◌>>=◌, ◌>>◌}
use imsystem.Common.Retry.{execute_with_retry_void}
use imsystem.Common.Sql.{modify, beside}
use imsystem.Logic.Processor.{SendMsgReq, SendMsgResp, Reply, bad_status, response}

-- The members, and which handlers asio holds: of a read, of the timer, and of how many writes.
pub record Connection : Type 0 where
  pub is_stopped : Bool
  pub socket_is_open : Bool
  pub last_active_time : ℤ
  pub write_msg : Text
  pub reading : Bool
  pub waiting : Bool
  pub writing : ℕ

abbrev pub heartbeat_timeout_sec : ℤ
heartbeat_timeout_sec = pos 30

-- `socket_.close` and the cancelled timer, whose handler asio still calls, with an error.
unfoldable pub stop : Connection → Connection
stop c = if c.is_stopped then c else record c { is_stopped = true; socket_is_open = false }

abbrev pub do_read : Connection → Connection
do_read c = record c { reading = true }

abbrev pub do_write : Connection → Connection
do_write c = record c { writing = c.writing + 1 }

unfoldable pub send : Text → Connection → Connection
send msg c = if c.is_stopped then c else do_write (record c { write_msg = msg })

unfoldable pub check_heartbeat : Connection → Connection
check_heartbeat c = if c.is_stopped then c else record c { waiting = true }

-- The handler of a write.
unfoldable pub on_write : Bool → Connection → Connection
unfolding stop
on_write failed c = let c' = record c { writing = c.writing - 1 } in if failed then stop c' else c'

-- `raw_msg.find(word) != npos`
unfoldable pub contains : Text → Text → Bool
unfolding starts_with
contains [] word = starts_with [] word
contains (b ∷ s) word = starts_with (b ∷ s) word || contains s word

-- jsoncpp, whose accessors throw on a value of the wrong kind.
pub record Json (J : Type 0) : Type 0 where
  pub parse : Text → Outcome (Option J)
  pub is_member : J → String → Outcome Bool
  pub get : J → String → Outcome J
  pub as_string : J → Outcome Text
  pub as_uint64 : J → Outcome ℕ
  pub as_int : J → Outcome ℤ
  -- The object with the members code, msg and seq_id, on one line.
  pub write_result : ℤ → Text → Text → Text

pub record Surroundings (W J : Type 0) : Type 0 where
  pub json : Json J
  -- The time in seconds.
  pub clock : W → ℤ × W
  pub sleep : ℕ → W → W
  -- A call of the logic service on a new channel.
  pub send_message : SendMsgReq → W → Reply SendMsgResp × W

abbrev pub invalid_json : Text
invalid_json = codes "{\"code\": 400, \"msg\": \"Invalid JSON protocol\"}\n"

abbrev pub missing_field : Text
missing_field = codes "{\"code\": 400, \"msg\": \"Missing cmd or payload field\"}\n"

abbrev pub unknown_command : Text
unknown_command = codes "{\"code\": 404, \"msg\": \"Unknown command\"}\n"

module _ {W J : Type 0} (host : Surroundings W J) where
  -- Code that runs in a handler: the connection stands beside the world.
  abbrev pub Run : Type 0 → Type 0
  Run A = Io (Connection × W) A

  abbrev pub lift : {A : Type 0} → Outcome A → Run A
  lift o s = (o, s)

  abbrev pub call : SendMsgReq → Run (Reply SendMsgResp)
  call req (c, w) = let (r, w') = host.send_message req w in (returned r, (c, w'))

  abbrev pub text_field : J → String → Run Text
  text_field payload name = do v ← lift (host.json.get payload name); lift (host.json.as_string v)

  abbrev pub uint64_field : J → String → Run ℕ
  uint64_field payload name = do v ← lift (host.json.get payload name); lift (host.json.as_uint64 v)

  abbrev pub int_field : J → String → Run ℤ
  int_field payload name = do v ← lift (host.json.get payload name); lift (host.json.as_int v)

  abbrev pub read_request : J → Run SendMsgReq
  read_request payload = do
    msg_id ← text_field payload "msg_id"
    sender_id ← uint64_field payload "sender_id"
    receiver_id ← uint64_field payload "receiver_id"
    session_type ← int_field payload "session_type"
    msg_type ← int_field payload "msg_type"
    content ← text_field payload "content"
    pure (record {
      msg_id = msg_id;
      sender_id = sender_id;
      receiver_id = receiver_id;
      session_type = session_type;
      msg_type = msg_type;
      content = content;
    })

  unfoldable pub answer : Reply SendMsgResp → Run (Unit {0})
  answer (bad_status e) = throw (std_exception (codes "gRPC Error: " ++ e))
  answer (response r) = modify (send (host.json.write_result r.code r.msg r.seq_id ++ 10 ∷ []))

  -- One attempt of the retried function.
  unfoldable pub forward_attempt : J → Run (Unit {0})
  unfolding answer
  forward_attempt payload = do req ← read_request payload; reply ← call req; answer reply

  unfoldable pub forward_to_logic_service : J → Run (Unit {0})
  forward_to_logic_service payload =
      execute_with_retry_void (λ n (c, w). (c, host.sleep n w)) (pos 3) 500
        (forward_attempt payload)

  abbrev pub route_command : J → Text → Run (Unit {0})
  route_command payload cmd =
      if text_eq cmd (codes "send_msg")
      then forward_to_logic_service payload
      else modify (send unknown_command)

  -- `!root.isMember("cmd") || !root.isMember("payload")`
  abbrev pub has_fields : J → Run Bool
  has_fields root = do
    cmd ← lift (host.json.is_member root "cmd")
    (if cmd then lift (host.json.is_member root "payload") else pure false)

  abbrev pub route_fields : J → Bool → Run (Unit {0})
  route_fields root false = modify (send missing_field)
  route_fields root true = do
    v ← lift (host.json.get root "cmd")
    cmd ← lift (host.json.as_string v)
    payload ← lift (host.json.get root "payload")
    route_command payload cmd

  abbrev pub route_json : Option J → Run (Unit {0})
  route_json none = modify (send invalid_json)
  route_json (some root) = has_fields root >>= route_fields root

  unfoldable pub parse_and_route_message : Text → Run (Unit {0})
  parse_and_route_message raw_msg =
      if contains raw_msg (codes "PING")
      then modify (send (codes "PONG\n"))
      else lift (host.json.parse raw_msg) >>= route_json

  abbrev pub touch : Run (Unit {0})
  touch (c, w) =
      let (now, w') = host.clock w in (returned tt, (record c { last_active_time = now }, w'))

  -- The handler of a read that succeeded: what is thrown leaves it.
  unfoldable pub on_read : Text → Run (Unit {0})
  on_read msg (c, w) =
      (touch >>= λ _. parse_and_route_message msg >>= λ _. modify do_read)
        (record c { reading = false }, w)

  -- The handler of a read that failed.
  unfoldable pub on_read_error : Connection → Connection
  unfolding stop
  on_read_error c = stop (record c { reading = false })

  -- The handler of the timer; `cancelled` is an error code.
  unfoldable pub on_timer : Bool → Connection × W → Connection × W
  on_timer cancelled (c, w) =
      let c' = record c { waiting = false } in
      if cancelled || c.is_stopped
      then (c', w)
      else (let (now, w') = host.clock w in
          if ltb_ℤ heartbeat_timeout_sec (now -ℤ c.last_active_time)
          then (stop c', w')
          else (check_heartbeat c', w'))

  -- `Start` of a connection that was just made.
  unfoldable pub start : Connection × W → Connection × W
  start (c, w) =
      let (now, w') = host.clock w in
      (check_heartbeat (do_read (record c { last_active_time = now })), w')

abbrev pub new_connection : ℤ → Connection
new_connection now = record {
  is_stopped = false;
  socket_is_open = true;
  last_active_time = now;
  write_msg = [];
  reading = false;
  waiting = false;
  writing = 0;
}
