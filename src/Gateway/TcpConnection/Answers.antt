-- ===== src/Gateway/TcpConnection/Answers.antt =====
-- How a frame is answered.
use mathlib.Core.Path.{transport}
use imsystem.Prelude.{
  ℕ, Bool, true, false, Option, none, some, ◌≡◌, refl, ap, sym, ◌∙◌, subst, if◌then◌else◌,
  Bool-cases, inl, inr, arith, String,
}
use imsystem.Prelude.Int.{pos}
use imsystem.Prelude.Texts.{Text, text_eq, codes}
use imsystem.Common.Effect.{Outcome, returned, thrown, pure, resume}
use imsystem.Common.Retry.{execute_with_retry_void}
use imsystem.Common.Retry.Attempts.{Failed, no_attempt, one_more, execute_with_retry-Ends}
use imsystem.Common.Sql.{modify}
use imsystem.Logic.Processor.{SendMsgResp, SendMsgReq, Reply, bad_status, response}
use imsystem.Gateway.TcpConnection.{
  Connection, Surroundings, do_read, send, contains, answer, forward_attempt,
  forward_to_logic_service, parse_and_route_message, on_read, read_request, call, route_json,
  has_fields, route_fields, route_command, lift, text_field, uint64_field, int_field,
}
use imsystem.Gateway.TcpConnection.Effects.{
  After, sends, Quiet, Answering, After-thrown, After-trans, bind-Quiet, bind-Answering, same,
}

module _ {W J : Type 0} (host : Surroundings W J) where
  lift-Quiet : {A : Type 0} (o : Outcome A) → Quiet (lift host o)
  unfolding Quiet
  lift-Quiet o = same

  text_field-Quiet : (payload : J) (name : String) → Quiet (text_field host payload name)
  text_field-Quiet payload name =
      bind-Quiet (lift host (host.json.get payload name)) _ (lift-Quiet _) (λ v. lift-Quiet _)

  uint64_field-Quiet : (payload : J) (name : String) → Quiet (uint64_field host payload name)
  uint64_field-Quiet payload name =
      bind-Quiet (lift host (host.json.get payload name)) _ (lift-Quiet _) (λ v. lift-Quiet _)

  int_field-Quiet : (payload : J) (name : String) → Quiet (int_field host payload name)
  int_field-Quiet payload name =
      bind-Quiet (lift host (host.json.get payload name)) _ (lift-Quiet _) (λ v. lift-Quiet _)

  read_request-Quiet : (payload : J) → Quiet (read_request host payload)
  read_request-Quiet payload = bind-Quiet _ _ (text_field-Quiet payload "msg_id") λ _.
      bind-Quiet _ _ (uint64_field-Quiet payload "sender_id") λ _.
        bind-Quiet _ _ (uint64_field-Quiet payload "receiver_id") λ _.
          bind-Quiet _ _ (int_field-Quiet payload "session_type") λ _.
            bind-Quiet _ _ (int_field-Quiet payload "msg_type")
              λ _. bind-Quiet _ _ (text_field-Quiet payload "content") λ _. lift-Quiet (returned _)

  call-Quiet : (req : SendMsgReq) → Quiet (call host req)
  unfolding Quiet
  call-Quiet req s = same s

  send-Answering :
      (b : Bool) (msg : Text) → Answering b 1 (modify {L = Connection} {W = W} (send msg))
  unfolding Answering send
  send-Answering true msg s is = rw is (omega arith, refl, refl, refl)
  send-Answering false msg s is = rw is (refl, refl, refl, refl)

  answer-Answering : (b : Bool) (reply : Reply SendMsgResp) → Answering b 1 (answer host reply)
  unfolding answer Answering
  answer-Answering b (bad_status e) s is = rw (After-thrown (Unit {0}) b 1 _ s s) (same s)
  answer-Answering b (response r) s is = send-Answering b _ s is

  forward_attempt-Answering :
      (b : Bool) (payload : J) → Answering b 1 (forward_attempt host payload)
  unfolding forward_attempt
  forward_attempt-Answering b payload =
      bind-Answering b 1 _ _ (read_request-Quiet payload)
        λ req. bind-Answering b 1 _ _ (call-Quiet req) (answer-Answering b)

  Failed-After :
      (b : Bool) (payload : J) {k : ℕ} {s t : Connection × W}
      → Failed (λ n (c, w). (c, host.sleep n w)) 500 (forward_attempt host payload) k s t
      → s.0.is_stopped ≡ b
      → After 0 s t
  unfolding Answering
  Failed-After b payload {s = s} no_attempt is = same s
  Failed-After b payload {s = s} {t = t} (one_more {v = v} {e = x} e f) is =
      let h : After 0 s v =
        transport (After-thrown (Unit {0}) b 1 x s v)
          (subst (λ r. After (sends b 1 r.0) s r.1) e (forward_attempt-Answering b payload s is)) in
      After-trans 0 s v t h (Failed-After b payload f (h.1 ∙ is))

  forward-Answering :
      (b : Bool) (payload : J) → Answering b 1 (forward_to_logic_service host payload)
  unfolding forward_to_logic_service execute_with_retry_void Answering
  forward-Answering b payload s is =
      let d =
        (execute_with_retry-Ends pause 500 (forward_attempt host payload) (pos 3) s _).0 refl in
      let h = Failed-After b payload d.failed is in
      subst (λ r. After (sends b 1 r.0) s r.1) d.result
        (After-trans (sends b 1 (forward_attempt host payload d.last).0) s d.last
          (forward_attempt host payload d.last).1 h
          (forward_attempt-Answering b payload d.last (h.1 ∙ is)))
    where
      pause : ℕ → Connection × W → Connection × W
      pause n (c, w) = (c, host.sleep n w)

  route_command-Answering :
      (b : Bool) (payload : J) (cmd : Text) → Answering b 1 (route_command host payload cmd)
  route_command-Answering b payload cmd = elim (Bool-cases (text_eq cmd (codes "send_msg"))) [
    | inl e ↦ rw e (forward-Answering b payload)
    | inr e ↦ rw e (send-Answering b _)
  ]

  route_fields-Answering :
      (b : Bool) (root : J) (complete : Bool) → Answering b 1 (route_fields host root complete)
  route_fields-Answering b root false = send-Answering b _
  route_fields-Answering b root true =
      bind-Answering b 1 _ _ (lift-Quiet (host.json.get root "cmd")) λ v.
        bind-Answering b 1 _ _ (lift-Quiet (host.json.as_string v)) λ cmd.
          bind-Answering b 1 _ _ (lift-Quiet (host.json.get root "payload"))
            λ payload. route_command-Answering b payload cmd

  second-Quiet :
      (root : J) (cmd : Bool)
      → Quiet (if cmd then lift host (host.json.is_member root "payload") else pure false)
  second-Quiet root true = lift-Quiet _
  second-Quiet root false = lift-Quiet (returned false)

  has_fields-Quiet : (root : J) → Quiet (has_fields host root)
  has_fields-Quiet root = bind-Quiet _ _ (lift-Quiet _) (second-Quiet root)

  route_json-Answering : (b : Bool) (parsed : Option J) → Answering b 1 (route_json host parsed)
  route_json-Answering b none = send-Answering b _
  route_json-Answering b (some root) =
      bind-Answering b 1 _ _ (has_fields-Quiet root) (route_fields-Answering b root)

  parse_and_route-Answering :
      (b : Bool) (msg : Text) → Answering b 1 (parse_and_route_message host msg)
  unfolding parse_and_route_message
  parse_and_route-Answering b msg = elim (Bool-cases (contains msg (codes "PING"))) [
    | inl e ↦ rw e (send-Answering b _)
    | inr e ↦
        rw e (bind-Answering b 1 _ _ (lift-Quiet (host.json.parse msg)) (route_json-Answering b))
  ]

  -- A frame gets exactly one answer if the connection is not stopped and the handler returns, and
  -- else none, whatever the frame holds and however often the call of the logic service was tried.
  -- The handler does not stop the connection and does not touch its timer.
  pub on_read-answers :
      (msg : Text) (s : Connection × W)
      → After (sends s.0.is_stopped 1 (on_read host msg s).0) s (on_read host msg s).1
  unfolding on_read Answering
  on_read-answers msg (c, w) =
      armed (parse_and_route_message host msg begun)
        (parse_and_route-Answering c.is_stopped msg begun refl)
    where
      begun : Connection × W
      begun = (record c { reading = false; last_active_time = (host.clock w).0 }, (host.clock w).1)

      armed :
          (r : Outcome (Unit {0}) × (Connection × W))
          → After (sends c.is_stopped 1 r.0) (c, w) r.1
          → After
              (sends c.is_stopped 1 (resume (λ _. modify do_read) r).0)
              (c, w)
              (resume (λ _. modify do_read) r).1
      armed (returned done, t) h = h
      armed (thrown e, t) h = h

  -- After a frame that was handled the connection waits for the next one.
  pub on_read-reads :
      (msg : Text) (s t : Connection × W)
      → on_read host msg s ≡ (returned tt, t)
      → t.0.reading ≡ true
  unfolding on_read
  on_read-reads msg (c, w) t = armed (
      parse_and_route_message host msg
        (record c { reading = false; last_active_time = (host.clock w).0 }, (host.clock w).1))
    where
      armed :
          (r : Outcome (Unit {0}) × (Connection × W))
          → resume (λ _. modify do_read) r ≡ (returned tt, t)
          → t.0.reading ≡ true
      armed (returned done, u) e =
          ap (λ (r : Outcome (Unit {0}) × (Connection × W)). r.1.0.reading) (sym e)
      armed (thrown x, u) e =
          absurd (ground (arith, ap (λ (r : Outcome (Unit {0}) × (Connection × W)). r.0) e))
