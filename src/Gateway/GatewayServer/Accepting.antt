-- ===== src/Gateway/GatewayServer/Accepting.antt =====
-- When the gateway ceases to accept TCP connections.
use imsystem.Prelude.{ℕ, Bool, true, false, ◌≡◌, refl, ◌∙◌, length, length-set, arith}
use imsystem.Prelude.Texts.{Text}
use imsystem.Common.Effect.{Exn, std_exception, other_exception, Outcome, returned, thrown, Io}
use imsystem.Gateway.TcpConnection.{
  Connection, Surroundings, on_read, on_timer, on_read_error, on_write,
}
use imsystem.Gateway.GatewayServer.{
  GatewayServer, leave, with_connection, accepted, on_tcp_accept, on_http_accept, ran, run_read,
  run_timer, stop_server, Step, accepts, reads, read_fails, writes, timers, http_accepts,
  http_reads, http_writes, stops, Reach, here, next,
}

-- No accept is pending, and there are as many connections.
pub record Closed (n : ℕ) (s : GatewayServer) : Type 0 where
  pub not_accepting : s.tcp_accepting ≡ false
  pub as_many : length s.connections ≡ n

with_connection-Closed :
    (n i : ℕ) (c : Connection) (s : GatewayServer) → Closed n s → Closed n (with_connection i c s)
with_connection-Closed n i c s h = record {
  not_accepting = h.not_accepting;
  as_many = length-set s.connections i c ∙ h.as_many;
}

leave-Closed : (n : ℕ) (e : Exn) (s : GatewayServer) → Closed n s → Closed n (leave e s)
unfolding leave
leave-Closed n (std_exception what) s h = record {
  not_accepting = h.not_accepting;
  as_many = h.as_many;
}
leave-Closed n other_exception s h = record { not_accepting = h.not_accepting; as_many = h.as_many }

on_http_accept-Closed :
    (n : ℕ) (failed : Bool) (s : GatewayServer) → Closed n s → Closed n (on_http_accept failed s)
unfolding on_http_accept
on_http_accept-Closed n true s h = h
on_http_accept-Closed n false s h = record { not_accepting = h.not_accepting; as_many = h.as_many }

module _ {W J : Type 0} (host : Surroundings W J) (remote_endpoint : Io W Text) where
  ran-Closed :
      (n i : ℕ) (s : GatewayServer) (r : Outcome (Unit {0}) × (Connection × W))
      → Closed n s
      → Closed n (ran host remote_endpoint i s r).0
  ran-Closed n i s (returned r, (c, w)) h = with_connection-Closed n i c s h
  ran-Closed n i s (thrown e, (c, w)) h =
      leave-Closed n e (with_connection i c s) (with_connection-Closed n i c s h)

  Step-Closed :
      (n : ℕ) {s t : GatewayServer × W}
      → Closed n s.0
      → Step host remote_endpoint s t
      → Closed n t.0
  unfolding run_read run_timer stop_server
  Step-Closed n h (accepts runs a failed) = absurd (ground (arith, h.not_accepting))
  Step-Closed n {s = s} h (reads runs i c at r msg) =
      ran-Closed n i s.0 (on_read host msg (c, s.1)) h
  Step-Closed n {s = s} h (read_fails runs i c at r) =
      with_connection-Closed n i (on_read_error host c) s.0 h
  Step-Closed n {s = s} h (writes runs i c at w failed) =
      with_connection-Closed n i (on_write failed c) s.0 h
  Step-Closed n {s = s} h (timers runs i c at r cancelled) =
      with_connection-Closed n i (on_timer host cancelled (c, s.1)).0 s.0 h
  Step-Closed n {s = s} h (http_accepts runs a failed) = on_http_accept-Closed n failed s.0 h
  Step-Closed n h (http_reads runs i c at r b f d) = record {
    not_accepting = h.not_accepting;
    as_many = h.as_many;
  }
  Step-Closed n h (http_writes runs i c at w) = record {
    not_accepting = h.not_accepting;
    as_many = h.as_many;
  }
  Step-Closed n h stops = record { not_accepting = h.not_accepting; as_many = h.as_many }

  keeps-Closed :
      (n : ℕ) {s t : GatewayServer × W}
      → Closed n s.0
      → Reach host remote_endpoint s t
      → Closed n t.0
  keeps-Closed n h here = h
  keeps-Closed n h (next r step) = Step-Closed n (keeps-Closed n h r) step

  thrown_away :
      (n : ℕ) (s : GatewayServer) (e : Exn) (r : Outcome Text × W)
      → Closed n s
      → r.0 ≡ thrown e
      → Closed n (accepted host remote_endpoint s r).0
  thrown_away n s e (returned peer, w) c h = absurd (ground arith)
  thrown_away n s e (thrown x, w) c h = leave-Closed n x s c

  gone :
      (s : GatewayServer) (w : W) (e : Exn)
      → (remote_endpoint w).0 ≡ thrown e
      → Closed (length s.connections) (on_tcp_accept host remote_endpoint false (s, w)).0
  unfolding on_tcp_accept
  gone s w e h =
      thrown_away (length s.connections) (record s { tcp_accepting = false }) e (remote_endpoint w)
        (record { not_accepting = refl; as_many = refl }) h

  -- If a peer is gone before its connection is started, so that asking for the remote endpoint
  -- throws, then the gateway never accepts a TCP connection again, over any sequence of steps.
  pub on_tcp_accept-gone :
      (s : GatewayServer) (w : W) (e : Exn)
      → (remote_endpoint w).0 ≡ thrown e
      → {t : GatewayServer × W}
      → Reach host remote_endpoint (on_tcp_accept host remote_endpoint false (s, w)) t
      → Closed (length s.connections) t.0
  on_tcp_accept-gone s w e h = keeps-Closed (length s.connections) (gone s w e h)
