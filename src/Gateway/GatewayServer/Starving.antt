-- ===== src/Gateway/GatewayServer/Starving.antt =====
-- What an exception that leaves a handler does to the gateway.
use imsystem.Prelude.{ℕ, suc, ◌+◌, ◌-◌, ◌≤◌, Bool, true, false, some, ◌≡◌, refl, arith}
use imsystem.Prelude.Texts.{Text, codes}
use imsystem.Common.Effect.{Exn, std_exception, other_exception, Outcome, returned, thrown, Io}
use imsystem.Gateway.TcpConnection.{
  Connection, Surroundings, contains, parse_and_route_message, on_read,
}
use imsystem.Gateway.GatewayServer.{
  GatewayServer, Runs, element_at, leave, with_connection, accepted, on_tcp_accept, on_http_accept,
  ran, run_timer, run_read, stop_server, Step, accepts, reads, read_fails, writes, timers,
  http_accepts, http_reads, http_writes, stops, Reach, here, next,
}

module _ {W J : Type 0} (host : Surroundings W J) (remote_endpoint : Io W Text) where
  -- No thread is left, and every connection is as it was.
  pub record Starves (s t : GatewayServer) : Type 0 where
    pub no_thread : t.threads ≡ 0
    pub same : t.connections ≡ s.connections
    pub same_http : t.http_connections ≡ s.http_connections

  Step-Starves :
      (s : GatewayServer) {t u : GatewayServer × W}
      → Starves s t.0
      → Step host remote_endpoint t u
      → Starves s u.0
  unfolding stop_server
  Step-Starves s h (accepts runs a failed) = absurd (omega (arith, runs.0, h.no_thread))
  Step-Starves s h (reads runs i c at r msg) = absurd (omega (arith, runs.0, h.no_thread))
  Step-Starves s h (read_fails runs i c at r) = absurd (omega (arith, runs.0, h.no_thread))
  Step-Starves s h (writes runs i c at w failed) = absurd (omega (arith, runs.0, h.no_thread))
  Step-Starves s h (timers runs i c at r k) = absurd (omega (arith, runs.0, h.no_thread))
  Step-Starves s h (http_accepts runs a failed) = absurd (omega (arith, runs.0, h.no_thread))
  Step-Starves s h (http_reads runs i c at r b f d) = absurd (omega (arith, runs.0, h.no_thread))
  Step-Starves s h (http_writes runs i c at w) = absurd (omega (arith, runs.0, h.no_thread))
  Step-Starves s h stops = record { no_thread = refl; same = h.same; same_http = h.same_http }

  keeps-Starves :
      (s : GatewayServer) {t u : GatewayServer × W}
      → Starves s t.0
      → Reach host remote_endpoint t u
      → Starves s u.0
  keeps-Starves s h here = h
  keeps-Starves s h (next r step) = Step-Starves s (keeps-Starves s h r) step

  -- The connection behind a frame that was not understood: active at that time, and without a
  -- pending read.
  abbrev pub muted : Connection → W → Connection
  muted c w = record c { reading = false; last_active_time = (host.clock w).0 }

  -- A frame that is no PING, with a command on which `asString` throws, as it does on an array or an
  -- object.
  pub record BadCommand (msg what : Text) (root v : J) : Type 0 where
    pub no_ping : contains msg (codes "PING") ≡ false
    pub parses : host.json.parse msg ≡ returned (some root)
    pub has_cmd : host.json.is_member root "cmd" ≡ returned true
    pub has_payload : host.json.is_member root "payload" ≡ returned true
    pub gets : host.json.get root "cmd" ≡ returned v
    pub throws : host.json.as_string v ≡ thrown (std_exception what)

  route-BadCommand :
      (msg what : Text) (root v : J) (s : Connection × W)
      → BadCommand msg what root v
      → parse_and_route_message host msg s ≡ (thrown (std_exception what), s)
  unfolding parse_and_route_message
  route-BadCommand msg what root v s h =
      rw (h.no_ping, h.parses, h.has_cmd, h.has_payload, h.gets, h.throws) refl

  on_read-BadCommand :
      (msg what : Text) (root v : J) (c : Connection) (w : W)
      → BadCommand msg what root v
      → on_read host msg (c, w) ≡ (thrown (std_exception what), (muted c w, (host.clock w).1))
  unfolding on_read
  on_read-BadCommand msg what root v c w h =
      rw (route-BadCommand msg what root v (muted c w, (host.clock w).1) h) refl

  run_read-BadCommand :
      (msg what : Text) (root v : J) (i : ℕ) (c : Connection) (s : GatewayServer) (w : W)
      → BadCommand msg what root v
      → run_read host remote_endpoint i msg c (s, w)
        ≡ (record (with_connection i (muted c w) s) { threads = s.threads - 1 }, (host.clock w).1)
  unfolding run_read leave
  run_read-BadCommand msg what root v i c s w h = rw (on_read-BadCommand msg what root v c w h) refl

  -- `k` reads of frames with such a command, on whatever connections, among any other steps.
  pub data BadReads (s : GatewayServer × W) : ℕ → GatewayServer × W → Type 0 where
    no_read : BadReads s 0 s
    other :
        {k : ℕ} {t u : GatewayServer × W}
        → BadReads s k t
        → Step host remote_endpoint t u
        → BadReads s k u
    bad :
        {k : ℕ} {t : GatewayServer × W}
        → BadReads s k t
        → Runs host remote_endpoint t.0
        → (i : ℕ) (c : Connection) → element_at i t.0.connections ≡ some c
        → c.reading ≡ true
        → (msg what : Text) (root v : J) → BadCommand msg what root v
        → BadReads s (suc k) (run_read host remote_endpoint i msg c t)

  leave_threads : (e : Exn) (s : GatewayServer) → (leave e s).threads ≤ s.threads
  unfolding leave
  leave_threads (std_exception what) s = omega arith
  leave_threads other_exception s = omega arith

  accepted_threads :
      (s : GatewayServer) (r : Outcome Text × W)
      → (accepted host remote_endpoint s r).0.threads ≤ s.threads
  accepted_threads s (returned peer, w) = omega arith
  accepted_threads s (thrown e, w) = leave_threads e s

  on_tcp_accept_threads :
      (failed : Bool) (s : GatewayServer × W)
      → (on_tcp_accept host remote_endpoint failed s).0.threads ≤ s.0.threads
  unfolding on_tcp_accept
  on_tcp_accept_threads true (s, w) = omega arith
  on_tcp_accept_threads false (s, w) =
      accepted_threads (record s { tcp_accepting = false }) (remote_endpoint w)

  ran_threads :
      (i : ℕ) (s : GatewayServer) (r : Outcome (Unit {0}) × (Connection × W))
      → (ran host remote_endpoint i s r).0.threads ≤ s.threads
  ran_threads i s (returned x, (c, w)) = omega arith
  ran_threads i s (thrown e, (c, w)) = leave_threads e (with_connection i c s)

  run_read_threads :
      (i : ℕ) (msg : Text) (c : Connection) (s : GatewayServer × W)
      → (run_read host remote_endpoint i msg c s).0.threads ≤ s.0.threads
  unfolding run_read
  run_read_threads i msg c (s, w) = ran_threads i s (on_read host msg (c, w))

  on_http_accept_threads :
      (failed : Bool) (s : GatewayServer) → (on_http_accept failed s).threads ≤ s.threads
  unfolding on_http_accept
  on_http_accept_threads true s = omega arith
  on_http_accept_threads false s = omega arith

  Step-threads :
      {t u : GatewayServer × W} → Step host remote_endpoint t u → u.0.threads ≤ t.0.threads
  unfolding stop_server run_timer
  Step-threads {t} (accepts runs a failed) = on_tcp_accept_threads failed t
  Step-threads {t} (reads runs i c at r msg) = run_read_threads i msg c t
  Step-threads (read_fails runs i c at r) = omega arith
  Step-threads (writes runs i c at w failed) = omega arith
  Step-threads (timers runs i c at r k) = omega arith
  Step-threads {t} (http_accepts runs a failed) = on_http_accept_threads failed t.0
  Step-threads (http_reads runs i c at r b f d) = omega arith
  Step-threads (http_writes runs i c at w) = omega arith
  Step-threads stops = omega arith

  -- Every such read costs a thread.
  BadReads-threads :
      {s t : GatewayServer × W} {k : ℕ} → BadReads s k t → t.0.threads + k ≤ s.0.threads
  BadReads-threads no_read = omega arith
  BadReads-threads (other r step) = omega (arith, BadReads-threads r, Step-threads step)
  BadReads-threads (bad {k} {t} r runs i c at reading msg what root v h) =
      rw (run_read-BadCommand msg what root v i c t.0 t.1 h)
        (omega (arith, BadReads-threads r, runs.0))

  -- Once as many frames as the gateway had threads came that are JSON, no PING, with a payload and
  -- with a command on which `asString` throws, on whatever connections and among any other steps:
  -- over any sequence of steps no handler runs any more, no connection changes, and no thread comes
  -- back.
  pub BadReads-Starves :
      {s t u : GatewayServer × W}
      → BadReads s s.0.threads t
      → Reach host remote_endpoint t u
      → Starves t.0 u.0
  BadReads-Starves {s} {t} b =
      keeps-Starves t.0
        (record { no_thread = omega (arith, BadReads-threads b); same = refl; same_http = refl })
