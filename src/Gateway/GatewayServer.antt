-- ===== src/Gateway/GatewayServer.antt =====
-- gateway/src/gateway_server.cpp, and `TcpServer` and `HttpServer` of tcp_server.cpp and
-- http_server.cpp: the connections of the gateway and the threads that run their handlers, each
-- handler as one step. No strand orders the handlers of a connection; two that overlap on two threads
-- are not modelled.
pub mod Accepting
pub mod Starving
use imsystem.Prelude.{
  ℕ, zero, suc, ◌+◌, ◌-◌, ◌<◌, Bool, true, false, Option, none, some, List, [], ◌∷◌, ◌++◌, ◌≡◌, set,
  if◌then◌else◌,
}
use imsystem.Prelude.Int.{ℤ}
use imsystem.Prelude.Texts.{Text}
use imsystem.Common.Effect.{Exn, std_exception, other_exception, Outcome, returned, thrown, Io}
use imsystem.Gateway.TcpConnection.{
  Connection, Surroundings, new_connection, start, on_read, on_read_error, on_write, on_timer,
}
use imsystem.Gateway.HttpServer.{HttpConnection}
use imsystem.Gateway.HttpServer as Http

-- The threads that are in `io_context_.run()`, which accepts are pending, and the connections that
-- were accepted. A thread leaves `run` with what a handler throws: a `std::exception` ends the
-- thread, anything else the process.
pub record GatewayServer : Type 0 where
  pub threads : ℕ
  pub stopped : Bool
  pub terminated : Bool
  pub tcp_accepting : Bool
  pub http_accepting : Bool
  pub connections : List Connection
  pub http_connections : List HttpConnection

-- The constructor, with one thread for each round of the loop.
abbrev pub new_server : ℕ → GatewayServer
new_server thread_pool_size = record {
  threads = thread_pool_size;
  stopped = false;
  terminated = false;
  tcp_accepting = false;
  http_accepting = false;
  connections = [];
  http_connections = [];
}

-- `Run` up to its wait for the threads.
unfoldable pub run : GatewayServer → GatewayServer
run s = record s { tcp_accepting = true; http_accepting = true }

-- `Stop`: every thread leaves `run`.
unfoldable pub stop_server : GatewayServer → GatewayServer
stop_server s = record s { stopped = true; threads = 0 }

-- What a handler throws leaves the thread that ran it.
unfoldable pub leave : Exn → GatewayServer → GatewayServer
leave (std_exception what) s = record s { threads = s.threads - 1 }
leave other_exception s = record s { terminated = true }

abbrev pub element_at {ℓ} : {A : Type ℓ} → ℕ → List A → Option A
element_at i [] = none
element_at zero (c ∷ cs) = some c
element_at (suc i) (c ∷ cs) = element_at i cs

abbrev pub with_connection : ℕ → Connection → GatewayServer → GatewayServer
with_connection i c s = record s { connections = set s.connections i c }

abbrev pub with_http : ℕ → HttpConnection → GatewayServer → GatewayServer
with_http i c s = record s { http_connections = set s.http_connections i c }

-- The handler of an HTTP accept; the next accept is begun whether it failed or not.
unfoldable pub on_http_accept : Bool → GatewayServer → GatewayServer
on_http_accept failed s =
    if failed
    then s
    else record s { http_connections = s.http_connections ++ Http.start Http.new_connection ∷ [] }

module _ {W J : Type 0} (host : Surroundings W J) (remote_endpoint : Io W Text) where
  -- A new connection reads the clock when it is made and when it is started.
  abbrev pub started : W → Connection × W
  started w = let (now, w') = host.clock w in start host (new_connection now, w')

  -- `Start` asks for the remote endpoint first, which throws if the peer is gone; then the next
  -- accept is not begun.
  abbrev pub accepted : GatewayServer → Outcome Text × W → GatewayServer × W
  accepted s (returned peer, w) =
      let (c, w') = started w in
      (record s { connections = s.connections ++ c ∷ []; tcp_accepting = true }, w')
  accepted s (thrown e, w) = (leave e s, w)

  unfoldable pub on_tcp_accept : Bool → GatewayServer × W → GatewayServer × W
  unfolding leave
  on_tcp_accept failed (s, w) =
      let s' = record s { tcp_accepting = false } in
      if failed then (record s' { tcp_accepting = true }, w) else accepted s' (remote_endpoint w)

  abbrev pub ran : ℕ → GatewayServer → Outcome (Unit {0}) × (Connection × W) → GatewayServer × W
  ran i s (returned r, (c, w)) = (with_connection i c s, w)
  ran i s (thrown e, (c, w)) = (leave e (with_connection i c s), w)

  -- A thread runs the handler of a read of a connection.
  unfoldable pub run_read : ℕ → Text → Connection → GatewayServer × W → GatewayServer × W
  unfolding leave
  run_read i msg c (s, w) = ran i s (on_read host msg (c, w))

  abbrev pub timed : ℕ → GatewayServer → Connection × W → GatewayServer × W
  timed i s (c, w) = (with_connection i c s, w)

  unfoldable pub run_timer : ℕ → Bool → Connection → GatewayServer × W → GatewayServer × W
  run_timer i cancelled c (s, w) = timed i s (on_timer host cancelled (c, w))

  -- A thread is there to run a handler.
  abbrev pub Runs : GatewayServer → Type 0
  Runs s = (0 < s.threads) × (s.terminated ≡ false)

  -- The handlers that the threads run, in the order in which they do.
  pub data Step (s : GatewayServer × W) : GatewayServer × W → Type 0 where
    accepts :
        Runs s.0 → s.0.tcp_accepting ≡ true → (failed : Bool) → Step s (on_tcp_accept failed s)
    reads :
        Runs s.0
        → (i : ℕ) (c : Connection) → element_at i s.0.connections ≡ some c
        → c.reading ≡ true
        → (msg : Text) → Step s (run_read i msg c s)
    read_fails :
        Runs s.0
        → (i : ℕ) (c : Connection) → element_at i s.0.connections ≡ some c
        → c.reading ≡ true
        → Step s (with_connection i (on_read_error host c) s.0, s.1)
    writes :
        Runs s.0
        → (i : ℕ) (c : Connection) → element_at i s.0.connections ≡ some c
        → 0 < c.writing
        → (failed : Bool) → Step s (with_connection i (on_write failed c) s.0, s.1)
    timers :
        Runs s.0
        → (i : ℕ) (c : Connection) → element_at i s.0.connections ≡ some c
        → c.waiting ≡ true
        → (cancelled : Bool) → Step s (run_timer i cancelled c s)
    http_accepts :
        Runs s.0
        → s.0.http_accepting ≡ true
        → (failed : Bool) → Step s (on_http_accept failed s.0, s.1)
    http_reads :
        Runs s.0
        → (i : ℕ) (c : HttpConnection) → element_at i s.0.http_connections ≡ some c
        → c.reading ≡ true
        → (body : Text) (failed : Bool) (request_data : Text)
        → Step s (with_http i (Http.on_read body failed request_data c) s.0, s.1)
    http_writes :
        Runs s.0
        → (i : ℕ) (c : HttpConnection) → element_at i s.0.http_connections ≡ some c
        → c.writing ≡ true
        → Step s (with_http i (Http.on_write c) s.0, s.1)
    stops : Step s (stop_server s.0, s.1)

  pub data Reach (s : GatewayServer × W) : GatewayServer × W → Type 0 where
    here : Reach s s
    next : {t u : GatewayServer × W} → Reach s t → Step t u → Reach s u
