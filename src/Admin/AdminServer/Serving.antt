-- ===== src/Admin/AdminServer/Serving.antt =====
-- `AdminServer` of admin/src/admin_server.cpp: its connections and its threads, as steps.
pub mod Phases
pub mod Throwing
use imsystem.Prelude.{
  ℕ, zero, suc, ◌+◌, Bool, true, false, ◌&&◌, ◌⊎◌, inl, inr, Option, none, some, List, [], ◌∷◌,
  ◌++◌, ◌≡◌, refl, set, if◌then◌else◌, arith,
}
use imsystem.Prelude.Int.{ℤ, pos_part}
use imsystem.Prelude.Texts.{Text}
use imsystem.Common.Effect.{Exn, Outcome, returned, thrown}
use imsystem.Admin.ApiHandler.{JsonLibrary}
use imsystem.Admin.AdminServer.{HttpConnection, new_connection, start, on_read, on_write}

-- The members, with the connections that were accepted. A thread of the pool runs the handlers with
-- no `try` around them: what a handler throws ends the process, as `terminated` says.
pub record AdminServer : Type 0 where
  pub thread_pool_size : ℤ
  pub threads : ℕ
  pub accepting : Bool
  pub stopped : Bool
  pub terminated : Bool
  pub connections : List HttpConnection

abbrev pub new_server : ℤ → AdminServer
new_server thread_pool_size = record {
  thread_pool_size = thread_pool_size;
  threads = 0;
  accepting = false;
  stopped = false;
  terminated = false;
  connections = [];
}

abbrev pub do_accept : AdminServer → AdminServer
do_accept s = record s { accepting = true }

-- `Start`: one thread for each round of the loop.
unfoldable pub start_server : AdminServer → AdminServer
start_server s = record (do_accept s) { threads = s.threads + pos_part s.thread_pool_size }

-- `Stop`: the threads end, are joined and are dropped.
unfoldable pub stop_server : AdminServer → AdminServer
stop_server s = record s { stopped = true; threads = 0 }

-- The handler of an accept.
unfoldable pub on_accept : Bool → AdminServer → AdminServer
on_accept failed s =
    let s' = record s { accepting = false } in
    do_accept (
      if failed
      then s'
      else record s' { connections = s'.connections ++ start new_connection ∷ [] })

abbrev pub connection_at : ℕ → List HttpConnection → Option HttpConnection
connection_at i [] = none
connection_at zero (c ∷ cs) = some c
connection_at (suc i) (c ∷ cs) = connection_at i cs

abbrev pub ran : ℕ → AdminServer → Outcome (Unit {0}) × HttpConnection → AdminServer
ran i s (returned r, c) = record s { connections = set s.connections i c }
ran i s (thrown e, c) = record s { terminated = true }

module _ {J : Type 0} (json : JsonLibrary J) where
  -- A thread runs the handler of the read of a connection.
  unfoldable pub run_read : Bool → Text → ℕ → HttpConnection → AdminServer → AdminServer
  run_read failed request_data i c s = ran i s (on_read json failed request_data c)

  unfoldable pub run_write : ℕ → HttpConnection → AdminServer → AdminServer
  run_write i c s = record s { connections = set s.connections i (on_write c) }

  abbrev Runs : AdminServer → Type 0
  Runs s = (s.stopped ≡ false) × (s.terminated ≡ false)

  pub data Step (s : AdminServer) : AdminServer → Type 0 where
    accepts : Runs s → s.accepting ≡ true → (failed : Bool) → Step s (on_accept failed s)
    reads :
        Runs s
        → (i : ℕ) (c : HttpConnection) → connection_at i s.connections ≡ some c
        → c.reading ≡ true
        → (failed : Bool) (request_data : Text) → Step s (run_read failed request_data i c s)
    writes :
        Runs s
        → (i : ℕ) (c : HttpConnection) → connection_at i s.connections ≡ some c
        → c.writing ≡ true
        → Step s (run_write i c s)
    stops : Step s (stop_server s)

  pub data Reach (s : AdminServer) : AdminServer → Type 0 where
    here : Reach s s
    next : {t u : AdminServer} → Reach s t → Step t u → Reach s u
