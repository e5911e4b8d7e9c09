-- ===== src/Admin/AdminServer/Serving/Phases.antt =====
-- What each connection of the admin server waits for, over any sequence of its handlers.
use imsystem.Prelude.{
  ℕ, zero, suc, true, false, Bool, some, List, [], ◌∷◌, ◌++◌, ◌≡◌, refl, subst, set, arith,
}
use imsystem.Prelude.Int.{ℤ}
use imsystem.Prelude.Texts.{Text}
use imsystem.Common.Effect.{Outcome, returned, thrown}
use imsystem.Admin.ApiHandler.{JsonLibrary}
use imsystem.Admin.AdminServer.{
  HttpConnection, response_text, start, new_connection, finish, route, parse_request,
  handle_request, on_read, on_write,
}
use imsystem.Admin.AdminServer.Serving.{
  AdminServer, connection_at, on_accept, run_read, run_write, stop_server, ran, Step, accepts,
  reads, writes, stops, Reach, here, next, start_server, new_server,
}

-- A connection waits for its request, writes a complete response, is closed behind it, or was
-- destroyed after a read that failed.
pub data Phase : HttpConnection → Type 0 where
  waits :
      Phase (record { response_data = []; socket_is_open = true; reading = true; writing = false })
  answers :
      (status : ℕ) (body : Text)
      → Phase (record {
        response_data = response_text status body;
        socket_is_open = true;
        reading = false;
        writing = true;
      })
  closed :
      (status : ℕ) (body : Text)
      → Phase (record {
        response_data = response_text status body;
        socket_is_open = false;
        reading = false;
        writing = false;
      })
  destroyed :
      Phase
        (record { response_data = []; socket_is_open = false; reading = false; writing = false })

pub data Phases : List HttpConnection → Type 0 where
  none_left : Phases []
  and_then : {c : HttpConnection} {cs : List HttpConnection} → Phase c → Phases cs → Phases (c ∷ cs)

append-Phases :
    (cs : List HttpConnection) (c : HttpConnection) → Phases cs → Phase c → Phases (cs ++ c ∷ [])
append-Phases [] c none_left h = and_then h none_left
append-Phases (d ∷ cs) c (and_then p ps) h = and_then p (append-Phases cs c ps h)

set-Phases :
    (cs : List HttpConnection) (i : ℕ) (c : HttpConnection)
    → Phases cs
    → Phase c
    → Phases (set cs i c)
set-Phases [] i c none_left h = none_left
set-Phases (d ∷ cs) zero c (and_then p ps) h = and_then h ps
set-Phases (d ∷ cs) (suc i) c (and_then p ps) h = and_then p (set-Phases cs i c ps h)

connection_at-Phase :
    (cs : List HttpConnection) (i : ℕ) (c : HttpConnection)
    → Phases cs
    → connection_at i cs ≡ some c
    → Phase c
connection_at-Phase [] i c none_left h = absurd (ground arith)
connection_at-Phase (d ∷ cs) zero c (and_then p ps) h = subst Phase (ground arith) p
connection_at-Phase (d ∷ cs) (suc i) c (and_then p ps) h = connection_at-Phase cs i c ps h

on_write-Phase : (c : HttpConnection) → Phase c → c.writing ≡ true → Phase (on_write c)
on_write-Phase _ waits h = absurd (ground arith)
on_write-Phase _ (answers status body) h = closed status body
on_write-Phase _ (closed status body) h = absurd (ground arith)
on_write-Phase _ destroyed h = absurd (ground arith)

module _ {J : Type 0} (json : JsonLibrary J) where
  -- A server that has not been terminated accepts, and each connection is in a phase.
  pub record Serves (s : AdminServer) : Type 0 where
    pub accepts_more : s.accepting ≡ true
    pub phases : Phases s.connections

  ran-Serves :
      (i : ℕ) (s : AdminServer) (c : HttpConnection) (r : Outcome (ℕ × Text))
      → Serves s
      → Phase c
      → c.reading ≡ true
      → Serves (ran i s (finish (record c { reading = false }) r))
  ran-Serves i s _ (returned a) h waits k = record {
    accepts_more = h.accepts_more;
    phases = set-Phases s.connections i _ h.phases (answers a.0 a.1);
  }
  ran-Serves i s _ (thrown e) h waits k = record {
    accepts_more = h.accepts_more;
    phases = h.phases;
  }
  ran-Serves i s _ r h (answers status body) k = absurd (ground arith)
  ran-Serves i s _ r h (closed status body) k = absurd (ground arith)
  ran-Serves i s _ r h destroyed k = absurd (ground arith)

  failed-Phase :
      (c : HttpConnection)
      → Phase c
      → c.reading ≡ true
      → Phase (record c { reading = false; socket_is_open = false })
  failed-Phase _ waits h = destroyed
  failed-Phase _ (answers status body) h = absurd (ground arith)
  failed-Phase _ (closed status body) h = absurd (ground arith)
  failed-Phase _ destroyed h = absurd (ground arith)

  run_read-Serves :
      (failed : Bool) (request_data : Text) (i : ℕ) (c : HttpConnection) (s : AdminServer)
      → Serves s
      → Phase c
      → c.reading ≡ true
      → Serves (run_read json failed request_data i c s)
  unfolding run_read on_read handle_request
  run_read-Serves true request_data i c s h p k = record {
    accepts_more = h.accepts_more;
    phases = set-Phases s.connections i _ h.phases (failed-Phase c p k);
  }
  run_read-Serves false request_data i c s h p k =
      ran-Serves i s c (route json (parse_request request_data)) h p k

  Step-Serves : {s t : AdminServer} → Serves s → Step json s t → Serves t
  unfolding on_accept run_write stop_server
  Step-Serves h (accepts runs a true) = record { accepts_more = refl; phases = h.phases }
  Step-Serves h (accepts runs a false) = record {
    accepts_more = refl;
    phases = append-Phases _ (start new_connection) h.phases waits;
  }
  Step-Serves h (reads runs i c at r failed request_data) =
      run_read-Serves failed request_data i c _ h (connection_at-Phase _ i c h.phases at) r
  Step-Serves h (writes runs i c at w) = record {
    accepts_more = h.accepts_more;
    phases =
        set-Phases _ i (on_write c) h.phases
          (on_write-Phase c (connection_at-Phase _ i c h.phases at) w);
  }
  Step-Serves h stops = record { accepts_more = h.accepts_more; phases = h.phases }

  keeps-Serves : {s t : AdminServer} → Serves s → Reach json s t → Serves t
  keeps-Serves h here = h
  keeps-Serves h (next r step) = Step-Serves (keeps-Serves h r) step

  -- Over any sequence of handlers of a server that was started, each connection that was accepted
  -- either waits for its one request, or writes one complete response, or was closed behind it, or
  -- was closed without one by a read that failed; and the next accept is pending.
  pub Reach-Serves :
      (thread_pool_size : ℤ) {t : AdminServer}
      → Reach json (start_server (new_server thread_pool_size)) t
      → Serves t
  unfolding start_server
  Reach-Serves thread_pool_size = keeps-Serves (record { accepts_more = refl; phases = none_left })
