-- ===== src/Gateway/TcpConnection/Running.antt =====
-- The handlers of a connection as steps: what holds of a connection that runs, and of one that is
-- stopped.
use imsystem.Prelude.{
  ◌-◌, ◌≤◌, ◌<◌, Bool, true, false, not, ◌||◌, if◌then◌else◌, ◌≡◌, refl, ap, sym, ◌∙◌, subst,
  Bool-cases, inl, inr, arith,
}
use imsystem.Prelude.Int.{ℤ, ltb_ℤ, ◌-ℤ◌}
use imsystem.Prelude.Texts.{Text}
use imsystem.Common.Effect.{Outcome, returned}
use imsystem.Gateway.TcpConnection.Effects.{After, sends}
use imsystem.Gateway.TcpConnection.Answers.{on_read-answers, on_read-reads}
use imsystem.Gateway.TcpConnection.{
  Connection, Surroundings, new_connection, start, heartbeat_timeout_sec, stop, check_heartbeat,
  on_read, on_read_error, on_write, on_timer,
}

module _ {W J : Type 0} (host : Surroundings W J) where
  -- Asio calls a handler that it holds. That of the timer gets an error only once `Stop` has
  -- cancelled the timer.
  pub data Step (s : Connection × W) : Connection × W → Type 0 where
    reads :
        (msg : Text) (t : Connection × W)
        → s.0.reading ≡ true
        → on_read host msg s ≡ (returned tt, t)
        → Step s t
    read_fails : s.0.reading ≡ true → Step s (on_read_error host s.0, s.1)
    wrote : (failed : Bool) → 0 < s.0.writing → Step s (on_write failed s.0, s.1)
    timer : s.0.waiting ≡ true → Step s (on_timer host false s)
    timer_cancelled : s.0.waiting ≡ true → s.0.is_stopped ≡ true → Step s (on_timer host true s)

  pub data Reach (s : Connection × W) : Connection × W → Type 0 where
    here : Reach s s
    next : {t u : Connection × W} → Reach s t → Step t u → Reach s u

  -- While it runs, a connection waits for the next read and for the next check of its heartbeat;
  -- its socket is open exactly as long as it runs.
  abbrev pub IsAlive : Connection → Type 0
  IsAlive c =
      (c.socket_is_open ≡ not c.is_stopped)
      × (c.is_stopped ≡ false → c.reading ≡ true)
      × (c.is_stopped ≡ false → c.waiting ≡ true)

  stop-IsAlive : (c : Connection) → c.socket_is_open ≡ not c.is_stopped → IsAlive (stop c)
  unfolding stop
  stop-IsAlive c h = elim (Bool-cases c.is_stopped) [
    | inl e ↦ rw e (rw e at h, λ k. absurd (ground arith), λ k. absurd (ground arith))
    | inr e ↦ rw e (refl, λ k. absurd (ground arith), λ k. absurd (ground arith))
  ]

  on_write-IsAlive : (failed : Bool) (c : Connection) → IsAlive c → IsAlive (on_write failed c)
  unfolding on_write
  on_write-IsAlive true c h = stop-IsAlive (record c { writing = c.writing - 1 }) h.0
  on_write-IsAlive false c h = h

  check_heartbeat-IsAlive :
      (c : Connection)
      → c.socket_is_open ≡ not c.is_stopped
      → (c.is_stopped ≡ false → c.reading ≡ true)
      → IsAlive (check_heartbeat c)
  unfolding check_heartbeat
  check_heartbeat-IsAlive c h r = elim (Bool-cases c.is_stopped) [
    | inl e ↦ rw e (rw e at h, λ k. absurd (ground arith), λ k. absurd (ground arith))
    | inr e ↦ rw e (rw e at h, λ _. r e, λ _. refl)
  ]

  on_timer-IsAlive :
      (cancelled : Bool) (s : Connection × W)
      → (cancelled ≡ true → s.0.is_stopped ≡ true)
      → IsAlive s.0
      → IsAlive (on_timer host cancelled s).0
  unfolding on_timer
  on_timer-IsAlive cancelled (c, w) k h =
      fired (cancelled || c.is_stopped) (λ e. ground arith)
        (ltb_ℤ heartbeat_timeout_sec ((host.clock w).0 -ℤ c.last_active_time))
    where
      c' : Connection
      c' = record c { waiting = false }

      ended : Bool → Bool → Connection × W
      ended over idle =
          if over
          then (c', w)
          else (if idle
              then (stop c', (host.clock w).1)
              else (check_heartbeat c', (host.clock w).1))

      fired :
          (over : Bool)
          → (over ≡ true → c.is_stopped ≡ true)
          → (idle : Bool) → IsAlive (ended over idle).0
      fired true is idle =
          (h.0, λ u. absurd (ground (arith, is refl)), λ u. absurd (ground (arith, is refl)))
      fired false is true = stop-IsAlive c' h.0
      fired false is false = check_heartbeat-IsAlive c' h.0 h.1

  Step-IsAlive : {s t : Connection × W} → Step s t → IsAlive s.0 → IsAlive t.0
  unfolding on_read_error
  Step-IsAlive {s} {t} (reads msg u r e) h =
      let same : After _ s t =
        subst
          (λ (r : Outcome (Unit {0}) × (Connection × W)). After (sends s.0.is_stopped 1 r.0) s r.1)
          e (on_read-answers host msg s) in
      (
        same.2 ∙ h.0 ∙ ap not (sym same.1),
        λ _. on_read-reads host msg s t e,
        λ k. same.3 ∙ h.2 (sym same.1 ∙ k),
      )
  Step-IsAlive {s} (read_fails r) h = stop-IsAlive (record s.0 { reading = false }) h.0
  Step-IsAlive {s} (wrote failed k) h = on_write-IsAlive failed s.0 h
  Step-IsAlive {s} (timer r) h = on_timer-IsAlive false s (λ k. absurd (ground arith)) h
  Step-IsAlive {s} (timer_cancelled r k) h = on_timer-IsAlive true s (λ _. k) h

  start-IsAlive : (now : ℤ) (w : W) → IsAlive (start host (new_connection now, w)).0
  unfolding start check_heartbeat
  start-IsAlive now w = (refl, λ _. refl, λ _. refl)

  -- Whatever handlers run, as long as those of the reads return: while a started connection runs,
  -- the next read and the next check of the heartbeat are pending; and its socket is open exactly as
  -- long as it runs.
  pub Reach-IsAlive :
      (now : ℤ) (w : W) {t : Connection × W}
      → Reach (start host (new_connection now, w)) t
      → IsAlive t.0
  Reach-IsAlive now w here = start-IsAlive now w
  Reach-IsAlive now w (next r st) = Step-IsAlive st (Reach-IsAlive now w r)

  Step-stopped :
      {s t : Connection × W}
      → Step s t
      → s.0.is_stopped ≡ true
      → (t.0.is_stopped ≡ true) × (t.0.writing ≤ s.0.writing)
  unfolding on_read_error on_write on_timer stop
  Step-stopped {s} {t} (reads msg u r e) h =
      let same : After (sends s.0.is_stopped 1 (returned tt)) s t =
        subst
          (λ (r : Outcome (Unit {0}) × (Connection × W)). After (sends s.0.is_stopped 1 r.0) s r.1)
          e (on_read-answers host msg s) in
      let silent : After 0 s t = subst (λ b. After (sends b 1 (returned tt)) s t) h same in
      (silent.1 ∙ h, omega arith)
  Step-stopped {s} (read_fails r) h = ground arith
  Step-stopped {s} (wrote failed k) h = ground arith
  Step-stopped {s} (timer r) h = ground arith
  Step-stopped {s} (timer_cancelled r k) h = ground arith

  -- Whatever handlers run, a connection that is stopped stays so, and no further write is started.
  pub Reach-stopped :
      {s t : Connection × W}
      → Reach s t
      → s.0.is_stopped ≡ true
      → (t.0.is_stopped ≡ true) × (t.0.writing ≤ s.0.writing)
  Reach-stopped here h = (h, omega arith)
  Reach-stopped (next r st) h =
      let (up, few) = Reach-stopped r h in
      let (up', few') = Step-stopped st up in (up', omega arith)
