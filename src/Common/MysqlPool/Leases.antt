-- ===== src/Common/MysqlPool/Leases.antt =====
-- Threads that take connections out of the pool and give them back through guards, in any order.
use mathlib.Core.List.{Perm, perm_middle, Nodup, Nodup-cons}
use mathlib.Core.List.Perm
use mathlib.Core.Path.{subst₂}
use mathlib.Core.List.Nodup
use imsystem.Prelude.{
  ℕ, true, false, some, List, [], ◌∷◌, ◌++◌, ◌≡◌, sym, ◌∙◌, arith, Bool-cases, ◌⊎◌, inl, inr, subst,
  append_assoc,
}
use imsystem.Common.MysqlPool.{
  MysqlPool, waits, null_connection, got, acquire_connection, release_connection, shutdown,
  guard_exit,
}

-- The pool, and the connections that live guards hold.
pub record System : Type 0 where
  pub pool : MysqlPool
  pub held : List ℕ

pub data Step (s : System) : System → Type 0 where
  acquires :
      (conn : ℕ) (p : MysqlPool)
      → acquire_connection s.pool ≡ got conn p
      → Step s (record { pool = p; held = conn ∷ s.held })
  releases :
      (before after : List ℕ) (conn : ℕ)
      → s.held ≡ before ++ conn ∷ after
      → Step s (record { pool = guard_exit (some conn) s.pool; held = before ++ after })
  stops : Step s (record { pool = shutdown s.pool; held = s.held })

pub data Reach (s : System) : System → Type 0 where
  here : Reach s s
  next : {t u : System} → Reach s t → Step t u → Reach s u

-- Every connection that is idle or held.
abbrev pub owned : System → List ℕ
owned s = s.pool.pool ++ s.held

-- What an acquisition that gets a connection says of the pool.
got-front :
    (p q : MysqlPool) (conn : ℕ)
    → acquire_connection p ≡ got conn q
    → (p.shutdown ≡ false) × (p.pool ≡ conn ∷ q.pool) × (q.shutdown ≡ false)
unfolding acquire_connection
got-front p q conn e = ground arith

released-perm :
    (conn : ℕ) (pool before after : List ℕ)
    → Perm ((pool ++ conn ∷ []) ++ (before ++ after)) (pool ++ (before ++ conn ∷ after))
released-perm conn pool before after =
    subst (λ l. Perm l (pool ++ (before ++ conn ∷ after)))
      (sym (append_assoc pool (conn ∷ []) (before ++ after)))
      (Perm.append_left pool (Perm.symm (perm_middle before after)))

exit-running :
    (p : MysqlPool) (conn : ℕ)
    → p.shutdown ≡ false
    → guard_exit (some conn) p ≡ record p { pool = p.pool ++ conn ∷ [] }
unfolding guard_exit
exit-running p conn up = ground arith

exit-stopped : (p : MysqlPool) (conn : ℕ) → p.shutdown ≡ true → guard_exit (some conn) p ≡ p
unfolding guard_exit
exit-stopped p conn stopped = ground arith

shutdown-stops : (p : MysqlPool) → (shutdown p).shutdown ≡ true
unfolding shutdown
shutdown-stops p = ground arith

shutdown-pool : (p : MysqlPool) → ((shutdown p).pool ≡ p.pool) ⊎ ((shutdown p).pool ≡ [])
unfolding shutdown
shutdown-pool p = ground arith

exit-shutdown : (p : MysqlPool) (conn : ℕ) → (guard_exit (some conn) p).shutdown ≡ p.shutdown
unfolding guard_exit
exit-shutdown p conn = ground arith

dropped :
    (conn : ℕ) (pool before after : List ℕ)
    → Nodup ((pool ++ conn ∷ []) ++ (before ++ after))
    → Nodup (pool ++ (before ++ after))
dropped conn pool before after d =
    (Nodup-cons.0 (
      Perm.nodup (perm_middle pool (before ++ after))
        (subst Nodup (append_assoc pool (conn ∷ []) (before ++ after)) d))).1

-- While the pool is not shut down a step moves connections between the pool and the guards, and
-- makes or loses none.
Step-perm :
    {s t : System}
    → Step s t
    → t.pool.shutdown ≡ false
    → (s.pool.shutdown ≡ false) × Perm (owned t) (owned s)
unfolding release_connection guard_exit shutdown
Step-perm {s} (acquires conn p e) running =
    let (before, taken, _) = got-front s.pool p conn e in
    (
      before,
      subst (λ l. Perm (p.pool ++ conn ∷ s.held) (l ++ s.held)) (sym taken)
          (perm_middle p.pool s.held),
    )
Step-perm {s} (releases before after conn e) running =
    let up : s.pool.shutdown ≡ false = sym (exit-shutdown s.pool conn) ∙ running in
    (
      up,
      subst₂ (λ (p : MysqlPool) h. Perm (p.pool ++ (before ++ after)) (s.pool.pool ++ h))
          (sym (exit-running s.pool conn up)) (sym e) (released-perm conn s.pool.pool before after),
    )
Step-perm {s} stops running = absurd (ground (arith, shutdown-stops s.pool))

Reach-perm :
    {s t : System}
    → Reach s t
    → t.pool.shutdown ≡ false
    → (s.pool.shutdown ≡ false) × Perm (owned t) (owned s)
Reach-perm {s} here running = (running, Perm.refl (owned s))
Reach-perm (next r st) running =
    let (up, moved) = Step-perm st running in
    let (before, kept) = Reach-perm r up in (before, Perm.trans moved kept)

-- Whatever the order of the threads' steps, as long as the pool is not shut down the connections
-- that are idle or held are those that there were, each as often.
pub Reach-owned : {s t : System} → Reach s t → t.pool.shutdown ≡ false → Perm (owned t) (owned s)
Reach-owned r running = (Reach-perm r running).1

Step-Nodup : {s t : System} → Step s t → Nodup (owned s) → Nodup (owned t)
unfolding release_connection guard_exit shutdown
Step-Nodup {s} (acquires conn p e) d =
    let (_, taken, _) = got-front s.pool p conn e in
    Perm.nodup (Perm.symm (perm_middle p.pool s.held)) (subst (λ l. Nodup (l ++ s.held)) taken d)
Step-Nodup {s} (releases before after conn e) d =
    let d' : Nodup (s.pool.pool ++ (before ++ conn ∷ after)) =
      subst (λ h. Nodup (s.pool.pool ++ h)) e d in
    let moved = Perm.nodup (Perm.symm (released-perm conn s.pool.pool before after)) d' in
    elim (Bool-cases s.pool.shutdown) [
      | inl stopped ↦
          subst (λ (p : MysqlPool). Nodup (p.pool ++ (before ++ after)))
            (sym (exit-stopped s.pool conn stopped)) (dropped conn s.pool.pool before after moved)
      | inr up ↦
          subst (λ (p : MysqlPool). Nodup (p.pool ++ (before ++ after)))
            (sym (exit-running s.pool conn up)) moved
    ]
Step-Nodup {s} stops d = elim (shutdown-pool s.pool) [
  | inl e ↦ subst (λ l. Nodup (l ++ s.held)) (sym e) d
  | inr e ↦ subst (λ l. Nodup (l ++ s.held)) (sym e) (Nodup.of_append_right s.pool.pool d)
]

-- A connection is never held by two guards, nor idle while it is held, after a shutdown either.
pub Reach-Nodup : {s t : System} → Reach s t → Nodup (owned s) → Nodup (owned t)
Reach-Nodup here d = d
Reach-Nodup (next r st) d = Step-Nodup st (Reach-Nodup r d)

-- A thread waits for a connection only while the guards hold every connection that there was.
pub Reach-waits :
    {s t : System} → Reach s t → acquire_connection t.pool ≡ waits → Perm t.held (owned s)
unfolding acquire_connection
Reach-waits {s} {t} r e =
    let up : t.pool.shutdown ≡ false = ground arith in
    let dry : t.pool.pool ≡ [] = ground arith in
    subst (λ l. Perm (l ++ t.held) (owned s)) dry (Reach-owned r up)

-- A pool that is shut down and empty.
abbrev pub IsStopped : MysqlPool → Type 0
IsStopped p = (p.shutdown ≡ true) × (p.pool ≡ [])

Step-IsStopped : {s t : System} → Step s t → IsStopped s.pool → IsStopped t.pool
unfolding acquire_connection guard_exit shutdown
Step-IsStopped {s} (acquires conn p e) h = absurd (ground arith)
Step-IsStopped {s} (releases before after conn e) h = ground arith
Step-IsStopped {s} stops h = ground arith

Reach-IsStopped : {s t : System} → Reach s t → IsStopped s.pool → IsStopped t.pool
Reach-IsStopped here h = h
Reach-IsStopped (next r st) h = Step-IsStopped st (Reach-IsStopped r h)

shutdown-IsStopped : (p : MysqlPool) → p.shutdown ≡ false → IsStopped (shutdown p)
unfolding shutdown
shutdown-IsStopped p h = ground arith

-- From the first shutdown on, whatever the threads do, the pool stays empty and every acquisition
-- returns null at once.
pub shutdown_final :
    (s : System) {t : System}
    → s.pool.shutdown ≡ false
    → Reach (record { pool = shutdown s.pool; held = s.held }) t
    → (t.pool.pool ≡ []) × (acquire_connection t.pool ≡ null_connection)
unfolding acquire_connection
shutdown_final s {t} running r =
    let stopped = Reach-IsStopped r (shutdown-IsStopped s.pool running) in (stopped.1, rw stopped.0)
