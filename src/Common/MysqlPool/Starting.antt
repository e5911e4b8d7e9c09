-- ===== src/Common/MysqlPool/Starting.antt =====
-- What `Initialize` leaves behind.
use imsystem.Prelude.{
  ℕ, zero, suc, ◌+◌, ◌<◌, Bool, true, false, List, [], ◌∷◌, ◌++◌, ◌≡◌, refl, sym, arith, length,
  length-append, if◌then◌else◌, subst,
}
use imsystem.Prelude.Int.{ℤ, pos, negsuc, pos_part, ltb_ℤ}
use imsystem.Common.Effect.{Outcome, returned, thrown}
use imsystem.Common.MysqlPool.{
  MysqlPool, Driver, Settings, configured, open_connection, after_open, fill, filled, initialize,
  shutdown, acquire_connection, null_connection,
}

-- The size that a pool is given: the one that is asked for, if it is positive, and else 10.
abbrev pub size_of : ℤ → ℕ
size_of n = if ltb_ℤ (pos 0) n then pos_part n else 10

-- A pool of the size that was asked for, if that is positive, and else of 10 connections.
abbrev pub HasSize : ℤ → ℕ → Type 0
HasSize (pos (suc n)) k = k ≡ suc n
HasSize _ k = k ≡ 10

pub size_of-HasSize : (z : ℤ) → HasSize z (size_of z)
size_of-HasSize (pos zero) = refl
size_of-HasSize (pos (suc n)) = ground arith
size_of-HasSize (negsuc n) = ground arith

-- All connections are there, and each is used once; or none is, and the pool may be started again.
pub data Started (s : Settings) : Bool × MysqlPool → Type 0 where
  complete :
      (p : MysqlPool)
      → length p.pool ≡ size_of s.pool_size
      → 0 < length p.pool
      → p.initialized ≡ true
      → Started s (true, p)
  failed : (p : MysqlPool) → p.pool ≡ [] → p.initialized ≡ false → Started s (false, p)

module _ {W : Type 0} (driver : Driver W) where
  -- The queue of a loop that ended has one more connection for each round.
  Fills : ℕ → List ℕ → Bool × List ℕ → Type 0
  Fills n queue (true, q) = length q ≡ length queue + n
  Fills n queue (false, q) = Unit {0}

  fill-Fills :
      (n : ℕ) (p : MysqlPool) (queue : List ℕ) (w : W) → Fills n queue (fill driver n p queue w).0
  unfolding fill Fills
  fill-Fills zero p queue w = omega arith
  fill-Fills (suc n) p queue w = opened (open_connection driver p w) (λ q v. fill-Fills n p q v)
    where
      opened :
          (r : Outcome ℕ × W)
          → ((q : List ℕ) (v : W) → Fills n q (fill driver n p q v).0)
          → Fills
              (suc n)
              queue
              (after_open driver (λ queue' w'. fill driver n p queue' w') queue r).0
      opened (thrown e, v) ih = tt
      opened (returned c, v) ih = longer (fill driver n p (queue ++ c ∷ []) v).0 (ih _ v)
        where
          longer : (r : Bool × List ℕ) → Fills n (queue ++ c ∷ []) r → Fills (suc n) queue r
          longer (true, q) h = omega (arith, length-append queue (c ∷ []))
          longer (false, q) h = tt

  filled-Started :
      (s : Settings) (p : MysqlPool) (r : (Bool × List ℕ) × W)
      → p.pool ≡ []
      → Fills (pos_part (configured driver s p).pool_size) [] r.0
      → Started s (filled driver (configured driver s p) r).0
  unfolding Fills
  filled-Started s p ((true, q), w) e h =
      complete (record (configured driver s p) { pool = q }) (ground arith) (ground arith) refl
  filled-Started s p ((false, q), w) e h = failed _ refl refl

  -- `Initialize` of a fresh pool fills it with as many connections as its size says, at least one,
  -- or, if the driver throws, leaves it empty and not initialized.
  pub initialize-Started :
      (s : Settings) (p : MysqlPool) (w : W)
      → p.initialized ≡ false
      → p.pool ≡ []
      → Started s (initialize driver s p w).0
  unfolding initialize
  initialize-Started s p w fresh empty = rw fresh (
      filled-Started s p
        (fill driver (pos_part (configured driver s p).pool_size) (configured driver s p) p.pool w)
        empty
        (subst (λ q. Fills n [] (fill driver n (configured driver s p) q w).0) (sym empty)
          (fill-Fills n (configured driver s p) [] w)))
    where
      n : ℕ
      n = pos_part (configured driver s p).pool_size

  -- After the shutdown of a pool that was initialized and running, `Initialize` still returns
  -- true, and opens nothing: the pool hands out null.
  pub initialize-after_shutdown :
      (s : Settings) (p : MysqlPool) (w : W)
      → p.initialized ≡ true
      → p.shutdown ≡ false
      → (initialize driver s (shutdown p) w ≡ ((true, shutdown p), w))
        × (acquire_connection (shutdown p) ≡ null_connection)
  unfolding initialize shutdown acquire_connection
  initialize-after_shutdown s p w started running = ground arith
