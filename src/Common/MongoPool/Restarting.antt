-- ===== src/Common/MongoPool/Restarting.antt =====
-- A pool that was shut down and is initialized again.
use imsystem.Prelude.{ℕ, true, false, none, ◌≡◌, refl}
use imsystem.Prelude.Int.{ℤ}
use imsystem.Prelude.Texts.{Text}
use imsystem.Common.Effect.{Outcome, std_exception, other_exception, returned, thrown}
use imsystem.Common.MongoPool.{
  MongoPool, MongoDriver, made_pool, made_instance, initialize, not_ready, get_connection, shutdown,
}

module _ {W : Type 0} (driver : MongoDriver W) where
  -- Once a running pool was shut down, no connection is got from it any more: whatever the next
  -- `Initialize` does and returns, the pool still counts as shut down, and a request throws.
  pub initialize-get_connection :
      (uri : Text) (min_size max_size : ℤ) (p : MongoPool) (w v : W)
      → p.shutdown ≡ false
      → get_connection driver (initialize driver uri min_size max_size (shutdown p) w).0.1 v
        ≡ (thrown (not_ready driver), v)
  unfolding initialize get_connection shutdown
  initialize-get_connection uri min_size max_size p w v up = rw up (made (driver.make_instance w))
    where
      opened : MongoPool
      opened = record { instance_made = false; pool = none; initialized = true; shutdown = true }

      pooled :
          (r : Outcome ℕ × W)
          → get_connection driver
              (made_pool driver uri (record opened { instance_made = true }) r).0.1
              v
            ≡ (thrown (not_ready driver), v)
      pooled (returned c, u) = refl
      pooled (thrown (std_exception what), u) = refl
      pooled (thrown other_exception, u) = refl

      made :
          (r : Outcome (Unit {0}) × W)
          → get_connection driver (made_instance driver uri min_size max_size opened r).0.1 v
            ≡ (thrown (not_ready driver), v)
      made (returned done, u) = pooled _
      made (thrown (std_exception what), u) = refl
      made (thrown other_exception, u) = refl
