-- ===== src/Common/Startup/Started.antt =====
-- What a service that has started stands on.
use imsystem.Prelude.{
  ℕ, Bool, true, false, none, [], ◌≡◌, ◌≢◌, refl, subst, sym, length, ◌<◌, arith,
}
use imsystem.Prelude.Int.{ℤ, pos}
use imsystem.Prelude.Texts.{Text, codes}
use imsystem.Common.Effect.{Outcome, std_exception, other_exception, returned, thrown}
use imsystem.Common.Config.{ConfigMap, get_int}
use imsystem.Common.MysqlPool.{MysqlPool, Driver}
use imsystem.Common.MysqlPool as Mysql
use imsystem.Common.MysqlPool.Starting.{
  Started, complete, failed, size_of, HasSize, size_of-HasSize, initialize-Started,
}
use imsystem.Common.MongoPool.{MongoPool, MongoDriver, as_size, made_pool, made_instance}
use imsystem.Common.MongoPool as Mongo
use imsystem.Common.Startup.{mysql_settings, init_message, init_mongo, mongo_result}

-- Both pools are there: the MySQL pool has the size of its entry, and there is a MongoDB pool.
pub record Ready (m : ConfigMap) (s : MysqlPool × MongoPool) : Type 0 where
  pub size : HasSize (get_int m (codes "dependencies.mysql.pool_size") (pos 10)) (length s.0.pool)
  pub some_left : 0 < length s.0.pool
  pub there : s.1.pool ≢ none

module _ {W : Type 0} (driver : Driver W) (mongo : MongoDriver W) where
  made-some :
      (uri : Text) (p : MongoPool) (r : Outcome ℕ × W)
      → (made_pool mongo uri p r).0.0 ≡ true
      → (made_pool mongo uri p r).0.1.pool ≢ none
  made-some uri p (returned c, w) h e = cc
  made-some uri p (thrown (std_exception what), w) h e = absurd (ground arith)
  made-some uri p (thrown other_exception, w) h e = absurd (ground arith)

  mongo-some :
      (uri : Text) (a b : ℤ) (q : MongoPool) (w : W)
      → q.initialized ≡ false
      → (Mongo.initialize mongo uri a b q w).0.0 ≡ true
      → (Mongo.initialize mongo uri a b q w).0.1.pool ≢ none
  unfolding Mongo.initialize
  mongo-some uri a b q w fresh = rw fresh (made (mongo.make_instance w))
    where
      opened : MongoPool
      opened = record q { initialized = true }

      made :
          (r : Outcome (Unit {0}) × W)
          → (made_instance mongo uri a b opened r).0.0 ≡ true
          → (made_instance mongo uri a b opened r).0.1.pool ≢ none
      made (returned done, u) h k =
          made-some uri _ (mongo.make_pool uri (as_size a) (as_size b) u) h k
      made (thrown (std_exception what), u) h k = absurd (ground arith)
      made (thrown other_exception, u) h k = absurd (ground arith)

  result-Ready :
      (m : ConfigMap) (p : MysqlPool) (r : (Bool × MongoPool) × W)
      → length p.pool ≡ size_of (mysql_settings m).pool_size
      → 0 < length p.pool
      → (r.0.0 ≡ true → r.0.1.pool ≢ none)
      → (mongo_result driver mongo p r).0.0 ≡ true
      → Ready m (mongo_result driver mongo p r).0.1
  unfolding mysql_settings
  result-Ready m p ((true, q), u) size some_left there h = record {
    size =
        subst (HasSize (mysql_settings m).pool_size) (sym size)
          (size_of-HasSize (mysql_settings m).pool_size);
    some_left = some_left;
    there = there refl;
  }
  result-Ready m p ((false, q), u) size some_left there h = absurd (ground arith)

  mongo-Ready :
      (m : ConfigMap) (q : MongoPool) (r : (Bool × MysqlPool) × W)
      → q.initialized ≡ false
      → Started (mysql_settings m) r.0
      → (init_mongo driver mongo m q r).0.0 ≡ true
      → Ready m (init_mongo driver mongo m q r).0.1
  mongo-Ready m q (r, u) fresh (complete p size some_left i) h =
      result-Ready m p (Mongo.initialize mongo _ _ _ q u) size some_left
        (mongo-some _ _ _ q u fresh) h
  mongo-Ready m q (r, u) fresh (failed p e i) h = absurd (ground arith)

  -- If the message service starts with fresh pools, both pools are ready: the MySQL pool has as many
  -- connections as its entry says, or 10 if that is not positive or missing, and there is a MongoDB
  -- pool.
  pub init_message-Ready :
      (m : ConfigMap) (p : MysqlPool) (q : MongoPool) (w : W)
      → p.initialized ≡ false
      → p.pool ≡ []
      → q.initialized ≡ false
      → (init_message driver mongo m p q w).0.0 ≡ true
      → Ready m (init_message driver mongo m p q w).0.1
  unfolding init_message
  init_message-Ready m p q w fresh empty fresh' =
      mongo-Ready m q (Mysql.initialize driver (mysql_settings m) p w) fresh'
        (initialize-Started driver (mysql_settings m) p w fresh empty)
