-- ===== src/Message/Startup.antt =====
-- message/main.cpp: the start of the message service up to its gRPC server.
use imsystem.Prelude.{
  Bool, true, false, not, Option, none, some, [], ◌≡◌, refl, subst, if◌then◌else◌, arith,
}
use imsystem.Prelude.Texts.{Text}
use imsystem.Common.Config.{ConfigMap, load}
use imsystem.Common.MongoPool.{MongoPool, MongoDriver}
use imsystem.Common.MysqlPool.{MysqlPool, Driver}
use imsystem.Common.Startup.{init_message}
use imsystem.Common.Startup.Started.{Ready, init_message-Ready}

module _ {W : Type 0} (driver : Driver W) (mongo : MongoDriver W) where
  -- The pools with which the service goes on, none if `main` returns early.
  abbrev pub going_on : (Bool × (MysqlPool × MongoPool)) × W → Option (MysqlPool × MongoPool) × W
  going_on ((ok, pools), w) = if not ok then (none, w) else (some pools, w)

  abbrev pub loaded :
      Bool × ConfigMap → MysqlPool → MongoPool → W → Option (MysqlPool × MongoPool) × W
  loaded (ok, m) p q w = if not ok then (none, w) else going_on (init_message driver mongo m p q w)

  -- The file is none if it cannot be opened.
  unfoldable pub start :
      Option Text → MysqlPool → MongoPool → W → Option (MysqlPool × MongoPool) × W
  start file p q w = loaded (load file) p q w

  going_on-Ready :
      (m : ConfigMap) (pools : MysqlPool × MongoPool) (r : (Bool × (MysqlPool × MongoPool)) × W)
      → (r.0.0 ≡ true → Ready m r.0.1)
      → (going_on r).0 ≡ some pools
      → Ready m pools
  going_on-Ready m pools ((true, s), u) h e = subst (Ready m) (ground arith) (h refl)
  going_on-Ready m pools ((false, s), u) h e = absurd (ground arith)

  loaded-Ready :
      (c : Bool × ConfigMap) (p : MysqlPool) (q : MongoPool) (w : W) (pools : MysqlPool × MongoPool)
      → p.initialized ≡ false
      → p.pool ≡ []
      → q.initialized ≡ false
      → (loaded c p q w).0 ≡ some pools
      → (c.0 ≡ true) × Ready c.1 pools
  loaded-Ready (true, m) p q w pools fresh empty fresh' e = (
    refl,
    going_on-Ready m pools (init_message driver mongo m p q w)
        (init_message-Ready driver mongo m p q w fresh empty fresh') e,
  )
  loaded-Ready (false, m) p q w pools fresh empty fresh' e = absurd (ground arith)

  -- If the message service, with fresh pools, goes on to its gRPC server, then its configuration
  -- file was read and both pools are ready: the MySQL pool has as many connections as the number that
  -- is read of the entry `dependencies.mysql.pool_size`, or 10 if it is not positive or there is
  -- none, and there is a MongoDB pool.
  pub start_complete :
      (file : Option Text) (p : MysqlPool) (q : MongoPool) (w : W) (pools : MysqlPool × MongoPool)
      → p.initialized ≡ false
      → p.pool ≡ []
      → q.initialized ≡ false
      → (start file p q w).0 ≡ some pools
      → ((load file).0 ≡ true) × Ready (load file).1 pools
  unfolding start
  start_complete file = loaded-Ready (load file)
