-- ===== src/Common/MysqlPool.antt =====
-- common/src/db/mysql_pool.h and mysql_pool.cpp. A connection is a number; the driver acts on a
-- world that is a parameter. Each function under the mutex is one step.
pub mod Starting
pub mod Leases
use imsystem.Prelude.{
  ℕ, zero, suc, ◌+◌, Bool, true, false, Option, none, some, List, [], ◌∷◌, ◌++◌, if◌then◌else◌,
  is_empty, ◌||◌,
}
use imsystem.Prelude.Int.{ℤ, pos, negsuc, ltb_ℤ, pos_part}
use imsystem.Prelude.Texts.{Text, codes}
use imsystem.Common.Chars.Numbers.{to_string}
use imsystem.Common.Effect.{Exn, Outcome, returned, thrown, Io, ◌>>=◌, ◌>>◌}

pub record MysqlPool : Type 0 where
  pub host : Text
  pub port : ℤ
  pub user : Text
  pub password : Text
  pub database : Text
  pub pool_size : ℤ
  -- The front of the queue is the head.
  pub pool : List ℕ
  pub initialized : Bool
  pub shutdown : Bool

-- The members before anything is called.
abbrev pub new_pool : MysqlPool
new_pool = record {
  host = [];
  port = pos 3306;
  user = [];
  password = [];
  database = [];
  pool_size = pos 10;
  pool = [];
  initialized = false;
  shutdown = false;
}

-- What a stream writes for an `int`.
unfoldable pub show_int : ℤ → Text
show_int (pos n) = to_string n
show_int (negsuc n) = b'-' ∷ to_string (suc n)

unfoldable pub url : Text → ℤ → Text
url host port = codes "tcp://" ++ (host ++ b':' ∷ show_int port)

pub record Driver (W : Type 0) : Type 0 where
  -- What they throw is a `std::exception`. `driver_->connect(url, user, password)` and `conn->setSchema(database)`
  pub connect : Text → Text → Text → Io W ℕ
  pub set_schema : ℕ → Text → Io W (Unit {0})

pub record Settings : Type 0 where
  pub host : Text
  pub port : ℤ
  pub user : Text
  pub password : Text
  pub database : Text
  pub pool_size : ℤ

module _ {W : Type 0} (driver : Driver W) where
  -- One round of the loop: a connection with its schema set.
  abbrev pub open_connection : MysqlPool → Io W ℕ
  open_connection p = do
    conn ← driver.connect (url p.host p.port) p.user p.password
    driver.set_schema conn p.database
    λ w. (returned conn, w)

  abbrev pub after_open :
      (List ℕ → W → (Bool × List ℕ) × W) → List ℕ → Outcome ℕ × W → (Bool × List ℕ) × W
  after_open next queue (returned conn, w) = next (queue ++ conn ∷ []) w
  after_open next queue (thrown e, w) = ((false, queue), w)

  -- The loop over i, by the rounds that are left: whether it ended without a throw, and the queue.
  unfoldable pub fill : ℕ → MysqlPool → List ℕ → W → (Bool × List ℕ) × W
  fill zero p queue w = ((true, queue), w)
  fill (suc n) p queue w = after_open (λ queue' w'. fill n p queue' w') queue (open_connection p w)

  abbrev pub filled : MysqlPool → (Bool × List ℕ) × W → (Bool × MysqlPool) × W
  filled p ((true, queue), w) = ((true, record p { pool = queue }), w)
  filled p ((false, queue), w) = ((false, record p { pool = []; initialized = false }), w)

  abbrev pub configured : Settings → MysqlPool → MysqlPool
  configured s p = record p {
    host = s.host;
    port = s.port;
    user = s.user;
    password = s.password;
    database = s.database;
    pool_size = if ltb_ℤ (pos 0) s.pool_size then s.pool_size else pos 10;
    initialized = true;
  }

  -- A pool that has been initialized is left as it is.
  unfoldable pub initialize : Settings → MysqlPool → W → (Bool × MysqlPool) × W
  initialize s p w =
      if p.initialized
      then ((true, p), w)
      else filled (configured s p)
          (fill (pos_part (configured s p).pool_size) (configured s p) p.pool w)

-- What a thread gets from `AcquireConnection`: it waits while the pool is empty and not shut down.
pub data Acquired : Type 0 where
  waits : Acquired
  null_connection : Acquired
  got : ℕ → MysqlPool → Acquired

abbrev pub front : MysqlPool → List ℕ → Acquired
front p [] = waits
front p (conn ∷ rest) = got conn (record p { pool = rest })

unfoldable pub acquire_connection : MysqlPool → Acquired
acquire_connection p = if p.shutdown then null_connection else front p p.pool

-- A null pointer, or a pool that is shut down, changes nothing.
unfoldable pub release_connection : Option ℕ → MysqlPool → MysqlPool
release_connection none p = p
release_connection (some conn) p = if p.shutdown then p else record p { pool = p.pool ++ conn ∷ [] }

unfoldable pub shutdown : MysqlPool → MysqlPool
shutdown p = if p.shutdown then p else record p { pool = []; shutdown = true }

-- `MysqlConnectionGuard` with its pool: the constructor acquires, the destructor releases what the
-- constructor got, if it got a connection.
unfoldable pub guard_exit : Option ℕ → MysqlPool → MysqlPool
unfolding release_connection
guard_exit none p = p
guard_exit (some conn) p = release_connection (some conn) p
