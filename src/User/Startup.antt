-- ===== src/User/Startup.antt =====
-- user/main.cpp: the start of the user service up to its gRPC server.
use imsystem.Prelude.{
  Bool, true, false, not, Option, none, some, [], ◌≡◌, refl, subst, sym, length, ◌<◌, arith,
  if◌then◌else◌,
}
use imsystem.Prelude.Int.{pos}
use imsystem.Prelude.Texts.{Text, codes}
use imsystem.Common.Config.{ConfigMap, load, get_string, get_int}
use imsystem.Common.MysqlPool.{MysqlPool, Driver}
use imsystem.Common.MysqlPool as Mysql
use imsystem.Common.MysqlPool.Starting.{
  Started, complete, failed, size_of, HasSize, size_of-HasSize, initialize-Started,
}
use imsystem.Common.Startup.{mysql_settings, succeeded, init_auth}
use imsystem.User.TokenManager.{TokenHost}
use imsystem.User.TokenManager

module _ {W : Type 0} (driver : Driver W) (tokens : TokenHost W) where
  -- The pool with which the service goes on, none if `main` returns early.
  abbrev pub going_on : (Bool × MysqlPool) × W → Option MysqlPool × W
  going_on ((ok, p), w) = if not ok then (none, w) else (some p, w)

  abbrev pub connected : ConfigMap → MysqlPool → Bool × W → Option MysqlPool × W
  connected m p (ok, w) = if not ok then (none, w) else going_on (init_auth driver m p w)

  abbrev pub init_tokens : ConfigMap → W → Bool × W
  init_tokens m =
      TokenManager.init tokens (get_string m (codes "dependencies.redis.host") (codes "127.0.0.1"))
        (get_int m (codes "dependencies.redis.port") (pos 6379))

  abbrev pub loaded : Bool × ConfigMap → MysqlPool → W → Option MysqlPool × W
  loaded (ok, m) p w = if not ok then (none, w) else connected m p (init_tokens m w)

  -- The file is none if it cannot be opened.
  unfoldable pub start : Option Text → MysqlPool → W → Option MysqlPool × W
  start file p w = loaded (load file) p w

  going_on-Started :
      (m : ConfigMap) (q : MysqlPool) (r : (Bool × MysqlPool) × W)
      → Started (mysql_settings m) r.0
      → (going_on (succeeded driver r)).0 ≡ some q
      → (length q.pool ≡ size_of (mysql_settings m).pool_size) × (0 < length q.pool)
  going_on-Started m q (r, u) (complete p size some_left i) e =
      subst
        (λ (p' : MysqlPool).
          (length p'.pool ≡ size_of (mysql_settings m).pool_size) × (0 < length p'.pool))
        {x = p} {y = q} (ground arith) (size, some_left)
  going_on-Started m q (r, u) (failed p empty i) e = absurd (ground arith)

  connected-Started :
      (m : ConfigMap) (p q : MysqlPool) (r : Bool × W)
      → p.initialized ≡ false
      → p.pool ≡ []
      → (connected m p r).0 ≡ some q
      → (r.0 ≡ true) × (length q.pool ≡ size_of (mysql_settings m).pool_size) × (0 < length q.pool)
  unfolding init_auth
  connected-Started m p q (true, u) fresh empty e =
      let (size, some_left) =
        going_on-Started m q (Mysql.initialize driver (mysql_settings m) p u)
          (initialize-Started driver (mysql_settings m) p u fresh empty) e in
      (refl, size, some_left)
  connected-Started m p q (false, u) fresh empty e = absurd (ground arith)

  -- What a user service stands on that went on to its gRPC server: its configuration file was read,
  -- Redis answered, and the MySQL pool has the size of the entry `dependencies.mysql.pool_size`.
  pub record Ready (c : Bool × ConfigMap) (w : W) (q : MysqlPool) : Type 0 where
    pub configured : c.0 ≡ true
    pub redis : (init_tokens c.1 w).0 ≡ true
    pub size : HasSize (get_int c.1 (codes "dependencies.mysql.pool_size") (pos 10)) (length q.pool)
    pub some_left : 0 < length q.pool

  loaded-Ready :
      (c : Bool × ConfigMap) (p q : MysqlPool) (w : W)
      → p.initialized ≡ false
      → p.pool ≡ []
      → (loaded c p w).0 ≡ some q
      → Ready c w q
  unfolding mysql_settings
  loaded-Ready (true, m) p q w fresh empty e =
      let (redis, size, some_left) = connected-Started m p q (init_tokens m w) fresh empty e in
      record {
        configured = refl;
        redis = redis;
        size =
            subst (HasSize (mysql_settings m).pool_size) (sym size)
              (size_of-HasSize (mysql_settings m).pool_size);
        some_left = some_left;
      }
  loaded-Ready (false, m) p q w fresh empty e = absurd (ground arith)

  -- If the user service, with a fresh pool, goes on to its gRPC server, then its configuration file
  -- was read, Redis answered, and the MySQL pool has as many connections as the number that is read
  -- of the entry `dependencies.mysql.pool_size`, or 10 if it is not positive or there is none.
  pub start-Ready :
      (file : Option Text) (p q : MysqlPool) (w : W)
      → p.initialized ≡ false
      → p.pool ≡ []
      → (start file p w).0 ≡ some q
      → Ready (load file) w q
  unfolding start
  start-Ready file = loaded-Ready (load file)
