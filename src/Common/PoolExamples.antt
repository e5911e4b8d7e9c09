-- ===== src/Common/PoolExamples.antt =====
-- The connection pools at concrete inputs.
use mathlib.Core.List.{Perm, Pairwise, Nodup, Nodup-cons, Mem, mem-cons, not-mem-nil}
use mathlib.Core.Logic.{∥∥₁_elim}
use mathlib.Core.HLevel.{⊥_prop}
use imsystem.Prelude.{
  ℕ, ◌+◌, ◌++◌, drop, true, some, List, [], ◌∷◌, ◌≡◌, refl, ap, ◌⊎◌, inl, inr, arith,
}
use imsystem.Prelude.Int.{pos}
use imsystem.Prelude.Texts.{Text, codes}
use imsystem.Common.Effect.{other_exception, returned, thrown}
use imsystem.Common.MysqlPool.{MysqlPool, new_pool, Driver, Settings, acquire_connection}
use imsystem.Common.MysqlPool.Leases.{Reach, here, next, acquires, Reach-owned, Reach-Nodup}
use imsystem.Common.MongoPool.{MongoDriver, redact_mongo_uri_for_log}
use imsystem.Common.MongoPool as Mongo
use imsystem.Common.Chars.Finding.{lacks}
use imsystem.Common.MongoPool.Logging.{Logs, Logged, initialize-secret}
use imsystem.Common.MongoPool.Redacting.{uri_of}
use imsystem.Common.Sql.{Sql, retried}
use imsystem.Common.Sql.Guards.{Holds, retried-held}

abbrev idle : List ℕ → MysqlPool
idle cs = record new_pool { pool = cs; initialized = true }

abbrev first_lease :
    (cs : List ℕ)
    → Reach (record { pool = idle (1 ∷ cs); held = [] }) (record { pool = idle cs; held = 1 ∷ [] })
unfolding acquire_connection
first_lease cs = next here (acquires 1 (idle cs) refl)

Reach-owned_example : Perm {A = ℕ} (2 ∷ 1 ∷ []) (1 ∷ 2 ∷ [])
Reach-owned_example = Reach-owned (first_lease (2 ∷ [])) refl

apart : Mem {A = ℕ} 1 (2 ∷ []) → ⊥
apart m = ∥∥₁_elim (mem-cons.0 m) ⊥_prop split
  where
    split : (◌≡◌ {A = ℕ} 1 2) ⊎ Mem {A = ℕ} 1 [] → ⊥
    split (inl e) = ground arith
    split (inr k) = not-mem-nil k

one_two-Nodup : Nodup {A = ℕ} (1 ∷ 2 ∷ [])
one_two-Nodup = Nodup-cons.1 (apart, Nodup-cons.1 (not-mem-nil, Pairwise.nil))

Reach-Nodup_example : Nodup {A = ℕ} (2 ∷ 1 ∷ [])
Reach-Nodup_example = Reach-Nodup (first_lease (2 ∷ [])) one_two-Nodup

-- A driver that numbers its connections.
abbrev driver : Driver ℕ
driver = record {
  connect = λ url user password w. (returned w, w + 1);
  set_schema = λ conn database w. (returned tt, w);
}

abbrev settings : Settings
settings = record {
  host = [];
  port = pos 3306;
  user = [];
  password = [];
  database = [];
  pool_size = pos 2;
}

-- A database whose world is the list of the connections that are held; each one is numbered by how
-- many there are, and every statement fails.
abbrev failing_sql : Sql (List ℕ) (Unit {0})
failing_sql = record {
  acquire = λ w. (some 7, 7 ∷ w);
  release = λ conn w. drop 1 w;
  execute_query = λ conn s ps w. (thrown other_exception, w);
  execute_update = λ conn s ps w. (thrown other_exception, w);
  get_uint64 = λ r c. 0;
  get_int = λ r c. pos 0;
  get_string = λ r c. [];
  sleep = λ n w. w;
}

failing_sql-Holds : Holds failing_sql (λ w. w)
failing_sql-Holds = record {
  acquired = λ w conn e. ap (λ c. c ∷ w) (ground arith);
  refused = λ w e. absurd (ground arith);
  released = λ conn w cs e. ap (drop 1) e;
  slept = λ n w. refl;
}

retried-held_example :
    (retried failing_sql (λ conn. failing_sql.execute_update conn "DELETE" []) []).1 ≡ []
retried-held_example =
    retried-held failing_sql (λ w. w) failing_sql-Holds
      (λ conn. failing_sql.execute_update conn "DELETE" []) (λ conn w. refl) []

-- A driver of MongoDB with one pool, over the log.
abbrev mongo_driver : MongoDriver (List Text)
mongo_driver = record {
  make_instance = λ w. (returned tt, w);
  make_pool = λ uri min_size max_size w. (returned 1, w);
  acquire = λ pool w. (returned pool, w);
  write_log = λ line w. w ++ line ∷ [];
}

mongo_driver-Logs : Logs mongo_driver (λ w. w)
mongo_driver-Logs = record {
  makes_instance = λ w. refl;
  makes_pool = λ uri a b w. refl;
  writes = λ line w. refl;
}

abbrev secret_uri : Text
secret_uri = uri_of (codes "bob") (codes "s3:cret") (codes "db")

initialize-secret_example :
    Logged mongo_driver
      (λ w. w)
      (uri_of (codes "bob") (codes "***") (codes "db"))
      secret_uri
      (pos 1)
      (pos 2)
      []
      (Mongo.initialize mongo_driver secret_uri (pos 1) (pos 2) Mongo.new_pool []).1
unfolding lacks codes
initialize-secret_example =
    initialize-secret mongo_driver (λ w. w) mongo_driver-Logs (codes "bob") (codes "s3:cret")
      (codes "db") (pos 1) (pos 2) Mongo.new_pool [] refl refl refl
