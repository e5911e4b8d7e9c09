-- ===== src/Common/Sql.antt =====
-- What the DAOs use of MySQL: the connection pool, behind its guard, and the connector's prepared
-- statements. The server is a parameter; a statement is its text with the values that are bound.
pub mod Guards
use imsystem.Prelude.{ℕ, Bool, true, false, Option, none, some, List, [], ◌∷◌, String}
use imsystem.Prelude.Int.{ℤ, pos}
use imsystem.Prelude.Texts.{Text, codes}
use imsystem.Common.Effect.{Exn, std_exception, Outcome, returned, thrown, Io, ◌>>=◌, ◌>>◌}
use imsystem.Common.Retry.{execute_with_retry}

pub data Param : Type 0 where
  text : Text → Param
  uint64 : ℕ → Param
  int : ℤ → Param

-- The rows that `next` delivers, and what it throws behind them, if it throws.
pub record ResultSet (Row : Type 0) : Type 0 where
  pub rows : List Row
  pub failure : Option Exn

-- The columns that are read are those of the statement, and reading them does not throw.
pub record Sql (W Row : Type 0) : Type 0 where
  -- `AcquireConnection` once it returns, none being null, and `ReleaseConnection`.
  pub acquire : W → Option ℕ × W
  pub release : ℕ → W → W
  pub execute_query : ℕ → String → List Param → Io W (ResultSet Row)
  pub execute_update : ℕ → String → List Param → Io W (Unit {0})
  pub get_uint64 : Row → String → ℕ
  pub get_int : Row → String → ℤ
  pub get_string : Row → String → Text
  -- `std::this_thread::sleep_for`
  pub sleep : ℕ → W → W

abbrev pub no_connection : Exn
no_connection = std_exception (codes "Failed to get DB connection")

module _ {W Row : Type 0} (sql : Sql W Row) where
  abbrev pub leave : {A : Type 0} → ℕ → Outcome A × W → Outcome A × W
  leave conn (r, w) = (r, sql.release conn w)

  abbrev pub entered : {A : Type 0} → (ℕ → Io W A) → Option ℕ × W → Outcome A × W
  entered body (none, w) = (thrown no_connection, w)
  entered body (some conn, w) = leave conn (body conn w)

  -- The scope of a `MysqlConnectionGuard`: without a connection the body throws, and the destructor
  -- gives a connection back whether the body returned or threw.
  unfoldable pub with_guard : {A : Type 0} → (ℕ → Io W A) → Io W A
  with_guard body w = entered body (sql.acquire w)

  -- `ExecuteWithRetry(3, 500, …)` around such a scope.
  unfoldable pub retried : {A : Type 0} → (ℕ → Io W A) → Io W A
  retried body = execute_with_retry sql.sleep (pos 3) 500 (with_guard body)

module _ {W Row : Type 0} where
  abbrev pub first_row : List Row → Option Exn → Io W (Option Row)
  first_row (r ∷ rs) failure w = (returned (some r), w)
  first_row [] none w = (returned none, w)
  first_row [] (some e) w = (thrown e, w)

  -- `if (res->next())`
  abbrev pub next : ResultSet Row → Io W (Option Row)
  next res = first_row res.rows res.failure

-- Locals that the retried function captures by reference stand beside the world: a throw leaves
-- them as they are, and the next attempt goes on from there.
module _ {L W : Type 0} where
  abbrev pub beside : {A : Type 0} → L → Outcome A × W → Outcome A × (L × W)
  beside l (r, w) = (r, (l, w))

  abbrev pub modify : (L → L) → Io (L × W) (Unit {0})
  modify f (l, w) = (returned tt, (f l, w))

  abbrev pub fail_with : Option Exn → Io (L × W) (Unit {0})
  fail_with none v = (returned tt, v)
  fail_with (some e) v = (thrown e, v)

  abbrev pub with_locals : {Row : Type 0} → Sql W Row → Sql (L × W) Row
  with_locals sql = record {
    acquire = λ (l, w). let (c, w') = sql.acquire w in (c, (l, w'));
    release = λ conn (l, w). (l, sql.release conn w);
    execute_query = λ conn s ps (l, w). beside l (sql.execute_query conn s ps w);
    execute_update = λ conn s ps (l, w). beside l (sql.execute_update conn s ps w);
    get_uint64 = sql.get_uint64;
    get_int = sql.get_int;
    get_string = sql.get_string;
    sleep = λ n (l, w). (l, sql.sleep n w);
  }
