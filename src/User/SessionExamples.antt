-- ===== src/User/SessionExamples.antt =====
-- The token manager over a store of several keys.
use imsystem.Prelude.{
  ℕ, ◌+◌, ltb, Option, none, some, List, [], ◌∷◌, ◌≡◌, refl, arith, if◌then◌else◌,
}
use imsystem.Prelude.Int.{pos}
use imsystem.Prelude.Texts.{Text, codes, text_eq}
use imsystem.Common.Effect.{returned}
use imsystem.Common.RedisClient.{Redis, connect}
use imsystem.Common.Chars.Numbers.{stoi}
use imsystem.Common.Config.{load, get_int, lookup}
use imsystem.Common.SampleFile.{sample_file, sample, load-sample}
use imsystem.Common.MysqlPool.{MysqlPool, Driver, new_pool, initialize, fill}
use imsystem.Common.Startup.{init_auth, mysql_settings}
use imsystem.User.Startup.{start, Ready, start-Ready}
use imsystem.User.TokenManager
use imsystem.User.TokenManager.{TokenHost}
use imsystem.User.TokenManager.Table.{
  Session, Operation, generate, verify, delete_for, Serves, lives, sessions, perform_all, simulated,
  perform_all-refines,
}

-- The values with the seconds of their ends, and the time, which the clock moves on.
record Store : Type 0 where
  entries : Text → Option Session
  time : ℕ

abbrev written : Text → Option Session → Store → Store
written key v store = record store {
  entries = λ other. if text_eq key other then v else store.entries other;
}

abbrev is_there : ℕ → Option Session → ℕ
is_there now none = 0
is_there now (some v) = if ltb now v.end then 1 else 0

abbrev until : Text → ℕ → Session
until v at = record { token = v; end = at }

abbrev redis : Redis Store
redis = record {
  open_client = λ options size w. (returned tt, w);
  ping = λ w. (returned (codes "PONG"), w);
  set_expiring =
      λ key v seconds w. (returned tt, written key (some (until v (w.time + seconds))) w);
  set_plain = λ key v w. (returned tt, w);
  get_value = λ key w. (returned none, w);
  del = λ key w. (returned (is_there w.time (w.entries key)), written key none w);
}

abbrev host : TokenHost Store
host = record {
  redis = redis;
  clock = λ w. (pos w.time, record w { time = w.time + 1 });
  random = λ w. (1000, w);
}

abbrev value : Text → Store → Option Session
value key store = store.entries key

abbrev now : Store → ℕ
now store = store.time

is_there-lives : (at : ℕ) (v : Option Session) → ltb 0 (is_there at v) ≡ lives at v
is_there-lives at none = refl
is_there-lives at (some v) = ground arith

host-Serves : Serves host value now
host-Serves = record {
  sets = λ key v seconds w. (_, refl, λ other. refl);
  deletes = λ key w. (_, _, refl, is_there-lives w.time (w.entries key), λ other. refl);
  ticks = λ key w. refl;
  draws = λ key w. refl;
}

abbrev operations : List Operation
operations = generate 3 (pos 1) ∷ generate 4 (pos 1) ∷ verify 4 (codes "forged") ∷ delete_for 3 ∷ []

abbrev empty : Store
empty = record { entries = λ key. none; time = 100 }

abbrev no_session : ℕ → Option Session
no_session u = none

perform_all-refines_example :
    ((perform_all host value now operations empty).0
      ≡ (simulated host value now operations empty no_session).0)
    × (sessions host value now (perform_all host value now operations empty).1
        ≡ (simulated host value now operations empty no_session).1)
perform_all-refines_example = perform_all-refines host value now host-Serves operations empty

-- A MySQL driver whose connections are all the same.
abbrev driver : Driver Store
driver = record {
  connect = λ url user password w. (returned 1, w);
  set_schema = λ conn database w. (returned tt, w);
}

abbrev pool : MysqlPool
pool = (init_auth driver sample new_pool empty).0.1

it_starts : (start driver host (some sample_file) new_pool empty).0 ≡ some pool
unfolding start init_auth initialize fill mysql_settings get_int lookup TokenManager.init connect
    text_eq codes stoi
it_starts = rw load-sample refl

start-Ready_example : Ready driver host (load (some sample_file)) empty pool
start-Ready_example =
    start-Ready driver host (some sample_file) new_pool pool empty refl refl it_starts
