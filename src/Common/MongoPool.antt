-- ===== src/Common/MongoPool.antt =====
-- common/src/db/mongo_pool.h and mongo_pool.cpp. The driver is a parameter; a client pool of the
-- driver is a number.
pub mod Redacting
pub mod Logging
pub mod Restarting
use imsystem.Prelude.{
  ℕ, ◌+◌, ◌-◌, ◌^◌, suc, Bool, true, false, not, ◌||◌, Option, none, some, List, [], ◌∷◌, ◌++◌, ltb,
  length, take, drop, if◌then◌else◌,
}
use imsystem.Prelude.Int.{ℤ}
use imsystem.Prelude.Texts.{Text, codes}
use imsystem.Common.Chars.{find_char, find_from, starts_with}
use imsystem.Common.Effect.{Exn, std_exception, other_exception, Outcome, returned, thrown, Io}

abbrev pub scheme : Text
scheme = codes "mongodb://"

-- `out.replace(colon + 1, at - colon - 1, "***")` where both were found in this order.
abbrev pub replaced : Text → Option ℕ → Option ℕ → Text
replaced uri none colon = uri
replaced uri (some at) none = uri
replaced uri (some at) (some colon) =
    if ltb colon at
    then take (colon + 1) uri ++ (codes "***" ++ drop (colon + 1 + (at - colon - 1)) uri)
    else uri

unfoldable pub redact_mongo_uri_for_log : Text → Text
redact_mongo_uri_for_log uri =
    if not (starts_with uri scheme)
    then codes "<uri>"
    else replaced uri (find_char b'@' uri) (find_from b':' (length scheme) uri)

pub record MongoPool : Type 0 where
  pub instance_made : Bool
  pub pool : Option ℕ
  pub initialized : Bool
  pub shutdown : Bool

abbrev pub new_pool : MongoPool
new_pool = record { instance_made = false; pool = none; initialized = false; shutdown = false }

pub record MongoDriver (W : Type 0) : Type 0 where
  pub make_instance : Io W (Unit {0})
  -- The pool with its URI and its smallest and largest size. What the two constructors throw is a
  -- `std::exception`.
  pub make_pool : Text → ℕ → ℕ → Io W ℕ
  pub acquire : ℕ → Io W ℕ
  -- A line of the log.
  pub write_log : Text → W → W

-- The conversion of an `int` to `size_t`.
abbrev pub as_size : ℤ → ℕ
as_size (ℤ.pos n) = n
as_size (ℤ.negsuc n) = 2 ^ 64 - suc n

module _ {W : Type 0} (driver : MongoDriver W) where
  abbrev pub failed : MongoPool → Exn → W → (Bool × MongoPool) × W
  failed p (std_exception what) w = (
    (false, record p { initialized = false }),
    driver.write_log (codes "[MongoConnectionPool] Initialize failed: " ++ what) w,
  )
  failed p other_exception w = ((false, record p { initialized = false }), w)

  abbrev pub made_pool : Text → MongoPool → Outcome ℕ × W → (Bool × MongoPool) × W
  made_pool uri p (returned c, w) = (
    (true, record p { pool = some c }),
    driver.write_log
        (codes "[MongoConnectionPool] Initialized. URI: " ++ redact_mongo_uri_for_log uri) w,
  )
  made_pool uri p (thrown e, w) = failed p e w

  abbrev pub made_instance :
      Text → ℤ → ℤ → MongoPool → Outcome (Unit {0}) × W → (Bool × MongoPool) × W
  made_instance uri min_size max_size p (returned r, w) =
      made_pool uri (record p { instance_made = true })
        (driver.make_pool uri (as_size min_size) (as_size max_size) w)
  made_instance uri min_size max_size p (thrown e, w) = failed p e w

  unfoldable pub initialize : Text → ℤ → ℤ → MongoPool → W → (Bool × MongoPool) × W
  initialize uri min_size max_size p w =
      if p.initialized
      then ((true, p), w)
      else made_instance uri min_size max_size (record p { initialized = true })
          (driver.make_instance w)

  abbrev pub not_ready : Exn
  not_ready = std_exception (codes "MongoConnectionPool not initialized or already shutdown")

  abbrev pub acquired : Option ℕ → Io W ℕ
  acquired none w = (thrown not_ready, w)
  acquired (some c) w = driver.acquire c w

  unfoldable pub get_connection : MongoPool → Io W ℕ
  get_connection p w = if p.shutdown then (thrown not_ready, w) else acquired p.pool w

unfoldable pub shutdown : MongoPool → MongoPool
shutdown p =
    if p.shutdown
    then p
    else record { instance_made = false; pool = none; initialized = false; shutdown = true }
