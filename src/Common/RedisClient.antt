-- ===== src/Common/RedisClient.antt =====
-- common/src/redis/redis_client.cpp. The redis++ client is a parameter; what it throws is its own
-- error, which every function here catches.
use imsystem.Prelude.{ℕ, Bool, true, false, Option, none, some, [], ltb, if◌then◌else◌}
use imsystem.Prelude.Int.{ℤ, pos, ltb_ℤ, pos_part}
use imsystem.Prelude.Texts.{Text}
use imsystem.Common.Effect.{Io, pure, try_or, ◌>>=◌, ◌>>◌}

pub record ConnectionOptions : Type 0 where
  pub host : Text
  pub port : ℤ
  pub password : Text
  pub db : ℤ

pub record Redis (W : Type 0) : Type 0 where
  -- The constructor of the client, with the options and the size of its pool.
  pub open_client : ConnectionOptions → ℕ → Io W (Unit {0})
  pub ping : Io W Text
  pub set_expiring : Text → Text → ℕ → Io W (Unit {0})
  pub set_plain : Text → Text → Io W (Unit {0})
  pub get_value : Text → Io W (Option Text)
  pub del : Text → Io W ℕ

abbrev pub or_empty : Option Text → Text
or_empty none = []
or_empty (some v) = v

module _ {W : Type 0} (redis : Redis W) where
  unfoldable pub connect : Text → ℤ → Text → ℤ → W → Bool × W
  connect host port password db =
      try_or
        (do
          redis.open_client (record { host = host; port = port; password = password; db = db }) 10
          redis.ping
          pure true)
        false

  unfoldable pub set : Text → Text → ℤ → W → Bool × W
  set key value expire_seconds =
      try_or
        (do
          (if ltb_ℤ (pos 0) expire_seconds
              then redis.set_expiring key value (pos_part expire_seconds)
              else redis.set_plain key value)
          pure true)
        false

  unfoldable pub get : Text → W → Text × W
  get key = try_or (do val ← redis.get_value key; pure (or_empty val)) []

  unfoldable pub delete : Text → W → Bool × W
  delete key = try_or (do n ← redis.del key; pure (ltb 0 n)) false
