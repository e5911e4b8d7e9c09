-- ===== src/Common/Retry.antt =====
-- common/src/utils/retry.h
pub mod Attempts
pub mod Keeps
use imsystem.Prelude.{ℕ, zero, suc}
use imsystem.Prelude.Int.{ℤ, pos_part}
use imsystem.Common.Effect.{Outcome, returned, thrown, Io}

module _ {ℓ} {W A : Type ℓ} where
  -- The two catch clauses differ in what they log, and a log line is not part of the world.
  unfoldable pub on_failure : (W → Outcome A × W) → Outcome A × W → Outcome A × W
  on_failure again (returned a, w) = (returned a, w)
  on_failure again (thrown e, w) = again w

  -- The loop, by the retries that are left, `max_retries - attempt`. With none left a failure is
  -- thrown on.
  unfoldable pub retry_loop : (ℕ → W → W) → ℕ → ℕ → Io W A → Io W A
  unfolding on_failure
  retry_loop sleep delay_ms zero func w = func w
  retry_loop sleep delay_ms (suc left) func w =
      on_failure (λ w'. retry_loop sleep delay_ms left func (sleep delay_ms w')) (func w)

  -- A negative `max_retries` is passed by the first attempt, as 0 is.
  unfoldable pub execute_with_retry : (ℕ → W → W) → ℤ → ℕ → Io W A → Io W A
  execute_with_retry sleep max_retries delay_ms func =
      retry_loop sleep delay_ms (pos_part max_retries) func

-- The same loop around a function that returns nothing.
unfoldable pub execute_with_retry_void :
    {W : Type 0} → (ℕ → W → W) → ℤ → ℕ → Io W (Unit {0}) → Io W (Unit {0})
unfolding execute_with_retry
execute_with_retry_void = execute_with_retry
