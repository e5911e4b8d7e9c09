-- ===== src/Common/Retry/Keeps.antt =====
-- Invariants of the world across `ExecuteWithRetry`.
use imsystem.Prelude.{ℕ, zero, suc, ◌≡◌, arith}
use imsystem.Prelude.Int.{ℤ, pos_part}
use imsystem.Common.Effect.{Exn, Outcome, returned, thrown, Io}
use imsystem.Common.Retry.{on_failure, retry_loop, execute_with_retry}

module _ {W A : Type 0} (P : W → Type 0) (sleep : ℕ → W → W) (delay_ms : ℕ)
    (slept : (w : W) → P w → P (sleep delay_ms w)) where
  on_failure-keeps :
      (again : W → Outcome A × W)
      → ((w : W) → P w → P (again w).1)
      → (r : Outcome A × W) → P r.1
      → P (on_failure again r).1
  unfolding on_failure
  on_failure-keeps again keep (returned a, w) p = p
  on_failure-keeps again keep (thrown e, w) p = keep w p

  retry_loop-keeps :
      (left : ℕ) (func : Io W A)
      → ((w : W) → P w → P (func w).1)
      → (w : W) → P w
      → P (retry_loop sleep delay_ms left func w).1
  unfolding retry_loop
  retry_loop-keeps zero func keep w p = keep w p
  retry_loop-keeps (suc left) func keep w p =
      on_failure-keeps (λ v. retry_loop sleep delay_ms left func (sleep delay_ms v))
        (λ v q. retry_loop-keeps left func keep (sleep delay_ms v) (slept v q)) (func w) (keep w p)

  -- What each attempt keeps, and the pause, the whole loop keeps, whether it returns or throws.
  pub execute_with_retry-keeps :
      (max_retries : ℤ) (func : Io W A)
      → ((w : W) → P w → P (func w).1)
      → (w : W) → P w
      → P (execute_with_retry sleep max_retries delay_ms func w).1
  unfolding execute_with_retry
  execute_with_retry-keeps max_retries = retry_loop-keeps (pos_part max_retries)

  retry_loop-throws :
      (left : ℕ) (func : Io W A)
      → ((w : W) → P w → ((e : Exn) × ((func w).0 ≡ thrown e)) × P (func w).1)
      → (w : W) → P w
      → (e : Exn) × ((retry_loop sleep delay_ms left func w).0 ≡ thrown e)
  unfolding retry_loop on_failure
  retry_loop-throws zero func fails w p = (fails w p).0
  retry_loop-throws (suc left) func fails w p =
      again (λ v. retry_loop sleep delay_ms left func (sleep delay_ms v))
        (λ v q. retry_loop-throws left func fails (sleep delay_ms v) (slept v q)) (func w)
        (fails w p)
    where
      again :
          (rest : W → Outcome A × W)
          → ((v : W) → P v → (e : Exn) × ((rest v).0 ≡ thrown e))
          → (r : Outcome A × W) → (((e : Exn) × (r.0 ≡ thrown e)) × P r.1)
          → (e : Exn) × ((on_failure rest r).0 ≡ thrown e)
      again rest ih (returned a, v) ((e, h), q) = absurd (ground arith)
      again rest ih (thrown x, v) (h, q) = ih v q

  -- If every attempt throws, wherever the kept property holds, then the whole loop throws.
  pub execute_with_retry-throws :
      (max_retries : ℤ) (func : Io W A)
      → ((w : W) → P w → ((e : Exn) × ((func w).0 ≡ thrown e)) × P (func w).1)
      → (w : W) → P w
      → (e : Exn) × ((execute_with_retry sleep max_retries delay_ms func w).0 ≡ thrown e)
  unfolding execute_with_retry
  execute_with_retry-throws max_retries = retry_loop-throws (pos_part max_retries)
