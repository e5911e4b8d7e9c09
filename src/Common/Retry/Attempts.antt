-- ===== src/Common/Retry/Attempts.antt =====
-- Which attempts `ExecuteWithRetry` makes.
use imsystem.Prelude.{ℕ, zero, suc, ◌≤◌, ◌≡◌, refl, ◌⊎◌, inl, inr, arith, ◌↔◌, subst}
use imsystem.Prelude.Int.{ℤ, pos_part}
use imsystem.Common.Effect.{Exn, Outcome, returned, thrown, Io}
use imsystem.Common.Retry.{on_failure, retry_loop, execute_with_retry}

module _ {W A : Type 0} (sleep : ℕ → W → W) (delay_ms : ℕ) (func : Io W A) where
  -- k attempts that threw, each followed by a pause, lead from one world to another.
  pub data Failed : ℕ → W → W → Type 0 where
    no_attempt : {w : W} → Failed 0 w w
    one_more :
        {k : ℕ} {w v u : W} {e : Exn}
        → func w ≡ (thrown e, v)
        → Failed k (sleep delay_ms v) u
        → Failed (suc k) w u

  -- After some failures, within the limit, a last attempt gives the result; it may throw only where
  -- the limit is reached.
  pub record Ends (limit : ℕ) (w : W) (r : Outcome A × W) : Type 0 where
    pub failures : ℕ
    pub last : W
    pub failed : Failed failures w last
    pub result : func last ≡ r
    pub within : failures ≤ limit
    pub exhausted : ((a : A) × (r.0 ≡ returned a)) ⊎ (failures ≡ limit)

  retry_loop-Ends : (left : ℕ) (w : W) → Ends left w (retry_loop sleep delay_ms left func w)
  unfolding retry_loop
  retry_loop-Ends zero w = record {
    failures = 0;
    last = w;
    failed = no_attempt;
    result = refl;
    within = omega arith;
    exhausted = inr refl;
  }
  retry_loop-Ends (suc left) w = after (func w) refl (retry_loop-Ends left)
    where
      again : W → Outcome A × W
      again v = retry_loop sleep delay_ms left func (sleep delay_ms v)

      after :
          (r : Outcome A × W)
          → func w ≡ r
          → ((v : W) → Ends left v (retry_loop sleep delay_ms left func v))
          → Ends (suc left) w (on_failure again r)
      after (returned a, v) e ih = record {
        failures = 0;
        last = w;
        failed = no_attempt;
        result = e;
        within = omega arith;
        exhausted = inl (a, refl);
      }
      after (thrown x, v) e ih =
          let rest = ih (sleep delay_ms v) in
          record {
            failures = suc rest.failures;
            last = rest.last;
            failed = one_more e rest.failed;
            result = rest.result;
            within = omega arith;
            exhausted = deeper rest.exhausted;
          }
        where
          deeper : {P : Type 0} {k : ℕ} → P ⊎ (k ≡ left) → P ⊎ (suc k ≡ suc left)
          deeper (inl p) = inl p
          deeper (inr q) = inr (omega arith)

  Failed-retry_loop :
      (limit k : ℕ) {w u : W} (r : Outcome A × W)
      → Failed k w u
      → func u ≡ r
      → k ≤ limit
      → ((a : A) × (r.0 ≡ returned a)) ⊎ (k ≡ limit)
      → retry_loop sleep delay_ms limit func w ≡ r
  unfolding retry_loop
  Failed-retry_loop zero _ r no_attempt e h x = e
  Failed-retry_loop (suc limit) _ (returned a, v) no_attempt e h x = rw (e, on_failure)
  Failed-retry_loop (suc limit) _ (thrown y, v) no_attempt e h x = absurd (ground arith)
  Failed-retry_loop zero _ r (one_more f t) e h x = absurd (omega arith)
  Failed-retry_loop (suc limit) _ r (one_more {k = k} f t) e h x =
      rw (f, on_failure) (Failed-retry_loop limit k r t e (omega arith) (shallower x))
    where
      shallower : {P : Type 0} → P ⊎ (suc k ≡ suc limit) → P ⊎ (k ≡ limit)
      shallower (inl p) = inl p
      shallower (inr q) = inr (omega arith)

  -- `ExecuteWithRetry` ends in the result of the first attempt that does not throw, after a pause
  -- behind each failure before it, and in the failure of the last attempt where all of
  -- 1 + max_retries attempts throw; and in no other result.
  pub execute_with_retry-Ends :
      (max_retries : ℤ) (w : W) (r : Outcome A × W)
      → (execute_with_retry sleep max_retries delay_ms func w ≡ r) ↔ Ends (pos_part max_retries) w r
  unfolding execute_with_retry
  execute_with_retry-Ends max_retries w r = (
    λ e. subst (Ends (pos_part max_retries) w) e (retry_loop-Ends (pos_part max_retries) w),
    λ d.
        Failed-retry_loop (pos_part max_retries) d.failures r d.failed d.result d.within
          d.exhausted,
  )
