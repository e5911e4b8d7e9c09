-- ===== src/Common/Sql/Guards.antt =====
-- The connections that a guarded scope of a DAO takes and gives back.
use imsystem.Prelude.{ℕ, Option, none, some, List, ◌∷◌, ◌≡◌, refl, sym, ap, ◌∙◌}
use imsystem.Prelude.Int.{pos}
use imsystem.Common.Effect.{Io}
use imsystem.Common.Retry.Keeps.{execute_with_retry-keeps}
use imsystem.Common.Sql.{Sql, entered, with_guard, retried}

-- The connections that a thread's guards hold, as a view of the world: an acquisition that gets a
-- connection adds it, a release of the newest takes it off, and nothing else changes them.
pub record Holds {W Row : Type 0} (sql : Sql W Row) (held : W → List ℕ) : Type 0 where
  pub acquired :
      (w : W) (conn : ℕ) → (sql.acquire w).0 ≡ some conn → held (sql.acquire w).1 ≡ conn ∷ held w
  pub refused : (w : W) → (sql.acquire w).0 ≡ none → held (sql.acquire w).1 ≡ held w
  pub released :
      (conn : ℕ) (w : W) (cs : List ℕ) → held w ≡ conn ∷ cs → held (sql.release conn w) ≡ cs
  pub slept : (n : ℕ) (w : W) → held (sql.sleep n w) ≡ held w

module _ {W Row : Type 0} (sql : Sql W Row) (held : W → List ℕ) (h : Holds sql held) where
  with_guard-held :
      {A : Type 0} (body : ℕ → Io W A)
      → ((conn : ℕ) (w : W) → held (body conn w).1 ≡ held w)
      → (w : W) → held (with_guard sql body w).1 ≡ held w
  unfolding with_guard
  with_guard-held body keep w = inside (sql.acquire w) refl
    where
      inside : (r : Option ℕ × W) → sql.acquire w ≡ r → held (entered sql body r).1 ≡ held w
      inside (none, v) e =
          ap (λ (r : Option ℕ × W). held r.1) (sym e)
          ∙ h.refused w (ap (λ (r : Option ℕ × W). r.0) e)
      inside (some conn, v) e = h.released conn (body conn v).1 (held w) (
          keep conn v
          ∙ ap (λ (r : Option ℕ × W). held r.1) (sym e)
          ∙ h.acquired w conn (ap (λ (r : Option ℕ × W). r.0) e))

  -- If the pool adds what it hands out to the connections of the thread, takes off what it gets
  -- back, and the body changes none of them, then a retried scope leaves the thread with the
  -- connections that it had, however many attempts it takes, and whether it returns or throws.
  pub retried-held :
      {A : Type 0} (body : ℕ → Io W A)
      → ((conn : ℕ) (w : W) → held (body conn w).1 ≡ held w)
      → (w : W) → held (retried sql body w).1 ≡ held w
  unfolding retried
  retried-held body keep w =
      execute_with_retry-keeps (λ v. held v ≡ held w) sql.sleep 500 (λ v e. h.slept 500 v ∙ e)
        (pos 3) (with_guard sql body) (λ v e. with_guard-held body keep v ∙ e) w refl
