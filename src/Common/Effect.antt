-- ===== src/Common/Effect.antt =====
-- C++ code that may throw and that acts on its surroundings: a function on a world that returns or
-- throws. What the world holds is chosen by the component.
use imsystem.Prelude.Texts.{Text}

-- A `std::exception` with its `what()`, or anything else that is thrown.
pub data Exn : Type 0 where
  std_exception : Text → Exn
  other_exception : Exn

pub data Outcome {ℓ} (A : Type ℓ) : Type ℓ where
  returned : A → Outcome A
  thrown : Exn → Outcome A

abbrev pub Io {ℓ} : Type ℓ → Type ℓ → Type ℓ
Io W A = W → Outcome A × W

module _ {ℓ} {W A : Type ℓ} where
  abbrev pub pure : A → Io W A
  pure a w = (returned a, w)

  abbrev pub throw : Exn → Io W A
  throw e w = (thrown e, w)

module _ {ℓ} {W A B : Type ℓ} where
  -- What follows a statement runs unless the statement threw.
  abbrev pub resume : (A → Io W B) → Outcome A × W → Outcome B × W
  resume f (returned a, w) = f a w
  resume f (thrown e, w) = (thrown e, w)

  infixl 10 ◌>>=◌ ◌>>◌
  abbrev pub ◌>>=◌ : Io W A → (A → Io W B) → Io W B
  ◌>>=◌ m f w = resume f (m w)

  abbrev pub ◌>>◌ : Io W A → Io W B → Io W B
  m >> n = m >>= λ _. n

module _ {ℓ} {W A : Type ℓ} where
  abbrev pub settle : A → Outcome A × W → A × W
  settle d (returned a, w) = (a, w)
  settle d (thrown e, w) = (d, w)

  -- `try { return m; } catch (...) { return d; }`
  abbrev pub try_or : Io W A → A → W → A × W
  try_or m d w = settle d (m w)

-- The same for code that acts on nothing.
abbrev pub then_read : {A B : Type 0} → Outcome A → (A → Outcome B) → Outcome B
then_read (returned a) f = f a
then_read (thrown e) f = thrown e
