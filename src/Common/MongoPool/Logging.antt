-- ===== src/Common/MongoPool/Logging.antt =====
-- The line of the log that `Initialize` writes.
use imsystem.Prelude.{
  ℕ, subst, sym, true, List, [], ◌∷◌, ◌++◌, ◌≡◌, ◌⊎◌, inl, inr, refl, ap, ◌∙◌, Bool-cases,
}
use imsystem.Prelude.Int.{ℤ}
use imsystem.Prelude.Texts.{Text, codes}
use imsystem.Common.Chars.Finding.{lacks}
use imsystem.Common.Effect.{std_exception, other_exception, Outcome, returned, thrown}
use imsystem.Common.MongoPool.{
  MongoPool, MongoDriver, as_size, redact_mongo_uri_for_log, made_pool, made_instance, initialize,
}
use imsystem.Common.MongoPool.Redacting.{uri_of, redact_mongo_uri_for_log-secret}

module _ {W : Type 0} (driver : MongoDriver W) (lines : W → List Text) where
  -- `lines` is the log: only `write_log` adds to it.
  pub record Logs : Type 0 where
    pub makes_instance : (w : W) → lines (driver.make_instance w).1 ≡ lines w
    pub makes_pool :
        (uri : Text) (a b : ℤ) (w : W)
        → lines (driver.make_pool uri (as_size a) (as_size b) w).1 ≡ lines w
    pub writes : (line : Text) (w : W) → lines (driver.write_log line w) ≡ lines w ++ line ∷ []

  -- The driver threw with that message, on this world, as `Initialize` calls it.
  abbrev pub Throws : Text → Text → ℤ → ℤ → W → Type 0
  Throws what uri a b w =
      ((driver.make_instance w).0 ≡ thrown (std_exception what))
      ⊎ ((driver.make_pool uri (as_size a) (as_size b) (driver.make_instance w).1).0
          ≡ thrown (std_exception what))

  -- What one call of `Initialize` with a URI adds to the log, where `shown` stands for the URI:
  -- nothing, the line that shows it, or a message of the driver.
  abbrev pub Logged : Text → Text → ℤ → ℤ → W → W → Type 0
  Logged shown uri a b w v =
      (lines v ≡ lines w)
      ⊎ ((lines v ≡ lines w ++ (codes "[MongoConnectionPool] Initialized. URI: " ++ shown) ∷ [])
          ⊎ ((what : Text) × (Throws what uri a b w)
              × (lines v
                  ≡ lines w ++ (codes "[MongoConnectionPool] Initialize failed: " ++ what) ∷ [])))

  module _ (logs : Logs) where
    initialize-Logged :
        (uri : Text) (a b : ℤ) (p : MongoPool) (w : W)
        → Logged (redact_mongo_uri_for_log uri) uri a b w (initialize driver uri a b p w).1
    unfolding initialize
    initialize-Logged uri a b p w = elim (Bool-cases p.initialized) [
      | inl e ↦ rw e (inl refl)
      | inr e ↦ rw e (made (driver.make_instance w) refl)
    ]
      where
        opened : MongoPool
        opened = record p { initialized = true }

        added :
            (line : Text) (v : W)
            → lines v ≡ lines w
            → lines (driver.write_log line v) ≡ lines w ++ line ∷ []
        added line v k = logs.writes line v ∙ ap (λ l. l ++ line ∷ []) k

        kept : {r : Outcome (Unit {0}) × W} → driver.make_instance w ≡ r → lines r.1 ≡ lines w
        kept e = ap (λ (r : Outcome (Unit {0}) × W). lines r.1) (sym e) ∙ logs.makes_instance w

        pooled :
            (r : Outcome ℕ × W)
            → lines r.1 ≡ lines w
            → ((what : Text) → r.0 ≡ thrown (std_exception what) → Throws what uri a b w)
            → Logged
                (redact_mongo_uri_for_log uri)
                uri
                a
                b
                w
                (made_pool driver uri (record opened { instance_made = true }) r).1
        pooled (returned c, v) k h = inr (inl (added _ v k))
        pooled (thrown (std_exception what), v) k h = inr (inr (what, h what refl, added _ v k))
        pooled (thrown other_exception, v) k h = inl k

        made :
            (r : Outcome (Unit {0}) × W)
            → driver.make_instance w ≡ r
            → Logged
                (redact_mongo_uri_for_log uri)
                uri
                a
                b
                w
                (made_instance driver uri a b opened r).1
        made (returned d, v) e =
            let world : (driver.make_instance w).1 ≡ v =
              ap (λ (r : Outcome (Unit {0}) × W). r.1) e in
            pooled (driver.make_pool uri (as_size a) (as_size b) v)
              (logs.makes_pool uri a b v ∙ kept e)
              (λ what q.
                inr (ap (λ u. (driver.make_pool uri (as_size a) (as_size b) u).0) world ∙ q))
        made (thrown (std_exception what), v) e =
            inr (inr (what, inl (ap (λ (r : Outcome (Unit {0}) × W). r.0) e), added _ v (kept e)))
        made (thrown other_exception, v) e = inl (kept e)

    -- A URI with a user name and a password: `Initialize` writes to the log nothing, or one line
    -- that shows the URI with three stars in the place of the password, or the message that the
    -- driver threw. The password contains no @, and the user name neither @ nor a colon.
    pub initialize-secret :
        (user secret host : Text) (a b : ℤ) (p : MongoPool) (w : W)
        → lacks b':' user ≡ true
        → lacks b'@' user ≡ true
        → lacks b'@' secret ≡ true
        → Logged
            (uri_of user (codes "***") host)
            (uri_of user secret host)
            a
            b
            w
            (initialize driver (uri_of user secret host) a b p w).1
    initialize-secret user secret host a b p w h1 h2 h3 =
        subst
          (λ shown.
            Logged shown (uri_of user secret host) a b w
              (initialize driver (uri_of user secret host) a b p w).1)
          (redact_mongo_uri_for_log-secret user secret host h1 h2 h3)
          (initialize-Logged (uri_of user secret host) a b p w)
