-- ===== src/Gateway/TcpConnection/Effects.antt =====
-- How many answers code in a handler sends, and what it leaves alone.
use imsystem.Prelude.{ℕ, ◌+◌, Bool, true, false, ◌≡◌, refl, ◌∙◌, arith}
use imsystem.Common.Effect.{Exn, Outcome, returned, thrown, Io, resume, ◌>>=◌}
use imsystem.Gateway.TcpConnection.{Connection}

-- The second state has n writes more than the first, and nothing else that matters to the
-- heartbeat has changed.
abbrev pub After : {W : Type 0} → ℕ → Connection × W → Connection × W → Type 0
After n (c, w) (d, v) =
    (d.writing ≡ c.writing + n)
    × (d.is_stopped ≡ c.is_stopped)
    × (d.socket_is_open ≡ c.socket_is_open)
    × (d.waiting ≡ c.waiting)

-- How many answers code that sends n has sent when it ends, by whether the connection is stopped.
abbrev pub sends : {A : Type 0} → Bool → ℕ → Outcome A → ℕ
sends true n r = 0
sends false n (returned a) = n
sends false n (thrown e) = 0

module _ {W : Type 0} where
  unfoldable pub Quiet : {A : Type 0} → Io (Connection × W) A → Type 0
  Quiet m = (s : Connection × W) → After 0 s (m s).1

  unfoldable pub Answering : {A : Type 0} → Bool → ℕ → Io (Connection × W) A → Type 0
  Answering b n m = (s : Connection × W) → s.0.is_stopped ≡ b → After (sends b n (m s).0) s (m s).1

  pub After-thrown :
      (A : Type 0) (b : Bool) (n : ℕ) (e : Exn) (s t : Connection × W)
      → After (sends {A = A} b n (thrown e)) s t ≡ After 0 s t
  After-thrown A true n e s t = refl
  After-thrown A false n e s t = refl

  pub After-trans : (n : ℕ) (s t u : Connection × W) → After 0 s t → After n t u → After n s u
  After-trans n s t u (a, b, c, d) (a', b', c', d') = (omega arith, b' ∙ b, c' ∙ c, d' ∙ d)

  pub resume-Quiet :
      {A B : Type 0} (f : A → Io (Connection × W) B) (s : Connection × W)
      (r : Outcome A × (Connection × W))
      → After 0 s r.1
      → ((a : A) → Quiet (f a))
      → After 0 s (resume f r).1
  unfolding Quiet
  resume-Quiet f s (returned a, t) h k = After-trans 0 s t (f a t).1 h (k a t)
  resume-Quiet f s (thrown e, t) h k = h

  pub bind-Quiet :
      {A B : Type 0} (m : Io (Connection × W) A) (f : A → Io (Connection × W) B)
      → Quiet m
      → ((a : A) → Quiet (f a))
      → Quiet (m >>= f)
  unfolding Quiet
  bind-Quiet m f h k s = resume-Quiet f s (m s) (h s) k

  pub resume-Answering :
      {A B : Type 0} (b : Bool) (n : ℕ) (f : A → Io (Connection × W) B) (s : Connection × W)
      (r : Outcome A × (Connection × W))
      → After 0 s r.1
      → ((a : A) → Answering b n (f a))
      → s.0.is_stopped ≡ b
      → After (sends b n (resume f r).0) s (resume f r).1
  unfolding Answering
  resume-Answering b n f s (returned a, t) h k is =
      After-trans (sends b n (f a t).0) s t (f a t).1 h (k a t (h.1 ∙ is))
  resume-Answering {A} {B} b n f s (thrown e, t) h k is = rw (After-thrown B b n e s t) h

  pub bind-Answering :
      {A B : Type 0} (b : Bool) (n : ℕ) (m : Io (Connection × W) A) (f : A → Io (Connection × W) B)
      → Quiet m
      → ((a : A) → Answering b n (f a))
      → Answering b n (m >>= f)
  unfolding Answering Quiet
  bind-Answering b n m f h k s is = resume-Answering b n f s (m s) (h s) k is

  pub same : (s : Connection × W) → After 0 s s
  same s = (omega arith, refl, refl, refl)
