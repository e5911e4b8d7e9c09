-- ===== src/User/TokenManager/Table.antt =====
-- The sessions as a table from users to tokens with the time of their end, and the token manager as
-- an implementation of it.
use imsystem.Prelude.{
  ℕ, Bool, false, not, Option, none, some, List, [], ◌∷◌, ◌++◌, ◌==◌, ◌+◌, ltb, ◌*◌, ◌≡◌, refl, ap,
  ◌∙◌, fun_ext, drop, is_empty, if◌then◌else◌, Bool-cases, ==_iff, inl, inr, arith,
}
use imsystem.Prelude.Int.{ℤ, pos}
use imsystem.Prelude.Texts.{Text, codes, text_eq, text_eq_refl, text_eq-ne}
use imsystem.Common.Chars.Decimal.{to_string_injective}
use imsystem.Common.Chars.Numbers.{to_string}
use imsystem.Common.MysqlPool.{show_int}
use imsystem.Common.Effect.{returned}
use imsystem.Common.RedisClient.{set, delete}
use imsystem.User.TokenManager.{
  TokenHost, get_redis_key, token_text, generate_and_save_token, verify_token, delete_token,
}

-- A token, and the second at which it ends.
pub record Session : Type 0 where
  pub token : Text
  pub end : ℕ

-- The abstract view: at most one session for each user.
abbrev pub Table : Type 0
Table = ℕ → Option Session

unfoldable pub assign : ℕ → Option Session → Table → Table
assign user_id s table u = if user_id == u then s else table u

-- A session that has not ended.
abbrev pub lives : ℕ → Option Session → Bool
lives now none = false
lives now (some s) = ltb now s.end

-- Texts with an underscore between them.
abbrev pub joined : List Text → Text
joined [] = []
joined (t ∷ []) = t
joined (t ∷ u ∷ ts) = t ++ b'_' ∷ joined (u ∷ ts)

-- "TK_<user>_<client type>_<time>_<number>"
unfoldable pub token_of : ℕ → ℤ → ℤ → ℕ → Text
token_of user_id client_type ts number =
    joined
      (codes "TK" ∷ to_string user_id ∷ show_int client_type ∷ show_int ts ∷ to_string number ∷ [])

token_text-eq-token_of : (u : ℕ) (c ts : ℤ) (n : ℕ) → token_text u c ts n ≡ token_of u c ts n
unfolding token_text token_of codes
token_text-eq-token_of u c ts n = refl

abbrev pub seven_days : ℕ
seven_days = 7 * 24 * 3600

-- The operations of the token manager.
pub data Operation : Type 0 where
  generate : ℕ → ℤ → Operation
  verify : ℕ → Text → Operation
  delete_for : ℕ → Operation

pub data Answer : Type 0 where
  issued : Text → Answer
  verdict : Bool → Answer

-- What an operation meets: what the clock and the random device say to it, and the second at which
-- Redis runs its command.
pub record Meets : Type 0 where
  pub ts : ℤ
  pub number : ℕ
  pub at : ℕ

-- The answers of the table, which reads no session to accept a token.
unfoldable pub answer : Operation → Meets → Table → Answer
answer (generate u client_type) m table = issued (token_of u client_type m.ts m.number)
answer (verify u token) m table = verdict (not (is_empty token))
answer (delete_for u) m table = verdict (lives m.at (table u))

abbrev pub session_until : Text → ℕ → Option Session
session_until token at = some (record { token = token; end = at + seven_days })

-- A token that is issued, and one that is accepted, lasts for seven days.
unfoldable pub next_table : Operation → Meets → Table → Table
next_table (generate u client_type) m table =
    assign u (session_until (token_of u client_type m.ts m.number) m.at) table
next_table (verify u token) m table =
    if is_empty token then table else assign u (session_until token m.at) table
next_table (delete_for u) m table = assign u none table

-- What Redis documents of SETEX and DEL, while it is up. `value` is the last value that was set for
-- a key and not deleted, with the second at which it expires; `now` is the time of the server, which
-- goes on as it likes. DEL counts a key that has not expired. The clock and the random device leave
-- the values alone.
pub record Serves {W : Type 0} (host : TokenHost W) (value : Text → W → Option Session)
    (now : W → ℕ) : Type 0 where
  pub sets :
      (key v : Text) (seconds : ℕ) (w : W)
      → (u : W) × (host.redis.set_expiring key v seconds w ≡ (returned tt, u))
        × ((other : Text)
            → value other u ≡ (
                if text_eq key other
                then some (record { token = v; end = now w + seconds })
                else value other w))
  pub deletes :
      (key : Text) (w : W)
      → (n : ℕ) × (u : W) × (host.redis.del key w ≡ (returned n, u))
        × (ltb 0 n ≡ lives (now w) (value key w))
        × ((other : Text) → value other u ≡ (if text_eq key other then none else value other w))
  pub ticks : (key : Text) (w : W) → value key (host.clock w).1 ≡ value key w
  pub draws : (key : Text) (w : W) → value key (host.random w).1 ≡ value key w

get_redis_key_injective : (u v : ℕ) → get_redis_key u ≡ get_redis_key v → u ≡ v
unfolding get_redis_key codes
get_redis_key_injective u v h = to_string_injective u v (ap (drop 11) h)

key-eq : (u v : ℕ) → text_eq (get_redis_key u) (get_redis_key v) ≡ (u == v)
key-eq u v = elim (Bool-cases (u == v)) [
  | inl e ↦ rw (e, (==_iff u v).0 e) (text_eq_refl (get_redis_key v))
  | inr e ↦ rw e (
      text_eq-ne (get_redis_key u) (get_redis_key v)
        λ h. ground (arith, get_redis_key_injective u v h))
]

module _ {W : Type 0} (host : TokenHost W) (value : Text → W → Option Session) (now : W → ℕ) where
  -- The abstraction: what Redis holds for each user.
  abbrev pub sessions : W → Table
  sessions w u = value (get_redis_key u) w

  -- The worlds in which the clock, the random device and Redis are asked.
  abbrev pub meets : Operation → W → Meets
  meets (generate u client_type) w = record {
    ts = (host.clock w).0;
    number = (host.random (host.clock w).1).0;
    at = now (host.random (host.clock w).1).1;
  }
  meets (verify u token) w = record { ts = pos 0; number = 0; at = now w }
  meets (delete_for u) w = record { ts = pos 0; number = 0; at = now w }

  abbrev pub as_token : Text × W → Answer × W
  as_token (t, w) = (issued t, w)

  abbrev pub as_verdict : Bool × W → Answer × W
  as_verdict (b, w) = (verdict b, w)

  abbrev pub perform : Operation → W → Answer × W
  perform (generate u client_type) w = as_token (generate_and_save_token host u client_type w)
  perform (verify u token) w = as_verdict (verify_token host u token w)
  perform (delete_for u) w = as_verdict (delete_token host u w)

  unfoldable pub perform_all : List Operation → W → List Answer × W
  perform_all [] w = ([], w)
  perform_all (o ∷ os) w =
      let (a, v) = perform o w in let (as', u) = perform_all os v in (a ∷ as', u)

  -- What the table answers to the operations, and what it is behind them, where they meet what they
  -- meet.
  unfoldable pub simulated : List Operation → W → Table → List Answer × Table
  simulated [] w table = ([], table)
  simulated (o ∷ os) w table =
      let (as', end) = simulated os (perform o w).1 (next_table o (meets o w) table) in
      (answer o (meets o w) table ∷ as', end)

  module _ (serves : Serves host value now) where
    perform_lem :
        (o : Operation) (w : W)
        → ((perform o w).0 ≡ answer o (meets o w) (sessions w))
          × (sessions (perform o w).1 ≡ next_table o (meets o w) (sessions w))
    unfolding answer next_table assign generate_and_save_token verify_token delete_token set delete
    perform_lem (generate u client_type) w =
        let m = meets (generate u client_type) w in
        let token = token_text u client_type m.ts m.number in
        let (v, e, k) =
          serves.sets (get_redis_key u) token 604800 (host.random (host.clock w).1).1 in
        (
          rw e (ap issued (token_text-eq-token_of u client_type m.ts m.number)),
          fun_ext λ x. rw e (
              k (get_redis_key x)
              ∙ rw
                  (
                    key-eq u x,
                    serves.draws (get_redis_key x) (host.clock w).1,
                    serves.ticks (get_redis_key x) w,
                    token_text-eq-token_of u client_type m.ts m.number,
                  )
                  refl),
        )
    perform_lem (verify u token) w = elim (Bool-cases (is_empty token)) [
      | inl e ↦ (rw e refl, rw e refl)
      | inr e ↦
          let (v, d, k) = serves.sets (get_redis_key u) token 604800 w in
          (
            rw (e, text_eq_refl token) refl,
            fun_ext λ x. rw (e, text_eq_refl token, d) (k (get_redis_key x) ∙ rw (key-eq u x) refl),
          )
    ]
    perform_lem (delete_for u) w =
        let (n, v, e, c, k) = serves.deletes (get_redis_key u) w in
        (rw e (ap verdict c), fun_ext λ x. rw e (k (get_redis_key x) ∙ rw (key-eq u x) refl))

    -- While Redis is up, the token manager answers any sequence of operations as the table does, and
    -- leaves in Redis what the table then holds: a token that is issued or verified ends seven days
    -- later, every token that is not empty is accepted and becomes the one of its user, and a
    -- deletion says whether the user had a session that had not ended.
    pub perform_all-refines :
        (os : List Operation) (w : W)
        → ((perform_all os w).0 ≡ (simulated os w (sessions w)).0)
          × (sessions (perform_all os w).1 ≡ (simulated os w (sessions w)).1)
    unfolding perform_all simulated
    perform_all-refines [] w = (refl, refl)
    perform_all-refines (o ∷ os) w =
        let (a, s) = perform_lem o w in
        let (as', end) = perform_all-refines os (perform o w).1 in
        (
          ap (λ x. x ∷ (perform_all os (perform o w).1).0) a
              ∙ ap (λ l. answer o (meets o w) (sessions w) ∷ l)
                  (as' ∙ ap (λ t. (simulated os (perform o w).1 t).0) s),
          end ∙ ap (λ t. (simulated os (perform o w).1 t).1) s,
        )
