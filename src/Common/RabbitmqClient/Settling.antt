-- ===== src/Common/RabbitmqClient/Settling.antt =====
-- Every message that the loop of `Subscribe` takes from the queue is settled.
use imsystem.Prelude.{
  ℕ, zero, suc, Bool, true, false, Option, none, some, List, [], ◌∷◌, ◌++◌, ◌≡◌, ◌≢◌, refl, ap, ◌∙◌,
  map, map-append, arith,
}
use imsystem.Prelude.Texts.{Text}
use imsystem.Common.Effect.{std_exception, other_exception, Outcome, returned, thrown, Io, resume}
use imsystem.Common.RabbitmqClient.{
  Amqp, RabbitmqClient, catch_std, deliver, deliver_some, consume_round, rounds, ended,
  subscribe_on, subscribe,
}

module _ {W Envelope : Type 0} (delivered : W → List Envelope)
    (settled : W → List (Envelope × Bool)) where
  -- A call settles the envelope if it returns, and does not if it throws.
  abbrev pub Settles : Envelope → Bool → W → Outcome (Unit {0}) × W → Type 0
  Settles e flag w (returned r, v) =
      (delivered v ≡ delivered w) × (settled v ≡ settled w ++ (e, flag) ∷ [])
  Settles e flag w (thrown x, v) = (delivered v ≡ delivered w) × (settled v ≡ settled w)

  -- A call delivers the envelope that it returns, if any.
  abbrev pub Delivers : W → Outcome (Option Envelope) × W → Type 0
  Delivers w (returned none, v) = (delivered v ≡ delivered w) × (settled v ≡ settled w)
  Delivers w (returned (some e), v) =
      (delivered v ≡ delivered w ++ e ∷ []) × (settled v ≡ settled w)
  Delivers w (thrown x, v) = Unit {0}

  -- A call neither delivers nor settles.
  abbrev pub Passes : W → Outcome (Unit {0}) × W → Type 0
  Passes w r = (delivered r.1 ≡ delivered w) × (settled r.1 ≡ settled w)

  -- The deliveries and the settlements of a world, as the broker sees them, and what the calls of
  -- the library and the callback add to them.
  pub record Broker (amqp : Amqp W Envelope) (callback : Text → Io W (Unit {0})) : Type 0 where
    pub consumes :
        (channel : ℕ) (tag : Text) (w : W) → Delivers w (amqp.basic_consume_message channel tag w)
    pub acks : (channel : ℕ) (e : Envelope) (w : W) → Settles e true w (amqp.basic_ack channel e w)
    pub rejects :
        (channel : ℕ) (e : Envelope) (w : W)
        → Settles e false w (amqp.basic_reject channel e true w)
    pub works : (message : Text) (w : W) → Passes w (callback message w)

  -- The envelopes that were settled are those that were delivered, in this order, each once.
  abbrev pub Balanced : W → Type 0
  Balanced w = map (λ s. s.0) (settled w) ≡ delivered w

  -- All but the envelope in hand is settled.
  abbrev Owes : Envelope → W → Type 0
  Owes e w = map (λ s. s.0) (settled w) ++ e ∷ [] ≡ delivered w

  settle-Balanced :
      (e : Envelope) (flag : Bool) (w v : W)
      → Owes e w
      → delivered v ≡ delivered w
      → settled v ≡ settled w ++ (e, flag) ∷ []
      → Balanced v
  settle-Balanced e flag w v h d s =
      rw (s, d) (map-append (λ s. s.0) (settled w) ((e, flag) ∷ []) ∙ h)

  module _ (amqp : Amqp W Envelope) (callback : Text → Io W (Unit {0}))
      (broker : Broker amqp callback) where
    rejected-Balanced :
        (channel : ℕ) (e : Envelope) (v : W) (r : Outcome (Unit {0}) × W)
        → Owes e v
        → Settles e false v r
        → r.0 ≡ returned tt
        → Balanced r.1
    rejected-Balanced channel e v (returned r, u) h k g = settle-Balanced e false v u h k.0 k.1
    rejected-Balanced channel e v (thrown x, u) h k g = absurd (ground arith)

    deliver-Balanced :
        (channel : ℕ) (e : Envelope) (w : W)
        → Owes e w
        → (deliver amqp channel callback e w).0 ≡ returned tt
        → Balanced (deliver amqp channel callback e w).1
    unfolding deliver
    deliver-Balanced channel e w h =
        worked (callback (amqp.body e) w) (broker.works (amqp.body e) w)
      where
        acked :
            (v : W) (r : Outcome (Unit {0}) × W)
            → Owes e v
            → Settles e true v r
            → (catch_std (amqp.basic_reject channel e true) r).0 ≡ returned tt
            → Balanced (catch_std (amqp.basic_reject channel e true) r).1
        acked v (returned r, u) o k g = settle-Balanced e true v u o k.0 k.1
        acked v (thrown (std_exception what), u) o k g =
            rejected-Balanced channel e u (amqp.basic_reject channel e true u) (rw (k.0, k.1) o)
              (broker.rejects channel e u) g
        acked v (thrown other_exception, u) o k g = absurd (ground arith)

        worked :
            (r : Outcome (Unit {0}) × W)
            → Passes w r
            → (catch_std
                (amqp.basic_reject channel e true)
                (resume (λ _. amqp.basic_ack channel e) r)).0
              ≡ returned tt
            → Balanced
                (catch_std
                  (amqp.basic_reject channel e true)
                  (resume (λ _. amqp.basic_ack channel e) r)).1
        worked (returned r, v) p g =
            acked v (amqp.basic_ack channel e v) (rw (p.0, p.1) h) (broker.acks channel e v) g
        worked (thrown (std_exception what), v) p g =
            rejected-Balanced channel e v (amqp.basic_reject channel e true v) (rw (p.0, p.1) h)
              (broker.rejects channel e v) g
        worked (thrown other_exception, v) p g = absurd (ground arith)

    round-Balanced :
        (channel : ℕ) (tag : Text) (w : W)
        → Balanced w
        → (consume_round amqp channel tag callback w).0 ≡ returned tt
        → Balanced (consume_round amqp channel tag callback w).1
    unfolding consume_round
    round-Balanced channel tag w h =
        taken (amqp.basic_consume_message channel tag w) (broker.consumes channel tag w)
      where
        taken :
            (r : Outcome (Option Envelope) × W)
            → Delivers w r
            → (resume (deliver_some amqp channel callback) r).0 ≡ returned tt
            → Balanced (resume (deliver_some amqp channel callback) r).1
        taken (returned none, v) d g = rw (d.0, d.1) h
        taken (returned (some e), v) d g =
            deliver-Balanced channel e v (rw (d.0, d.1) (ap (λ l. l ++ e ∷ []) h)) g
        taken (thrown x, v) d g = absurd (ground arith)

    -- If the broker delivers and settles as it is asked to, and the callback does neither: after any
    -- number of rounds of the loop of Subscribe none of which threw, the messages that were
    -- acknowledged or put back are those that were taken from the queue, in this order, each once.
    pub rounds-Balanced :
        (n channel : ℕ) (tag : Text) (w : W)
        → Balanced w
        → (rounds amqp n channel tag callback w).0 ≡ returned tt
        → Balanced (rounds amqp n channel tag callback w).1
    unfolding rounds
    rounds-Balanced zero channel tag w h g = h
    rounds-Balanced (suc n) channel tag w h g =
        last (rounds amqp n channel tag callback w) (rounds-Balanced n channel tag w h) g
      where
        last :
            (r : Outcome (Unit {0}) × W)
            → (r.0 ≡ returned tt → Balanced r.1)
            → (resume (λ _. consume_round amqp channel tag callback) r).0 ≡ returned tt
            → Balanced (resume (λ _. consume_round amqp channel tag callback) r).1
        last (returned r, v) k g = round-Balanced channel tag v (k refl) g
        last (thrown x, v) k g = absurd (ground arith)

-- Subscribe does not answer true, however long it runs.
pub subscribe-ne-true :
    {W Envelope : Type 0} (amqp : Amqp W Envelope) (n : ℕ) (c : RabbitmqClient) (queue_name : Text)
    (callback : Text → Io W (Unit {0})) (w : W)
    → (subscribe amqp n c queue_name callback w).0 ≢ some (returned true)
unfolding subscribe
subscribe-ne-true {W = W} amqp n c queue_name callback w = on c.channel
  where
    result : (r : Outcome (Unit {0}) × W) → (ended amqp r).0 ≢ some (returned true)
    result (returned r, v) h = absurd (ground arith)
    result (thrown (std_exception what), v) h = absurd (ground arith)
    result (thrown other_exception, v) h = absurd (ground arith)

    on : (o : Option ℕ) → (subscribe_on amqp n queue_name callback o w).0 ≢ some (returned true)
    on none h = absurd (ground arith)
    on (some channel) h = result _ h
