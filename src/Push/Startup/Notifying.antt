-- ===== src/Push/Startup/Notifying.antt =====
-- Which notifications leave while the service consumes its queue.
use imsystem.Prelude.{
  ℕ, zero, suc, Bool, true, false, Option, none, some, List, [], ◌∷◌, ◌++◌, ◌≡◌, ◌≢◌, refl, ap, ◌∙◌,
  sym, append_assoc, append-nil, arith,
}
use imsystem.Prelude.Int.{ℤ}
use imsystem.Prelude.Texts.{Text}
use imsystem.Common.Config.{ConfigMap}
use imsystem.Common.Effect.{std_exception, other_exception, Outcome, returned, thrown, resume}
use imsystem.Common.RabbitmqClient.{
  RabbitmqClient, catch_std, deliver, deliver_some, consume_round, rounds, connect, ended,
  new_client, subscribe, subscribe_on,
}
use imsystem.Common.RabbitmqClient as Rabbitmq
use imsystem.Push.PushManager.{Notification, handle_incoming_push_task}
use imsystem.Push.Startup.{
  PushHost, Progress, consuming, callback, sent_out, subscribed, connected, start_push_service,
}

abbrev is_consuming : Progress → Bool
is_consuming consuming = true
is_consuming _ = false

not_consuming : (p : Progress) → is_consuming p ≡ false → p ≢ consuming
not_consuming p h e = ground (arith, ap is_consuming e)

abbrev pub listed : Option Notification → List Notification
listed none = []
listed (some n) = n ∷ []

module _ {W Envelope J : Type 0} (host : PushHost W Envelope J) (taken : W → List Text)
    (sent : W → List Notification) where
  -- The notifications for the messages, in their order.
  unfoldable pub notifications : List Text → List Notification
  notifications [] = []
  notifications (m ∷ ms) =
      listed (handle_incoming_push_task host.json host.unset m) ++ notifications ms

  -- A call sends nothing and takes nothing, or takes the message that it delivers.
  abbrev pub Silent : W → W → Type 0
  Silent w v = (taken v ≡ taken w) × (sent v ≡ sent w)

  abbrev pub Takes : W → Outcome (Option Envelope) × W → Type 0
  Takes w (returned none, v) = Silent w v
  Takes w (returned (some e), v) = (taken v ≡ taken w ++ host.amqp.body e ∷ []) × (sent v ≡ sent w)
  Takes w (thrown x, v) = Silent w v

  -- What the calls of the queue and of a notification are to the messages that were taken and the
  -- notifications that were sent.
  pub record Watched : Type 0 where
    pub opens :
        (address : Text) (port : ℤ) (user pass : Text) (w : W)
        → Silent w (host.amqp.create_channel address port user pass w).1
    pub subscribes :
        (channel : ℕ) (name : Text) (count : ℕ) (w : W)
        → Silent w (host.amqp.basic_consume channel name count w).1
    pub consumes :
        (channel : ℕ) (tag : Text) (w : W) → Takes w (host.amqp.basic_consume_message channel tag w)
    pub acks : (channel : ℕ) (e : Envelope) (w : W) → Silent w (host.amqp.basic_ack channel e w).1
    pub rejects :
        (channel : ℕ) (e : Envelope) (w : W) → Silent w (host.amqp.basic_reject channel e true w).1
    pub notifies :
        (n : Notification) (w : W)
        → (taken (host.notify n w) ≡ taken w) × (sent (host.notify n w) ≡ sent w ++ n ∷ [])

  -- Every message that was taken has had its notification.
  abbrev pub Notified : W → Type 0
  Notified w = sent w ≡ notifications (taken w)

  notifications-append :
      (ms : List Text) (m : Text)
      → notifications (ms ++ m ∷ [])
        ≡ notifications ms ++ listed (handle_incoming_push_task host.json host.unset m)
  unfolding notifications
  notifications-append [] m = append-nil _
  notifications-append (k ∷ ms) m =
      ap (λ l. listed (handle_incoming_push_task host.json host.unset k) ++ l)
        (notifications-append ms m)
      ∙ sym (
          append_assoc (listed (handle_incoming_push_task host.json host.unset k))
            (notifications ms) _)

  Silent-Notified : {w v : W} → Silent w v → Notified w → Notified v
  Silent-Notified (t, s) h = rw (t, s) h

  module _ (watched : Watched) where
    sent_out-lem :
        (o : Option Notification) (w : W)
        → (taken (sent_out host o w) ≡ taken w) × (sent (sent_out host o w) ≡ sent w ++ listed o)
    sent_out-lem none w = (refl, sym (append-nil (sent w)))
    sent_out-lem (some n) w = watched.notifies n w

    -- The message in hand was taken, and its notification is the only one that is missing.
    Owes : Text → W → Type 0
    Owes m w =
        sent w ++ listed (handle_incoming_push_task host.json host.unset m)
        ≡ notifications (taken w)

    callback-Notified : (m : Text) (w : W) → Owes m w → Notified (callback host m w).1
    unfolding callback Owes
    callback-Notified m w h =
        let (t, s) = sent_out-lem (handle_incoming_push_task host.json host.unset m) w in
        rw (t, s) h

    settled-Notified :
        (channel : ℕ) (e : Envelope) (r : Outcome (Unit {0}) × W)
        → Notified r.1
        → Notified (catch_std (host.amqp.basic_reject channel e true) r).1
    settled-Notified channel e (returned r, v) h = h
    settled-Notified channel e (thrown (std_exception what), v) h =
        Silent-Notified (watched.rejects channel e v) h
    settled-Notified channel e (thrown other_exception, v) h = h

    deliver-Notified :
        (channel : ℕ) (e : Envelope) (w : W)
        → Owes (host.amqp.body e) w
        → Notified (deliver host.amqp channel (callback host) e w).1
    unfolding deliver callback
    deliver-Notified channel e w h =
        settled-Notified channel e
          (host.amqp.basic_ack channel e (callback host (host.amqp.body e) w).1)
          (Silent-Notified (watched.acks channel e _) (callback-Notified (host.amqp.body e) w h))

    taken-Notified :
        (channel : ℕ) (w : W) (r : Outcome (Option Envelope) × W)
        → Takes w r
        → Notified w
        → Notified (resume (deliver_some host.amqp channel (callback host)) r).1
    unfolding Owes
    taken-Notified channel w (returned none, v) k h = Silent-Notified k h
    taken-Notified channel w (returned (some e), v) (t, s) h = deliver-Notified channel e v (
        rw (t, s)
          (ap (λ l. l ++ listed (handle_incoming_push_task host.json host.unset (host.amqp.body e)))
              h
            ∙ sym (notifications-append (taken w) (host.amqp.body e))))
    taken-Notified channel w (thrown x, v) k h = Silent-Notified k h

    round-Notified :
        (channel : ℕ) (tag : Text) (w : W)
        → Notified w
        → Notified (consume_round host.amqp channel tag (callback host) w).1
    unfolding consume_round
    round-Notified channel tag w h =
        taken-Notified channel w (host.amqp.basic_consume_message channel tag w)
          (watched.consumes channel tag w) h

    next-Notified :
        (channel : ℕ) (tag : Text) (r : Outcome (Unit {0}) × W)
        → Notified r.1
        → Notified (resume (λ _. consume_round host.amqp channel tag (callback host)) r).1
    next-Notified channel tag (returned r, v) h = round-Notified channel tag v h
    next-Notified channel tag (thrown x, v) h = h

    rounds-Notified :
        (n channel : ℕ) (tag : Text) (w : W)
        → Notified w
        → Notified (rounds host.amqp n channel tag (callback host) w).1
    unfolding rounds
    rounds-Notified zero channel tag w h = h
    rounds-Notified (suc n) channel tag w h =
        next-Notified channel tag (rounds host.amqp n channel tag (callback host) w)
          (rounds-Notified n channel tag w h)

    tagged-Notified :
        (n channel : ℕ) (r : Outcome Text × W)
        → Notified r.1
        → Notified (resume (λ tag. rounds host.amqp n channel tag (callback host)) r).1
    tagged-Notified n channel (returned tag, v) h = rounds-Notified n channel tag v h
    tagged-Notified n channel (thrown x, v) h = h

    ended-world : (r : Outcome (Unit {0}) × W) → Notified r.1 → Notified (ended host.amqp r).1
    ended-world (returned r, v) h = h
    ended-world (thrown (std_exception what), v) h = h
    ended-world (thrown other_exception, v) h = h

    subscribe-Notified :
        (n : ℕ) (c : RabbitmqClient) (name : Text) (w : W)
        → Notified w
        → Notified (subscribe host.amqp n c name (callback host) w).1
    unfolding subscribe
    subscribe-Notified n c name w h = on c.channel
      where
        on : (o : Option ℕ) → Notified (subscribe_on host.amqp n name (callback host) o w).1
        on none = h
        on (some channel) = ended-world _ (
            tagged-Notified n channel (host.amqp.basic_consume channel name 100 w)
              (Silent-Notified (watched.subscribes channel name 100 w) h))

    connect-Notified :
        (address : Text) (port : ℤ) (user pass : Text) (c : RabbitmqClient) (w : W)
        → Notified w
        → Notified (connect host.amqp address port user pass (c, w)).1.1
    unfolding connect
    connect-Notified address port user pass c w h =
        opened (host.amqp.create_channel address port user pass w)
          (Silent-Notified (watched.opens address port user pass w) h)
      where
        opened :
            (r : Outcome ℕ × W) → Notified r.1 → Notified (Rabbitmq.connected host.amqp c r).1.1
        opened (returned channel, v) k = k
        opened (thrown (std_exception what), v) k = k
        opened (thrown other_exception, v) k = k

    subscribed-Notified :
        (r : Option (Outcome Bool) × W)
        → Notified r.1
        → (subscribed host r).0 ≡ consuming
        → Notified (subscribed host r).1
    subscribed-Notified (none, v) h e = h
    subscribed-Notified (some (returned ok), v) h e = absurd (not_consuming _ refl e)
    subscribed-Notified (some (thrown x), v) h e = absurd (not_consuming _ refl e)

    connected-Notified :
        (n : ℕ) (m : ConfigMap) (r : Outcome Bool × (RabbitmqClient × W))
        → Notified r.1.1
        → (connected host n m r).0 ≡ consuming
        → Notified (connected host n m r).1
    connected-Notified n m (returned true, (c, v)) h e =
        subscribed-Notified _ (subscribe-Notified n c _ v h) e
    connected-Notified n m (returned false, (c, v)) h e = absurd (not_consuming _ refl e)
    connected-Notified n m (thrown x, (c, v)) h e = absurd (not_consuming _ refl e)

    -- If the queue delivers and the notifications leave as the calls say, and none was there before:
    -- while the push service consumes its queue, over any number of rounds, the notifications that
    -- were sent are those for the messages that were taken from the queue, in their order, each
    -- once.
    pub start_push_service-Notified :
        (n : ℕ) (m : ConfigMap) (w : W)
        → taken w ≡ []
        → sent w ≡ []
        → (start_push_service host n m w).0 ≡ consuming
        → Notified (start_push_service host n m w).1
    unfolding start_push_service notifications
    start_push_service-Notified n m w none_taken none_sent =
        connected-Notified n m _
          (connect-Notified _ _ _ _ new_client w (rw (none_taken, none_sent) refl))
