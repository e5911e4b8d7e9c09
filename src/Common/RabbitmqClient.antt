-- ===== src/Common/RabbitmqClient.antt =====
-- common/src/mq/rabbitmq_client.cpp. The SimpleAmqpClient library is a parameter; a channel of the
-- library is a number.
pub mod Settling
use imsystem.Prelude.{ℕ, zero, suc, Bool, true, false, Option, none, some, [], ◌∷◌}
use imsystem.Prelude.Int.{ℤ}
use imsystem.Prelude.Texts.{Text}
use imsystem.Common.Effect.{
  Exn, std_exception, other_exception, Outcome, returned, thrown, Io, pure, resume, ◌>>=◌, ◌>>◌,
}

pub record Amqp (W Envelope : Type 0) : Type 0 where
  pub create_channel : Text → ℤ → Text → Text → Io W ℕ
  -- The exchange, the routing key and the text that the message is created with.
  pub basic_publish : ℕ → Text → Text → Text → Io W (Unit {0})
  -- The consumer tag for a queue, with the acknowledgement by hand and a prefetch count.
  pub basic_consume : ℕ → Text → ℕ → Io W Text
  -- A wait without end: an envelope, unless the call answers false.
  pub basic_consume_message : ℕ → Text → Io W (Option Envelope)
  pub basic_ack : ℕ → Envelope → Io W (Unit {0})
  pub basic_reject : ℕ → Envelope → Bool → Io W (Unit {0})
  pub body : Envelope → Text

pub record RabbitmqClient : Type 0 where
  pub channel : Option ℕ

abbrev pub new_client : RabbitmqClient
new_client = record { channel = none }

-- `catch (const std::exception&)` whose handler goes on with `f`: anything else that is thrown
-- leaves it.
abbrev pub catch_std : {W A : Type 0} → Io W A → Outcome A × W → Outcome A × W
catch_std f (returned a, w) = (returned a, w)
catch_std f (thrown (std_exception what), w) = f w
catch_std f (thrown other_exception, w) = (thrown other_exception, w)

module _ {W Envelope : Type 0} (amqp : Amqp W Envelope) where
  -- The members stand beside the world.
  abbrev pub connected : RabbitmqClient → Outcome ℕ × W → Outcome Bool × (RabbitmqClient × W)
  connected c (returned channel, w) = (returned true, (record c { channel = some channel }, w))
  connected c (thrown e, w) = catch_std (pure false) (thrown e, (c, w))

  unfoldable pub connect : Text → ℤ → Text → Text → Io (RabbitmqClient × W) Bool
  connect host port user pass (c, w) = connected c (amqp.create_channel host port user pass w)

  abbrev pub publish_on : Text → Text → Text → Option ℕ → Io W Bool
  publish_on exchange routing_key message none w = pure false w
  publish_on exchange routing_key message (some channel) w =
      catch_std (pure false)
        ((do amqp.basic_publish channel exchange routing_key message; pure true) w)

  unfoldable pub publish : RabbitmqClient → Text → Text → Text → Io W Bool
  publish c exchange routing_key message = publish_on exchange routing_key message c.channel

  -- The inner `try`: an acknowledgement behind the callback, a rejection that puts the message back
  -- into the queue if one of the two throws.
  unfoldable pub deliver : ℕ → (Text → Io W (Unit {0})) → Envelope → Io W (Unit {0})
  deliver channel callback envelope w =
      catch_std (amqp.basic_reject channel envelope true)
        ((do callback (amqp.body envelope); amqp.basic_ack channel envelope) w)

  abbrev pub deliver_some : ℕ → (Text → Io W (Unit {0})) → Option Envelope → Io W (Unit {0})
  deliver_some channel callback none = pure tt
  deliver_some channel callback (some envelope) = deliver channel callback envelope

  -- The body of the loop.
  unfoldable pub consume_round : ℕ → Text → (Text → Io W (Unit {0})) → Io W (Unit {0})
  consume_round channel consumer_tag callback = do
    envelope ← amqp.basic_consume_message channel consumer_tag
    deliver_some channel callback envelope

  -- So many rounds of the loop, unless one throws before.
  unfoldable pub rounds : ℕ → ℕ → Text → (Text → Io W (Unit {0})) → Io W (Unit {0})
  rounds zero channel consumer_tag callback = pure tt
  rounds (suc n) channel consumer_tag callback = do
    rounds n channel consumer_tag callback
    consume_round channel consumer_tag callback

  -- What Subscribe answers if it ends within so many rounds: none while the loop goes on.
  abbrev pub ended : Outcome (Unit {0}) × W → Option (Outcome Bool) × W
  ended (returned r, w) = (none, w)
  ended (thrown (std_exception what), w) = (some (returned false), w)
  ended (thrown other_exception, w) = (some (thrown other_exception), w)

  abbrev pub subscribe_on :
      ℕ → Text → (Text → Io W (Unit {0})) → Option ℕ → W → Option (Outcome Bool) × W
  subscribe_on n queue_name callback none w = (some (returned false), w)
  subscribe_on n queue_name callback (some channel) w = ended (
      (do
        consumer_tag ← amqp.basic_consume channel queue_name 100
        rounds n channel consumer_tag callback)
        w)

  unfoldable pub subscribe :
      ℕ → RabbitmqClient → Text → (Text → Io W (Unit {0})) → W → Option (Outcome Bool) × W
  subscribe n c queue_name callback = subscribe_on n queue_name callback c.channel
