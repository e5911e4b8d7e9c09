-- ===== src/Push/Startup.antt =====
-- push/main.cpp: the push service as a consumer of the message queue.
pub mod Notifying
use imsystem.Prelude.{ℕ, Bool, true, false, not, Option, none, some, List, [], ◌∷◌, if◌then◌else◌}
use imsystem.Prelude.Int.{ℤ, pos}
use imsystem.Prelude.Texts.{Text, codes}
use imsystem.Common.Config.{ConfigMap, get_string, get_int}
use imsystem.Common.Effect.{Outcome, returned, thrown, Io}
use imsystem.Common.RabbitmqClient.{Amqp, RabbitmqClient, new_client, connect, subscribe}
use imsystem.Gateway.TcpConnection.{Json}
use imsystem.Push.PushManager.{Notification, handle_incoming_push_task}

-- The two messages of the simulation behind the subscription.
abbrev pub first_simulated : Text
first_simulated = codes "{\"receiver_id\": 2002, \"msg_type\": 1, \"content\": \"Hello iOS User!\"}"

abbrev pub second_simulated : Text
second_simulated =
    codes "{\"receiver_id\": 3003, \"msg_type\": 1, \"content\": \"Hello Android User!\"}"

-- How far the service has come: it returned or threw, it consumes, or its subscription has ended
-- and the simulation has run behind it.
pub data Progress : Type 0 where
  ended : Outcome (Unit {0}) → Progress
  consuming : Progress
  simulated : Progress

-- The surroundings: the queue, jsoncpp, the way out of a notification, and what the memory of a
-- platform held.
pub record PushHost (W Envelope J : Type 0) : Type 0 where
  pub amqp : Amqp W Envelope
  pub json : Json J
  pub notify : Notification → W → W
  pub unset : ℤ

module _ {W Envelope J : Type 0} (host : PushHost W Envelope J) where
  abbrev pub sent_out : Option Notification → W → W
  sent_out none w = w
  sent_out (some n) w = host.notify n w

  unfoldable pub callback : Text → Io W (Unit {0})
  callback msg w = (returned tt, sent_out (handle_incoming_push_task host.json host.unset msg) w)

  -- The thread of the simulation.
  abbrev pub simulate : W → W
  simulate w = (callback second_simulated (callback first_simulated w).1).1

  -- Whatever Subscribe answers, the simulation follows.
  abbrev pub subscribed : Option (Outcome Bool) × W → Progress × W
  subscribed (none, w) = (consuming, w)
  subscribed (some (returned ok), w) = (simulated, simulate w)
  subscribed (some (thrown e), w) = (ended (thrown e), w)

  abbrev pub connected : ℕ → ConfigMap → Outcome Bool × (RabbitmqClient × W) → Progress × W
  connected n m (returned true, (c, w)) = subscribed (
      subscribe host.amqp n c
        (get_string m (codes "dependencies.rabbitmq.queue") (codes "chat.push.queue")) callback w)
  connected n m (returned false, (c, w)) = (ended (returned tt), w)
  connected n m (thrown e, (c, w)) = (ended (thrown e), w)

  -- The service behind `PushManager::Init`, which answers true; the loop of Subscribe is cut after
  -- so many rounds.
  unfoldable pub start_push_service : ℕ → ConfigMap → W → Progress × W
  start_push_service n m w = connected n m (
      connect host.amqp (get_string m (codes "dependencies.rabbitmq.host") (codes "127.0.0.1"))
        (get_int m (codes "dependencies.rabbitmq.port") (pos 5672))
        (get_string m (codes "dependencies.rabbitmq.user") (codes "guest"))
        (get_string m (codes "dependencies.rabbitmq.pass") (codes "guest")) (new_client, w))
