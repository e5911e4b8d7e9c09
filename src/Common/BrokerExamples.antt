-- ===== src/Common/BrokerExamples.antt =====
-- The message queue client at concrete inputs.
use imsystem.Prelude.{
  ℕ, Bool, true, false, Option, none, some, List, [], ◌∷◌, ◌++◌, refl, if◌then◌else◌,
}
use imsystem.Prelude.Texts.{Text, text_eq}
use imsystem.Common.Effect.{std_exception, Outcome, returned, thrown, Io}
use imsystem.Common.RabbitmqClient.{Amqp, deliver, consume_round, rounds}
use imsystem.Common.RabbitmqClient.Settling.{Delivers, Passes, Broker, Balanced, rounds-Balanced}

-- A queue of numbered messages, and what was taken from it and settled.
record Queue : Type 0 where
  waiting : List ℕ
  taken : List ℕ
  done : List (ℕ × Bool)

abbrev take_from : Queue → List ℕ → Outcome (Option ℕ) × Queue
take_from q [] = (returned none, q)
take_from q (e ∷ es) = (returned (some e), record q { waiting = es; taken = q.taken ++ e ∷ [] })

abbrev settle_with : Bool → ℕ → Io Queue (Unit {0})
settle_with flag e q = (returned tt, record q { done = q.done ++ (e, flag) ∷ [] })

abbrev amqp : Amqp Queue ℕ
amqp = record {
  create_channel = λ host port user pass q. (returned 1, q);
  basic_publish = λ channel exchange key message q. (returned tt, q);
  basic_consume = λ channel name count q. (returned [], q);
  basic_consume_message = λ channel tag q. take_from q q.waiting;
  basic_ack = λ channel e q. settle_with true e q;
  basic_reject = λ channel e requeue q. settle_with false e q;
  body = λ e. e ∷ [];
}

-- A callback that fails on the message 7.
abbrev worked : Bool → Queue → Outcome (Unit {0}) × Queue
worked bad q = if bad then (thrown (std_exception []), q) else (returned tt, q)

abbrev callback : Text → Io Queue (Unit {0})
callback message = worked (text_eq message (7 ∷ []))

abbrev queue : Queue
queue = record { waiting = 3 ∷ 7 ∷ 5 ∷ []; taken = []; done = [] }

taken_from : (q : Queue) (l : List ℕ) → Delivers (λ u. u.taken) (λ u. u.done) q (take_from q l)
taken_from q [] = (refl, refl)
taken_from q (e ∷ es) = (refl, refl)

passed : (bad : Bool) (q : Queue) → Passes (λ u. u.taken) (λ u. u.done) q (worked bad q)
passed true q = (refl, refl)
passed false q = (refl, refl)

broker : Broker (λ q. q.taken) (λ q. q.done) amqp callback
broker = record {
  consumes = λ channel tag q. taken_from q q.waiting;
  acks = λ channel e q. (refl, refl);
  rejects = λ channel e q. (refl, refl);
  works = λ message q. passed (text_eq message (7 ∷ [])) q;
}

rounds-Balanced_example :
    Balanced (λ q. q.taken) (λ q. q.done) (rounds amqp 3 1 [] callback queue).1
unfolding rounds consume_round deliver text_eq
rounds-Balanced_example =
    rounds-Balanced (λ q. q.taken) (λ q. q.done) amqp callback broker 3 1 [] queue refl refl
