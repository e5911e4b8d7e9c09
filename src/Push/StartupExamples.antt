-- ===== src/Push/StartupExamples.antt =====
-- The push service over a queue of two messages.
use imsystem.Prelude.{true, Option, none, some, List, [], ◌∷◌, ◌++◌, ◌≡◌, refl}
use imsystem.Prelude.Int.{pos}
use imsystem.Prelude.Texts.{Text, codes}
use imsystem.Common.Effect.{Outcome, returned}
use imsystem.Common.RabbitmqClient.{connect, deliver, consume_round, rounds, subscribe}
use imsystem.Push.PushManager.{
  Notification, handle_incoming_push_task, parse_message, has_required, read_receiver, read_content,
  fetch_device_token,
}
use imsystem.Push.Startup.{PushHost, consuming, callback, start_push_service}
use imsystem.Push.Startup.Notifying.{Takes, Watched, Notified, start_push_service-Notified}

-- A queue, what was taken from it, and what was sent.
record Post : Type 0 where
  waiting : List Text
  taken : List Text
  sent : List Notification

abbrev take_from : Post → List Text → Outcome (Option Text) × Post
take_from p [] = (returned none, p)
take_from p (m ∷ ms) = (returned (some m), record p { waiting = ms; taken = p.taken ++ m ∷ [] })

abbrev host : PushHost Post Text (Unit {0})
host = record {
  amqp = record {
    create_channel = λ address port user pass p. (returned 1, p);
    basic_publish = λ channel exchange key message p. (returned tt, p);
    basic_consume = λ channel name count p. (returned [], p);
    basic_consume_message = λ channel tag p. take_from p p.waiting;
    basic_ack = λ channel m p. (returned tt, p);
    basic_reject = λ channel m requeue p. (returned tt, p);
    body = λ m. m;
  };
  json = record {
    parse = λ s. returned (some tt);
    is_member = λ v name. returned true;
    get = λ v name. returned tt;
    as_string = λ v. returned (codes "hello");
    as_uint64 = λ v. returned 2002;
    as_int = λ v. returned (pos 1);
    write_result = λ code msg seq_id. seq_id;
  };
  notify = λ n p. record p { sent = p.sent ++ n ∷ [] };
  unset = pos 0;
}

abbrev taken : Post → List Text
taken p = p.taken

abbrev sent : Post → List Notification
sent p = p.sent

taken_from : (p : Post) (l : List Text) → Takes host taken sent p (take_from p l)
taken_from p [] = (refl, refl)
taken_from p (m ∷ ms) = (refl, refl)

host-Watched : Watched host taken sent
host-Watched = record {
  opens = λ address port user pass p. (refl, refl);
  subscribes = λ channel name count p. (refl, refl);
  consumes = λ channel tag p. taken_from p p.waiting;
  acks = λ channel m p. (refl, refl);
  rejects = λ channel m p. (refl, refl);
  notifies = λ n p. (refl, refl);
}

abbrev post : Post
post = record { waiting = codes "a" ∷ codes "b" ∷ []; taken = []; sent = [] }

it_consumes : (start_push_service host 2 [] post).0 ≡ consuming
unfolding start_push_service connect subscribe rounds consume_round deliver callback
    handle_incoming_push_task parse_message has_required read_receiver read_content
    fetch_device_token codes
it_consumes = refl

start_push_service-Notified_example : Notified host taken sent (start_push_service host 2 [] post).1
start_push_service-Notified_example =
    start_push_service-Notified host taken sent host-Watched 2 [] post refl refl it_consumes
