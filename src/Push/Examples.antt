-- ===== src/Push/Examples.antt =====
-- The push service at concrete inputs.
use imsystem.Prelude.{true, some, [], ◌≡◌, refl, arith}
use imsystem.Prelude.Int.{pos}
use imsystem.Prelude.Texts.{codes}
use imsystem.Common.Effect.{other_exception, returned, thrown}
use imsystem.Gateway.TcpConnection.{Json}
use imsystem.Push.PushManager.{
  has_required, read_receiver, read_content, handle_incoming_push_task, apns,
}
use imsystem.Push.PushManager.Routing.{expected, handle_incoming_push_task_complete}

-- A library that reads every text as the same object, for user 2002, whose content throws.
abbrev json : Json (Unit {0})
json = record {
  parse = λ s. returned (some tt);
  is_member = λ v name. returned true;
  get = λ v name. returned tt;
  as_string = λ v. thrown other_exception;
  as_uint64 = λ v. returned 2002;
  as_int = λ v. returned (pos 1);
  write_result = λ code msg seq_id. seq_id;
}

it_is_whole : has_required json tt ≡ returned true
unfolding has_required
it_is_whole = refl

its_receiver : read_receiver json tt ≡ returned 2002
unfolding read_receiver
its_receiver = refl

handle_incoming_push_task_complete_example :
    handle_incoming_push_task json (pos 0) (codes "{}")
    ≡ some (apns (codes "apns_device_token_abcdef123456") (codes "New Message") [])
unfolding expected read_content
handle_incoming_push_task_complete_example =
    handle_incoming_push_task_complete json (pos 0) (codes "{}") tt 2002 refl it_is_whole
      its_receiver (λ e. ground arith)
