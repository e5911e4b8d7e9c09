-- ===== src/Message/Examples.antt =====
-- The message service at concrete inputs.
use imsystem.Prelude.{ℕ, zero, suc, true, none, some, List, [], ◌∷◌, ◌≡◌, refl}
use imsystem.Prelude.Int.{ℤ, pos}
use imsystem.Prelude.Texts.{Text, codes}
use imsystem.Common.Effect.{other_exception, returned, thrown, Io}
use imsystem.Common.Sql.{Sql}
use imsystem.Logic.ChatHandler.{LogicChatMsg}
use imsystem.Message.Model.{MsgBody}
use imsystem.Message.MsgBodyDao.{Cursor, Mongo, batch_get}
use imsystem.Message.MsgBodyDao.Fetching.{batch_get-after_failure}
use imsystem.Message.MessageService.{save_message}
use imsystem.Message.MessageService.Saving.{UniqueSeq, save_message-refused}

abbrev body : MsgBody
body = record {
  msg_id = codes "m1";
  content = codes "hello";
  msg_type = pos 1;
  session_type = pos 1;
}

-- A store whose cursor breaks off behind the first document as often as the world says.
abbrev broken : List Text → Io ℕ Cursor
broken ids zero = (returned (record { documents = body ∷ []; failure = none }), zero)
broken ids (suc n) =
    (returned (record { documents = body ∷ []; failure = some other_exception }), n)

abbrev mongo : Mongo ℕ
mongo = record { insert_one = λ b w. (returned true, w); find_in = broken; sleep = λ n w. w }

batch_get-after_failure_example : batch_get mongo (codes "m1" ∷ []) 1 ≡ (body ∷ body ∷ [], 0)
batch_get-after_failure_example =
    batch_get-after_failure mongo (codes "m1") [] 1 0 0 (body ∷ []) (body ∷ []) other_exception refl
      refl

-- A database in which every receiver has a row with the empty sequence id, beside no other.
abbrev full_sql : Sql ℕ (Unit {0})
full_sql = record {
  acquire = λ w. (some 1, w);
  release = λ conn w. w;
  execute_query = λ conn s ps w. (returned (record { rows = tt ∷ []; failure = none }), w);
  execute_update = λ conn s ps w. (thrown other_exception, w);
  get_uint64 = λ r c. 3;
  get_int = λ r c. pos 0;
  get_string = λ r c. [];
  sleep = λ n w. w;
}

abbrev tick : ℕ → ℤ × ℕ
tick w = (pos w, w)

abbrev Taken : ℕ → Text → ℕ → Type 0
Taken r s w = s ≡ []

full_sql-UniqueSeq : UniqueSeq full_sql tick mongo Taken
full_sql-UniqueSeq = record {
  refuses = λ conn index created w t. (other_exception, refl);
  updated = λ conn ps r s w t. t;
  acquired = λ r s w t. t;
  released = λ conn r s w t. t;
  slept = λ n r s w t. t;
  ticked = λ r s w t. t;
  bodies = λ b r s w t. t;
}

abbrev chat : LogicChatMsg
chat = record {
  msg_id = codes "m1";
  sender_id = 7;
  receiver_id = 9;
  session_type = pos 1;
  msg_type = pos 1;
  content = codes "hello";
  send_time = pos 0;
  server_time = pos 0;
  seq_id = [];
}

save_message-refused_example : (save_message full_sql tick mongo chat 0).0 ≡ []
save_message-refused_example =
    save_message-refused full_sql tick mongo Taken full_sql-UniqueSeq chat 0 refl
