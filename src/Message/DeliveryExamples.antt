-- ===== src/Message/DeliveryExamples.antt =====
-- The message service over two stores in memory.
use mathlib.Core.List.{Perm}
use mathlib.Core.List.Perm
use imsystem.Prelude.{ℕ, true, some, none, List, [], ◌∷◌, ◌≡◌, refl, map, arith, ap, take}
use imsystem.Prelude.Int.{ℤ, pos}
use imsystem.Prelude.Texts.{Text, codes}
use imsystem.Common.Effect.{returned, Io}
use imsystem.Common.Sql.{Sql, Param, text, uint64, int, ResultSet}
use imsystem.Logic.ChatHandler.{LogicChatMsg}
use imsystem.Message.Model.{new_index}
use imsystem.Message.MsgBodyDao.{Mongo}
use imsystem.Message.MsgIndexDao.{seq_text}
use imsystem.Message.MessageService.{body_of, message_of, save_message, pull_offline_messages}
use imsystem.Message.MessageService.Pulling.{ids_in}
use imsystem.Message.MessageService.Stores.{
  Stored, Stores, behind, has_seq, documents_of, with_row, with_document,
}
use imsystem.Message.MessageService.Delivery.{ids_with, save_message-pull_offline_messages}

record Db : Type 0 where
  stored : Stored
  last : ℕ

-- A row of an answer: a number, or a message id.
data Row : Type 0 where
  of_id : ℕ → Row
  of_text : Text → Row

abbrev read_id : Row → ℕ
read_id (of_id n) = n
read_id (of_text t) = 0

abbrev read_text : Row → Text
read_text (of_id n) = []
read_text (of_text t) = t

abbrev answer : List Row → Db → Io Db (ResultSet Row)
answer rows db w = (returned (record { rows = rows; failure = none }), w)

-- The two queries of the service are told apart by their parameters.
abbrev query : List Param → Db → List Row
query (uint64 user_id ∷ uint64 last ∷ int (pos limit) ∷ []) db =
    map of_text (take limit (behind user_id last db.stored.table))
query _ db = of_id db.last ∷ []

abbrev update : List Param → Db → Db
update (text m ∷ uint64 s ∷ uint64 r ∷ int t ∷ text q ∷ _) db = record {
  stored =
      with_row
        (record new_index {
          msg_id = m;
          sender_id = s;
          receiver_id = r;
          session_type = t;
          seq_id = q;
        })
        db.stored;
  last = db.stored.next_id;
}
update _ db = db

abbrev sql : Sql Db Row
sql = record {
  acquire = λ w. (some 1, w);
  release = λ conn w. w;
  execute_query = λ conn s ps w. answer (query ps w) w w;
  execute_update = λ conn s ps w. (returned tt, update ps w);
  get_uint64 = λ r c. read_id r;
  get_int = λ r c. pos 0;
  get_string = λ r c. read_text r;
  sleep = λ n w. w;
}

abbrev mongo : Mongo Db
mongo = record {
  insert_one = λ b w. (returned true, record w { stored = with_document b w.stored });
  find_in = λ ids w.
      (returned (record { documents = documents_of ids w.stored.documents; failure = none }), w);
  sleep = λ n w. w;
}

abbrev clock : Db → ℤ × Db
clock w = (pos 5, w)

ids_in-of_text : (ts : List Text) → ids_in sql (map of_text ts) ≡ ts
ids_in-of_text [] = refl
ids_in-of_text (t ∷ ts) = ap (λ l. t ∷ l) (ids_in-of_text ts)

up : Stores sql clock mongo (λ w. w.stored) (λ conn w. w.last) (λ n. true)
up = record {
  acquires = λ w. (1, w, refl, refl);
  releases = λ conn w. refl;
  ticks = λ w. refl;
  inserts = λ conn index created w taken fresh. (_, refl, refl, refl);
  reads_id = λ conn w. (of_id w.last, w, refl, refl, refl);
  selects = λ conn user_id last limit w. (_, w, refl, refl, ids_in-of_text _);
  stores = λ body w. (_, refl, refl);
  finds = λ ids w. (_, w, refl, Perm.refl _);
}

abbrev empty : Db
empty = record { stored = record { table = []; documents = []; next_id = 7 }; last = 0 }

abbrev chat : LogicChatMsg
chat = record {
  msg_id = codes "m1";
  sender_id = 3;
  receiver_id = 9;
  session_type = pos 1;
  msg_type = pos 1;
  content = codes "hello";
  send_time = pos 0;
  server_time = pos 0;
  seq_id = [];
}

abbrev view : Db → Stored
view w = w.stored

save_message-pull_offline_messages_example :
    ((saved_ms : ℤ) × ((save_message sql clock mongo chat empty).0 ≡ seq_text saved_ms 7))
    × Perm
        (pull_offline_messages sql clock mongo chat 9
          (seq_text (pos 4) 6)
          (pos 100)
          (save_message sql clock mongo chat empty).1).0
        (map
          (message_of sql clock mongo chat)
          (body_of chat ∷ documents_of (ids_with chat 6 []) []))
unfolding behind has_seq
save_message-pull_offline_messages_example =
    save_message-pull_offline_messages sql clock mongo view (λ conn w. w.last) (λ n. true) up
      (λ n. refl) chat chat (pos 4) 6 100 empty refl (omega arith) (omega arith) (omega arith)
