-- ===== src/Message/Simulation.antt =====
-- message/main.cpp: the two clients that `main` simulates, one that saves and one that pulls.
use mathlib.Core.List.{Perm}
use imsystem.Prelude.{ℕ, Bool, true, ◌<◌, false, List, [], ◌∷◌, ◌≡◌, map, length, arith}
use imsystem.Prelude.Int.{ℤ, pos}
use imsystem.Prelude.Texts.{Text, codes}
use imsystem.Common.Sql.{Sql}
use imsystem.Logic.ChatHandler.{LogicChatMsg}
use imsystem.Message.MessageService.{body_of, message_of, save_message, pull_offline_messages}
use imsystem.Message.MessageService.Delivery.{ids_with, save_message-pull_offline_messages}
use imsystem.Message.MessageService.Stores.{Stored, Stores, behind, has_seq, documents_of}
use imsystem.Message.MsgBodyDao.{Mongo}
use imsystem.Message.MsgIndexDao.{seq_text}

-- The two times are not set.
abbrev pub mock_msg : LogicChatMsg → LogicChatMsg
mock_msg unset = record {
  msg_id = codes "MSG-UUID-SAVE-001";
  sender_id = 1001;
  receiver_id = 2002;
  session_type = pos 1;
  msg_type = pos 1;
  content = codes "Hello! This is a test message to be saved.";
  send_time = unset.send_time;
  server_time = unset.server_time;
  seq_id = [];
}

abbrev pub client_last_seq : Text
client_last_seq = codes "SEQ_1770000000000_10000"

module _ {W Row : Type 0} (sql : Sql W Row) (clock : W → ℤ × W) (mongo : Mongo W) where
  unfoldable pub simulate_save : LogicChatMsg → W → Text × W
  simulate_save unset = save_message sql clock mongo (mock_msg unset)

  unfoldable pub simulate_pull : LogicChatMsg → W → List LogicChatMsg × W
  simulate_pull unset = pull_offline_messages sql clock mongo unset 2002 client_last_seq (pos 100)

  module _ (view : W → Stored) (last_id : ℕ → W → ℕ) (takes : ℕ → Bool)
      (up : Stores sql clock mongo view last_id takes) (any_time : (n : ℕ) → takes n ≡ true) where
    -- With stores that are up and take every number as a time, where the next row has a number above 10000 and the receiver neither
    -- a row with the empty sequence id nor a hundred rows above that number: the message of the one
    -- client comes to the other, with the documents that were there before.
    simulate_pull-simulate_save :
        (unset : LogicChatMsg) (w : W)
        → has_seq 2002 [] (view w).table ≡ false
        → 10000 < (view w).next_id
        → length (behind 2002 10000 (view w).table) < 100
        → Perm (simulate_pull unset (simulate_save unset w).1).0 (
            map (message_of sql clock mongo unset) (
              body_of (mock_msg unset)
              ∷ documents_of (ids_with (mock_msg unset) 10000 (view w).table) (view w).documents))
    unfolding simulate_pull simulate_save seq_text codes
    simulate_pull-simulate_save unset w fresh old few =
        (save_message-pull_offline_messages sql clock mongo view last_id takes up any_time
          (mock_msg unset) unset (pos 1770000000000) 10000 100 w fresh (omega arith) old few).1
