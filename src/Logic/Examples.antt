-- ===== src/Logic/Examples.antt =====
-- The filter, the handlers and the processing of messages at concrete inputs.
use imsystem.Prelude.{
  ℕ, zero, suc, ◌+◌, ◌↔◌, ◌⊎◌, ap, ◌∙◌, Bool, true, false, ◌||◌, List, [], ◌∷◌, ◌≡◌, refl,
}
use imsystem.Prelude.Int.{ℤ, pos}
use imsystem.Prelude.Texts.{Text, codes}
use imsystem.Common.Retry.{execute_with_retry, retry_loop, on_failure}
use imsystem.Logic.Trie.{TrieNode, new_node}
use imsystem.Logic.Trie
use imsystem.Logic.Trie.Words.{listed}
use imsystem.Logic.SensitiveFilter.{has_sensitive_word, filter}
use imsystem.Logic.SensitiveFilter.Detect.{Contains, has_sensitive_word-init}
use imsystem.Logic.SensitiveFilter.Censor.{censor, filter-eq-censor}
use imsystem.Logic.SensitiveFilter.Clean.{StarFree, mem_byte, has_sensitive_word-filter}
use imsystem.Logic.SensitiveFilter.Loaded.{star_free_words, loaded-StarFree}
use imsystem.Logic.ChatHandler.{LogicChatMsg}
use imsystem.Logic.ChatHandler.Sending.{sent}
use imsystem.Logic.Processor.{
  SaveMsgReq, SaveMsgResp, SendMsgReq, Reply, bad_status, response, Processed,
  call_message_service_to_save, save_attempt, read_reply, process_incoming_message, send_message,
}
use imsystem.Logic.Processor.Outgoing.{
  process_incoming_message-cases, admissible, received, Delivered, process_incoming_message-cases,
  process_incoming_message-keeps, process_incoming_message-Delivered, send_message-cases,
}

abbrev words : List Text
words = codes "bad" ∷ codes "evil" ∷ []

abbrev loaded : TrieNode
loaded = Trie.init new_node words

abbrev remark : Text
remark = codes "a bad day"

remark_is_found : has_sensitive_word loaded remark ≡ true
unfolding has_sensitive_word Trie.init codes Trie.put
remark_is_found = refl

remark_is_masked : filter loaded remark ≡ codes "a *** day"
unfolding filter Trie.init codes Trie.put
remark_is_masked = refl

loaded_free : StarFree loaded
unfolding star_free_words codes mem_byte
loaded_free = loaded-StarFree words refl

has_sensitive_word-filter_example : has_sensitive_word loaded (filter loaded remark) ≡ false
has_sensitive_word-filter_example = has_sensitive_word-filter loaded remark loaded_free

has_sensitive_word-init_example :
    (has_sensitive_word loaded remark ≡ true) ↔ Contains new_node words remark
has_sensitive_word-init_example = has_sensitive_word-init new_node words remark

filter-eq-censor_example : filter loaded remark ≡ censor (λ w. listed w words) 0 remark
filter-eq-censor_example = filter-eq-censor words remark

abbrev chat : LogicChatMsg
chat = record {
  msg_id = codes "m1";
  sender_id = 7;
  receiver_id = 9;
  session_type = pos 1;
  msg_type = pos 1;
  content = remark;
  send_time = pos 0;
  server_time = pos 0;
  seq_id = [];
}

-- A world that remembers how late it is, how many calls the message service still fails, and
-- whether it has been sent a sensitive word.
abbrev World : Type 0
World = ℕ × (ℕ × Bool)

abbrev clock : World → ℤ × World
clock (t, w) = (pos t, (t + 1, w))

abbrev sleep : ℕ → World → World
sleep n (t, w) = (t + n, w)

abbrev save_msg : SaveMsgReq → World → Reply SaveMsgResp × World
save_msg req (t, (zero, seen)) = (
  response (record { code = pos 0; msg = []; seq_id = codes "SEQ_1_1" }),
  (t, (zero, has_sensitive_word loaded req.content || seen)),
)
save_msg req (t, (suc n, seen)) =
    (bad_status (codes "down"), (t, (n, has_sensitive_word loaded req.content || seen)))

abbrev start : World
start = (100, (2, false))

abbrev Unseen : World → Type 0
Unseen (t, (n, seen)) = seen ≡ false

took :
    (req : SaveMsgReq) (w : World)
    → has_sensitive_word loaded req.content ≡ false
    → Unseen w
    → Unseen (save_msg req w).1
took req (t, (zero, seen)) clean p = rw (clean, p) refl
took req (t, (suc n, seen)) clean p = rw (clean, p) refl

process_incoming_message-keeps_example :
    Unseen (process_incoming_message clock sleep save_msg loaded chat [] start).1
process_incoming_message-keeps_example =
    process_incoming_message-keeps clock sleep save_msg Unseen loaded (λ w p. p) (λ w p. p) took
      chat [] start loaded_free refl refl

chat_is_saved :
    (call_message_service_to_save clock sleep save_msg
      (sent loaded (pos 100) chat)
      []
      (101, (2, false))).0.success
    ≡ true
unfolding call_message_service_to_save save_attempt execute_with_retry retry_loop on_failure
    read_reply
chat_is_saved = refl

chat_succeeds :
    (process_incoming_message clock sleep save_msg loaded chat [] start).0.success ≡ true
chat_succeeds =
    ap (λ (r : Processed × World). r.0.success)
      (process_incoming_message-cases clock sleep save_msg loaded chat [] start)
    ∙ chat_is_saved

process_incoming_message-Delivered_example :
    (admissible chat ≡ true)
    × Delivered clock sleep save_msg
        (sent loaded (pos 100) chat)
        (101, (2, false))
        (process_incoming_message clock sleep save_msg loaded chat [] start).0
process_incoming_message-Delivered_example =
    process_incoming_message-Delivered clock sleep save_msg loaded chat [] start chat_succeeds

abbrev request : SendMsgReq
request = record {
  msg_id = codes "m1";
  sender_id = 7;
  receiver_id = 9;
  session_type = pos 1;
  msg_type = pos 1;
  content = remark;
}

send_message-cases_example :
    let answer = (send_message clock sleep save_msg loaded (pos 0) request start).0 in
    let msg = received (pos 0) request (pos 100) in
    ((answer.code ≡ pos 0)
      × (admissible msg ≡ true)
      × ((p : Processed) × (answer.seq_id ≡ p.out_seq_id)
          × Delivered clock sleep save_msg (sent loaded (pos 101) msg) (102, (2, false)) p))
    ⊎ ((answer.code ≡ pos 500) × (answer.seq_id ≡ []))
send_message-cases_example = send_message-cases clock sleep save_msg loaded (pos 0) request start
