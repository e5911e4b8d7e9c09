-- ===== src/Logic/ChatHandler.antt =====
-- logic/src/chat_handler.h and chat_handler.cpp. The trie of the filter's singleton and the time
-- that the clock gives are arguments.
pub mod Sending
use imsystem.Prelude.{ℕ, Bool, true, false, Option, none, some, ◌==◌, ◌&&◌, if◌then◌else◌, is_empty}
use imsystem.Prelude.Int.{ℤ, pos, eqb_ℤ}
use imsystem.Prelude.Texts.{Text}
use imsystem.Logic.Trie.{TrieNode}
use imsystem.Logic.SensitiveFilter.{has_sensitive_word, filter}

pub record LogicChatMsg : Type 0 where
  pub msg_id : Text
  pub sender_id : ℕ
  pub receiver_id : ℕ
  pub session_type : ℤ
  pub msg_type : ℤ
  pub content : Text
  pub send_time : ℤ
  pub server_time : ℤ
  pub seq_id : Text

-- The two subclasses of `BaseChatHandler`.
pub data Handler : Type 0 where
  single_chat group_chat : Handler

unfoldable pub single_validate : LogicChatMsg → Bool
single_validate msg = if msg.sender_id == msg.receiver_id then false else true

unfoldable pub single_process_send : TrieNode → ℤ → LogicChatMsg → Bool × LogicChatMsg
single_process_send root now msg =
    let text : Text =
      if eqb_ℤ msg.msg_type (pos 1)
      then (if has_sensitive_word root msg.content then filter root msg.content else msg.content)
      else msg.content in
    (true, record msg { content = text; server_time = now })

unfoldable pub group_validate : LogicChatMsg → Bool
group_validate msg = if msg.receiver_id == 0 then false else true

unfoldable pub group_process_send : TrieNode → ℤ → LogicChatMsg → Bool × LogicChatMsg
group_process_send root now msg =
    let text : Text =
      if eqb_ℤ msg.msg_type (pos 1)
      then (if has_sensitive_word root msg.content then filter root msg.content else msg.content)
      else msg.content in
    (true, record msg { content = text; server_time = now })

-- The virtual calls.
unfoldable pub validate : Handler → LogicChatMsg → Bool
unfolding single_validate group_validate
validate single_chat msg = single_validate msg
validate group_chat msg = group_validate msg

unfoldable pub process_send : Handler → TrieNode → ℤ → LogicChatMsg → Bool × LogicChatMsg
unfolding single_process_send group_process_send
process_send single_chat root now msg = single_process_send root now msg
process_send group_chat root now msg = group_process_send root now msg
