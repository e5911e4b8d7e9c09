-- ===== src/Logic/ChatHandler/Sending.antt =====
-- What `ProcessSend` does to a message.
use imsystem.Prelude.{true, ◌≡◌, arith, if◌then◌else◌}
use imsystem.Prelude.Int.{ℤ, pos, eqb_ℤ}
use imsystem.Logic.Trie.{TrieNode}
use imsystem.Logic.SensitiveFilter.{filter}
use imsystem.Logic.SensitiveFilter.Clean.{filter_clean}
use imsystem.Logic.ChatHandler.{LogicChatMsg, Handler, single_chat, group_chat, process_send}

-- The message that a handler makes of one: a text is filtered, and the server's time is set.
abbrev pub sent : TrieNode → ℤ → LogicChatMsg → LogicChatMsg
sent root now msg = record msg {
  content = if eqb_ℤ msg.msg_type (pos 1) then filter root msg.content else msg.content;
  server_time = now;
}

-- Both handlers accept every message and make `sent` of it: testing the text first changes nothing.
pub process_send-eq-sent :
    (h : Handler) (root : TrieNode) (now : ℤ) (msg : LogicChatMsg)
    → process_send h root now msg ≡ (true, sent root now msg)
unfolding process_send
process_send-eq-sent single_chat root now msg = ground (arith, filter_clean root msg.content)
process_send-eq-sent group_chat root now msg = ground (arith, filter_clean root msg.content)
