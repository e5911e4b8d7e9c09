-- ===== src/Logic/Processor/Outgoing.antt =====
-- Which messages reach the message service, and with which content.
use imsystem.Prelude.{
  ℕ, Bool, true, false, not, [], ◌==◌, ◌&&◌, ◌||◌, if◌then◌else◌, ◌≡◌, ◌≤◌, refl, arith, ap, sym,
  inl, inr, Bool-cases, ◌⊎◌, subst,
}
use imsystem.Prelude.Int.{ℤ, pos, eqb_ℤ}
use imsystem.Prelude.Texts.{Text}
use imsystem.Common.Effect.{Outcome, returned, thrown}
use imsystem.Common.Retry.Attempts.{Failed, Ends, execute_with_retry-Ends}
use imsystem.Common.Retry.Keeps.{execute_with_retry-keeps}
use imsystem.Logic.Trie.{TrieNode}
use imsystem.Logic.SensitiveFilter.{has_sensitive_word}
use imsystem.Logic.SensitiveFilter.Clean.{StarFree, has_sensitive_word-filter}
use imsystem.Logic.ChatHandler.{LogicChatMsg, Handler, single_chat, group_chat, validate}
use imsystem.Logic.ChatHandler.Sending.{sent, process_send-eq-sent}
use imsystem.Logic.Processor.{
  SaveMsgReq, SaveMsgResp, Reply, bad_status, response, SendMsgReq, Processed, get_handler,
  save_req, read_reply, save_attempt, saved, call_message_service_to_save, process_incoming_message,
  send_message, dispatch_to_push_service, dispatched, handled,
}

-- A single chat between two users, or a group chat in a group with an id.
abbrev pub admissible : LogicChatMsg → Bool
admissible msg =
    (eqb_ℤ msg.session_type (pos 1) && not (msg.sender_id == msg.receiver_id))
    || (eqb_ℤ msg.session_type (pos 2) && not (msg.receiver_id == 0))

abbrev pub refused : LogicChatMsg → Text → Processed
refused msg out = record { success = false; msg = msg; out_seq_id = out }

-- The message that `SendMessage` builds from a request.
abbrev pub received : ℤ → SendMsgReq → ℤ → LogicChatMsg
received unset req now = record {
  msg_id = req.msg_id;
  sender_id = req.sender_id;
  receiver_id = req.receiver_id;
  session_type = req.session_type;
  msg_type = req.msg_type;
  content = req.content;
  send_time = now;
  server_time = unset;
  seq_id = [];
}

-- A reply that carries no error.
abbrev pub Accepts : Reply SaveMsgResp → Text → Type 0
Accepts (bad_status e) seq = ⊥
Accepts (response r) seq = (eqb_ℤ r.code (pos 0) ≡ true) × (r.seq_id ≡ seq)

module _ {W : Type 0} (clock : W → ℤ × W) (sleep : ℕ → W → W)
    (save_msg : SaveMsgReq → W → Reply SaveMsgResp × W) where
  dispatched-eq : (r : Processed × W) → dispatched clock sleep save_msg r ≡ r
  unfolding dispatch_to_push_service
  dispatched-eq (p, w) = ground arith

  handled-eq :
      (h : Handler) (root : TrieNode) (msg : LogicChatMsg) (out : Text) (w : W)
      → handled clock sleep save_msg h root msg out w
        ≡ call_message_service_to_save clock sleep save_msg
            (sent root (clock w).0 msg)
            out
            (clock w).1
  handled-eq h root msg out w = rw (process_send-eq-sent h root (clock w).0 msg) (dispatched-eq _)

  -- A message is refused, with nothing changed and nothing sent, exactly when it is not admissible;
  -- any other is saved as the handlers make it, at the time that the clock gives.
  pub process_incoming_message-cases :
      (root : TrieNode) (msg : LogicChatMsg) (out : Text) (w : W)
      → process_incoming_message clock sleep save_msg root msg out w ≡ (
          if admissible msg
          then call_message_service_to_save clock sleep save_msg
              (sent root (clock w).0 msg)
              out
              (clock w).1
          else (refused msg out, w))
  unfolding process_incoming_message get_handler validate
  process_incoming_message-cases root msg out w =
      ground (arith, handled-eq single_chat root msg out w, handled-eq group_chat root msg out w)

  saved_world :
      (msg : LogicChatMsg) (out : Text) (r : Outcome Text × W)
      → (saved clock sleep save_msg msg out r).1 ≡ r.1
  saved_world msg out (returned s, w) = refl
  saved_world msg out (thrown e, w) = refl

  module _ (P : W → Type 0) (root : TrieNode) (ticked : (w : W) → P w → P (clock w).1)
      (slept : (w : W) → P w → P (sleep 500 w))
      (took : (req : SaveMsgReq) (w : W)
        → has_sensitive_word root req.content ≡ false
        → P w
        → P (save_msg req w).1) where
    call-keeps :
        (msg : LogicChatMsg) (out : Text) (w : W)
        → has_sensitive_word root msg.content ≡ false
        → P w
        → P (call_message_service_to_save clock sleep save_msg msg out w).1
    unfolding call_message_service_to_save save_attempt
    call-keeps msg out w clean p = subst P (sym (saved_world msg out _)) (
        execute_with_retry-keeps P sleep 500 slept (pos 3) (save_attempt clock sleep save_msg msg)
          (λ v q. took (save_req msg) v clean q) w p)

    -- What the clock, the pause and every request without a sensitive word keep, processing a
    -- message of type text keeps: so no request with a sensitive word leaves. No word of the trie
    -- may contain the star.
    pub process_incoming_message-keeps :
        (msg : LogicChatMsg) (out : Text) (w : W)
        → StarFree root
        → eqb_ℤ msg.msg_type (pos 1) ≡ true
        → P w
        → P (process_incoming_message clock sleep save_msg root msg out w).1
    process_incoming_message-keeps msg out w free text p =
        rw process_incoming_message-cases (elim (Bool-cases (admissible msg)) [
          | inl a ↦ rw a (
              call-keeps (sent root (clock w).0 msg) out (clock w).1
                (rw text (has_sensitive_word-filter root msg.content free)) (ticked w p))
          | inr a ↦ rw a p
        ])

  -- The message service accepted the message, after at most three failed attempts, under the
  -- sequence id that the caller gets.
  pub record Delivered (msg : LogicChatMsg) (w : W) (p : Processed) : Type 0 where
    pub failures : ℕ
    pub at : W
    pub failed : Failed sleep 500 (save_attempt clock sleep save_msg msg) failures w at
    pub bounded : failures ≤ 3
    pub accepted : Accepts (save_msg (save_req msg) at).0 p.out_seq_id
    pub stored : p.msg ≡ record msg { seq_id = p.out_seq_id }

  read_reply-Accepts :
      (r : Reply SaveMsgResp) (seq : Text) → read_reply r ≡ returned seq → Accepts r seq
  unfolding read_reply
  read_reply-Accepts (bad_status e) seq h = cc
  read_reply-Accepts (response r) seq h = ground arith

  saved-Delivered :
      (msg : LogicChatMsg) (out : Text) (w : W) (r : Outcome Text × W)
      → Ends sleep 500 (save_attempt clock sleep save_msg msg) 3 w r
      → (saved clock sleep save_msg msg out r).0.success ≡ true
      → Delivered msg w (saved clock sleep save_msg msg out r).0
  unfolding save_attempt
  saved-Delivered msg out w (thrown e, v) d h = cc
  saved-Delivered msg out w (returned seq, v) d h = record {
    failures = d.failures;
    at = d.last;
    failed = d.failed;
    bounded = d.within;
    accepted =
        read_reply-Accepts (save_msg (save_req msg) d.last).0 seq
          (ap (λ (r : Outcome Text × W). r.0) d.result);
    stored = refl;
  }

  call-Delivered :
      (msg : LogicChatMsg) (out : Text) (w : W)
      → (call_message_service_to_save clock sleep save_msg msg out w).0.success ≡ true
      → Delivered msg w (call_message_service_to_save clock sleep save_msg msg out w).0
  unfolding call_message_service_to_save
  call-Delivered msg out w =
      saved-Delivered msg out w _ ((execute_with_retry-Ends sleep 500 _ (pos 3) w _).0 refl)

  -- If processing succeeds, the message was admissible and the message service accepted it as the
  -- handlers make it, and the caller gets the sequence id of that reply.
  pub process_incoming_message-Delivered :
      (root : TrieNode) (msg : LogicChatMsg) (out : Text) (w : W)
      → (process_incoming_message clock sleep save_msg root msg out w).0.success ≡ true
      → (admissible msg ≡ true)
        × Delivered
            (sent root (clock w).0 msg)
            (clock w).1
            (process_incoming_message clock sleep save_msg root msg out w).0
  process_incoming_message-Delivered root msg out w h = elim (Bool-cases (admissible msg)) [
    | inr a ↦ absurd (contra a)
    | inl a ↦ (
      a,
      rw (process_incoming_message-cases, a)
          (call-Delivered (sent root (clock w).0 msg) out (clock w).1
            (rw (process_incoming_message-cases, a) at h)),
    )
  ]
    where
      contra : admissible msg ≡ false → ⊥
      contra a = ground (arith, process_incoming_message-cases root msg out w)

  -- `SendMessage` answers code 0 with the sequence id under which the message service accepted the
  -- message that the handlers make of the request, or code 500 with no sequence id.
  pub send_message-cases :
      (root : TrieNode) (unset : ℤ) (req : SendMsgReq) (w : W)
      → let answer = (send_message clock sleep save_msg root unset req w).0 in
        let start = (clock w).1 in
        let msg = received unset req (clock w).0 in
        ((answer.code ≡ pos 0)
          × (admissible msg ≡ true)
          × ((p : Processed) × (answer.seq_id ≡ p.out_seq_id)
              × Delivered (sent root (clock start).0 msg) (clock start).1 p))
        ⊎ ((answer.code ≡ pos 500) × (answer.seq_id ≡ []))
  unfolding send_message
  send_message-cases root unset req w =
      elim (Bool-cases
        (process_incoming_message clock sleep save_msg root (received unset req (clock w).0) []
          (clock w).1).0.success) [
            | inl s ↦
                let (a, d) =
                  process_incoming_message-Delivered root (received unset req (clock w).0) []
                    (clock w).1 s in
                inl (ground arith, a, (_, ground arith, d))
            | inr s ↦ inr (ground arith)
          ]
