-- ===== src/Logic/Processor.antt =====
-- logic/src/message_processor.cpp, and `SendMessage` of logic/main.cpp. The clock, the pause of a
-- retry and the remote `SaveMsg` act on a world that is a parameter.
pub mod Outgoing
use imsystem.Prelude.{
  ℕ, Bool, true, false, not, Option, none, some, List, [], ◌∷◌, ◌++◌, ◌==◌, if◌then◌else◌,
}
use imsystem.Prelude.Int.{ℤ, pos, eqb_ℤ}
use imsystem.Prelude.Texts.{Text, codes}
use imsystem.Common.Effect.{Exn, std_exception, Outcome, returned, thrown, Io}
use imsystem.Common.Retry.{execute_with_retry}
use imsystem.Logic.Trie.{TrieNode}
use imsystem.Logic.ChatHandler.{
  LogicChatMsg, Handler, single_chat, group_chat, validate, process_send,
}

-- `SaveMsgReq` and `SaveMsgResp` of the generated code, by the fields that are used.
pub record SaveMsgReq : Type 0 where
  pub msg_id : Text
  pub sender_id : ℕ
  pub receiver_id : ℕ
  pub session_type : ℤ
  pub msg_type : ℤ
  pub content : Text

pub record SaveMsgResp : Type 0 where
  pub code : ℤ
  pub msg : Text
  pub seq_id : Text

-- A remote call ends with a bad status and its message, or with a response.
pub data Reply {ℓ} (R : Type ℓ) : Type ℓ where
  bad_status : Text → Reply R
  response : R → Reply R

unfoldable pub get_handler : ℤ → Option Handler
get_handler session_type =
    if eqb_ℤ session_type (pos 1)
    then some single_chat
    else if eqb_ℤ session_type (pos 2)
    then some group_chat
    else none

abbrev pub save_req : LogicChatMsg → SaveMsgReq
save_req msg = record {
  msg_id = msg.msg_id;
  sender_id = msg.sender_id;
  receiver_id = msg.receiver_id;
  session_type = msg.session_type;
  msg_type = msg.msg_type;
  content = msg.content;
}

-- The checks on the reply inside the retried function.
unfoldable pub read_reply : Reply SaveMsgResp → Outcome Text
read_reply (bad_status e) = thrown (std_exception (codes "gRPC Error: " ++ e))
read_reply (response r) =
    if not (eqb_ℤ r.code (pos 0))
    then thrown (std_exception (codes "Business Error: " ++ r.msg))
    else returned r.seq_id

-- What a call leaves of its reference arguments, and its result.
pub record Processed : Type 0 where
  pub success : Bool
  pub msg : LogicChatMsg
  pub out_seq_id : Text

-- A stub in the source, which publishes nothing.
unfoldable pub dispatch_to_push_service : LogicChatMsg → Bool
dispatch_to_push_service msg = true

pub record SendMsgReq : Type 0 where
  pub msg_id : Text
  pub sender_id : ℕ
  pub receiver_id : ℕ
  pub session_type : ℤ
  pub msg_type : ℤ
  pub content : Text

pub record SendMsgResp : Type 0 where
  pub code : ℤ
  pub msg : Text
  pub seq_id : Text

module _ {W : Type 0} (clock : W → ℤ × W) (sleep : ℕ → W → W)
    (save_msg : SaveMsgReq → W → Reply SaveMsgResp × W) where
  -- One round of the retried function.
  unfoldable pub save_attempt : LogicChatMsg → Io W Text
  unfolding read_reply
  save_attempt msg w = let (reply, w') = save_msg (save_req msg) w in (read_reply reply, w')

  abbrev pub saved : LogicChatMsg → Text → Outcome Text × W → Processed × W
  saved msg out (returned seq, w) =
      (record { success = true; msg = record msg { seq_id = seq }; out_seq_id = seq }, w)
  saved msg out (thrown e, w) = (record { success = false; msg = msg; out_seq_id = out }, w)

  -- The build with the generated code.
  unfoldable pub call_message_service_to_save : LogicChatMsg → Text → W → Processed × W
  unfolding save_attempt
  call_message_service_to_save msg out w =
      saved msg out (execute_with_retry sleep (pos 3) 500 (save_attempt msg) w)

  abbrev pub dispatched : Processed × W → Processed × W
  dispatched (p, w) =
      if p.success
      then (if not (dispatch_to_push_service p.msg) then (p, w) else (p, w))
      else (p, w)

  abbrev pub handled : Handler → TrieNode → LogicChatMsg → Text → W → Processed × W
  handled h root msg out w =
      let (now, w') = clock w in
      let (done, msg') = process_send h root now msg in
      if not done
      then (record { success = false; msg = msg'; out_seq_id = out }, w')
      else dispatched (call_message_service_to_save msg' out w')

  unfoldable pub process_incoming_message : TrieNode → LogicChatMsg → Text → W → Processed × W
  unfolding call_message_service_to_save dispatch_to_push_service
  process_incoming_message root msg out w = elim (get_handler msg.session_type) [
    | none ↦ (record { success = false; msg = msg; out_seq_id = out }, w)
    | some h ↦
        if not (validate h msg)
        then (record { success = false; msg = msg; out_seq_id = out }, w)
        else handled h root msg out w
  ]

  abbrev pub respond : Processed × W → SendMsgResp × W
  respond (p, w) =
      if p.success
      then (record { code = pos 0; msg = codes "SUCCESS"; seq_id = p.out_seq_id }, w)
      else (
        record { code = pos 500; msg = codes "Internal Error or Validation Failed"; seq_id = [] },
        w,
      )

  -- `server_time` is not set before the call, and holds what the memory held.
  unfoldable pub send_message : TrieNode → ℤ → SendMsgReq → W → SendMsgResp × W
  unfolding process_incoming_message
  send_message root unset request w =
      let (now, w') = clock w in
      respond (
        process_incoming_message root
          (record {
            msg_id = request.msg_id;
            sender_id = request.sender_id;
            receiver_id = request.receiver_id;
            session_type = request.session_type;
            msg_type = request.msg_type;
            content = request.content;
            send_time = now;
            server_time = unset;
            seq_id = [];
          })
          [] w')
