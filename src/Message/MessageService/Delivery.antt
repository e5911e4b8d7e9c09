-- ===== src/Message/MessageService/Delivery.antt =====
-- A message that is saved and then pulled.
use mathlib.Core.List.{Perm, perm_middle}
use mathlib.Core.List.Perm
use imsystem.Prelude.{
  take-all, ℕ, Bool, ◌^◌, ◌<◌, true, false, List, [], ◌∷◌, ◌++◌, ◌≡◌, refl, ap, subst, ◌∙◌, map,
  length, length-append, take, append-nil, arith,
}
use imsystem.Prelude.Int.{ℤ, pos}
use imsystem.Prelude.Texts.{Text, codes}
use imsystem.Common.Retry.{execute_with_retry, retry_loop}
use imsystem.Common.Sql.{Sql, with_guard, retried}
use imsystem.Logic.ChatHandler.{LogicChatMsg}
use imsystem.Message.Model.{MsgBody, MsgIndex}
use imsystem.Message.MsgBodyDao.{Mongo}
use imsystem.Message.MsgBodyDao
use imsystem.Message.MsgIndexDao.{as_uint64, seq_text, insert_attempt, fetch_offline_msg_ids}
use imsystem.Message.MsgIndexDao
use imsystem.Message.MessageService.{
  body_of, index_of, message_of, pull_bodies, save_message, pull_offline_messages,
}
use imsystem.Message.MessageService.Pulling.{fetch_offline_msg_ids_answered, batch_get_answered}
use imsystem.Message.MessageService.Stores.{
  behind-append, lists-append, documents_of-append, IndexRow, Stored, Stores, behind, has_seq,
  documents_of, with_row, with_document,
}

-- The ids of the rows that a receiver has behind a number, once a message for it was saved.
abbrev pub ids_with : LogicChatMsg → ℕ → List IndexRow → List Text
ids_with msg last table = behind msg.receiver_id last table ++ msg.msg_id ∷ []

last-first : {A : Type 0} (xs : List A) (x : A) → Perm (xs ++ x ∷ []) (x ∷ xs)
last-first xs x = subst (λ l. Perm (xs ++ x ∷ []) (x ∷ l)) (append-nil xs) (perm_middle xs [])

module _ {W Row : Type 0} (sql : Sql W Row) (clock : W → ℤ × W) (mongo : Mongo W)
    (view : W → Stored) (last_id : ℕ → W → ℕ) (takes : ℕ → Bool)
    (up : Stores sql clock mongo view last_id takes) (any_time : (n : ℕ) → takes n ≡ true) where
  insert_lem :
      (index : MsgIndex) (w : W)
      → has_seq index.receiver_id index.seq_id (view w).table ≡ false
      → (now_ms : ℤ) × (v : W) × (MsgIndexDao.insert sql clock index w
          ≡ (seq_text now_ms (view w).next_id, v))
        × (view v ≡ with_row index (view w))
  unfolding MsgIndexDao.insert retried execute_with_retry retry_loop with_guard insert_attempt
  insert_lem index w fresh =
      let (conn, w1, a, k1) = up.acquires w in
      let k2 = up.ticks w1 ∙ k1 in
      let (w3, u, k3, l) =
        up.inserts conn index (as_uint64 (clock w1).0) (clock w1).1 (any_time _) (rw k2 fresh) in
      let (row, w4, q, k4, i) = up.reads_id conn w3 in
      (
        (clock w1).0,
        sql.release conn w4,
        rw (a, u, q, i, l, ap (λ (s : Stored). s.next_id) k2) refl,
        up.releases conn w4 ∙ k4 ∙ k3 ∙ ap (with_row index) k2,
      )

  body_insert_lem :
      (body : MsgBody) (w : W)
      → (v : W) × (MsgBodyDao.insert mongo body w ≡ (true, v))
        × (view v ≡ with_document body (view w))
  unfolding MsgBodyDao.insert execute_with_retry retry_loop
  body_insert_lem body w = let (v, s, k) = up.stores body w in (v, rw s refl, k)

  save_message_lem :
      (msg : LogicChatMsg) (w : W)
      → has_seq msg.receiver_id [] (view w).table ≡ false
      → (now_ms : ℤ) × (v : W) × (save_message sql clock mongo msg w
          ≡ (seq_text now_ms (view w).next_id, v))
        × (view v ≡ with_row (index_of msg) (with_document (body_of msg) (view w)))
  unfolding save_message seq_text codes
  save_message_lem msg w fresh =
      let (w1, b, k1) = body_insert_lem (body_of msg) w in
      let (now_ms, w2, i, k2) = insert_lem (index_of msg) w1 (rw k1 fresh) in
      (now_ms, w2, rw (b, i, k1) refl, k2 ∙ ap (with_row (index_of msg)) k1)

  pull_bodies_lem :
      (unset : LogicChatMsg) (ids : List Text) (m : Text) (w : W)
      → (found : List MsgBody) × (v : W) × (pull_bodies sql clock mongo unset (ids ++ m ∷ [], w)
          ≡ (map (message_of sql clock mongo unset) found, v))
        × Perm found (documents_of (ids ++ m ∷ []) (view w).documents)
  pull_bodies_lem unset [] m w =
      let (found, v, f, p) = up.finds (m ∷ []) w in
      (found, v, rw (batch_get_answered sql clock mongo m [] found w v f) refl, p)
  pull_bodies_lem unset (i ∷ ids) m w =
      let (found, v, f, p) = up.finds (i ∷ (ids ++ m ∷ [])) w in
      (found, v, rw (batch_get_answered sql clock mongo i (ids ++ m ∷ []) found w v f) refl, p)

  fetch_lem :
      (user_id : ℕ) (now_ms : ℤ) (last limit : ℕ) (w : W)
      → last < 2 ^ 64
      → (v : W) × (fetch_offline_msg_ids sql clock user_id (seq_text now_ms last) (pos limit) w
          ≡ (take limit (behind user_id last (view w).table), v))
        × (view v ≡ view w)
  fetch_lem user_id now_ms last limit w small =
      let (conn, w1, a, k1) = up.acquires w in
      let (rows, w2, q, k2, ids) = up.selects conn user_id last limit w1 in
      (
        sql.release conn w2,
        rw
            (
              fetch_offline_msg_ids_answered sql clock mongo user_id now_ms last (pos limit) conn
                  rows w w1 w2 small a q,
              ids,
              k1,
            )
            refl,
        up.releases conn w2 ∙ k2 ∙ k1,
      )

  fetched_ids :
      (msg : LogicChatMsg) (last limit : ℕ) (w v : W)
      → last < (view w).next_id
      → length (behind msg.receiver_id last (view w).table) < limit
      → view v ≡ with_row (index_of msg) (with_document (body_of msg) (view w))
      → take limit (behind msg.receiver_id last (view v).table) ≡ ids_with msg last (view w).table
  fetched_ids msg last limit w v old few k =
      ap (λ (s : Stored). take limit (behind msg.receiver_id last s.table)) k
      ∙ ap (take limit) (behind-append msg.receiver_id last (view w).table _ refl old)
      ∙ take-all limit _ (
          omega (
            arith,
            few,
            length-append (behind msg.receiver_id last (view w).table) (msg.msg_id ∷ []),
          ))

  documents_with :
      (msg : LogicChatMsg) (last : ℕ) (w v : W)
      → view v ≡ with_row (index_of msg) (with_document (body_of msg) (view w))
      → documents_of (ids_with msg last (view w).table) (view v).documents
        ≡ documents_of (ids_with msg last (view w).table) (view w).documents ++ body_of msg ∷ []
  documents_with msg last w v k =
      ap (λ (s : Stored). documents_of (ids_with msg last (view w).table) s.documents) k
      ∙ documents_of-append (ids_with msg last (view w).table) (view w).documents (body_of msg)
          (lists-append (behind msg.receiver_id last (view w).table) msg.msg_id)

  pull_lem :
      (msg unset : LogicChatMsg) (now_ms : ℤ) (last limit : ℕ) (w v : W)
      → last < 2 ^ 64
      → last < (view w).next_id
      → length (behind msg.receiver_id last (view w).table) < limit
      → view v ≡ with_row (index_of msg) (with_document (body_of msg) (view w))
      → Perm
          (pull_offline_messages sql clock mongo unset msg.receiver_id
            (seq_text now_ms last)
            (pos limit)
            v).0
          (map
            (message_of sql clock mongo unset)
            (body_of msg ∷ documents_of (ids_with msg last (view w).table) (view w).documents))
  unfolding pull_offline_messages
  pull_lem msg unset now_ms last limit w v small old few k =
      let (v1, f, k1) = fetch_lem msg.receiver_id now_ms last limit v small in
      let (found, v2, b, p) =
        pull_bodies_lem unset (behind msg.receiver_id last (view w).table) msg.msg_id v1 in
      rw (f, fetched_ids msg last limit w v old few k, b)
        (Perm.map (message_of sql clock mongo unset) (
          Perm.trans
            (subst (λ l. Perm found l)
              (ap (documents_of (ids_with msg last (view w).table))
                  (ap (λ (s : Stored). s.documents) k1)
                ∙ documents_with msg last w v k)
              p)
            (last-first (documents_of (ids_with msg last (view w).table) (view w).documents)
              (body_of msg))))

  -- Where the column `created_at` takes every number, which the TIMESTAMP column of init_db.sql does
  -- not: a message is saved for a receiver that has no row with the empty sequence id, while both
  -- stores are up. It gets the sequence id with the number of its row. If the receiver then pulls
  -- from a sequence id with a smaller number, below 2^64, with a limit that its rows behind that
  -- number and the new one do not exceed, then it gets, in some order, the saved message and the
  -- documents that were there before with the id of one of these rows, all without their senders
  -- and sequence ids.
  pub save_message-pull_offline_messages :
      (msg unset : LogicChatMsg) (now_ms : ℤ) (last limit : ℕ) (w : W)
      → has_seq msg.receiver_id [] (view w).table ≡ false
      → last < 2 ^ 64
      → last < (view w).next_id
      → length (behind msg.receiver_id last (view w).table) < limit
      → ((saved_ms : ℤ) × ((save_message sql clock mongo msg w).0
            ≡ seq_text saved_ms (view w).next_id))
        × Perm
            (pull_offline_messages sql clock mongo unset msg.receiver_id
              (seq_text now_ms last)
              (pos limit)
              (save_message sql clock mongo msg w).1).0
            (map
              (message_of sql clock mongo unset)
              (body_of msg ∷ documents_of (ids_with msg last (view w).table) (view w).documents))
  save_message-pull_offline_messages msg unset now_ms last limit w fresh small old few =
      let (saved_ms, v, s, k) = save_message_lem msg w fresh in
      rw s ((saved_ms, refl), pull_lem msg unset now_ms last limit w v small old few k)
