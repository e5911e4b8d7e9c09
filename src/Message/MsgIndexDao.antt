-- ===== src/Message/MsgIndexDao.antt =====
-- message/src/dao/msg_index_dao.cpp
pub mod Cursor
use imsystem.Prelude.{
  ℕ, ◌+◌, Option, none, some, List, [], ◌∷◌, ◌++◌, ◌^◌, ◌-◌, suc, String, drop, map,
}
use imsystem.Prelude.Int.{ℤ, pos}
use imsystem.Prelude.Texts.{Text, codes}
use imsystem.Common.Chars.{find_last_of}
use imsystem.Common.Chars.Numbers.{to_string, stoull}
use imsystem.Common.MysqlPool.{show_int}
use imsystem.Common.Effect.{std_exception, Outcome, returned, thrown, Io, pure, try_or, ◌>>=◌, ◌>>◌}
use imsystem.Common.Retry.{execute_with_retry_void}
use imsystem.Common.Sql.{
  Sql, text, uint64, int, next, retried, with_guard, with_locals, modify, fail_with,
}
use imsystem.Message.Model.{MsgIndex}

abbrev pub insert_index : String
insert_index =
    "INSERT INTO message_index (msg_id, sender_id, receiver_id, session_type, seq_id, created_at) VALUES (?, ?, ?, ?, ?, ?)"

abbrev pub last_insert_id : String
last_insert_id = "SELECT LAST_INSERT_ID() AS id"

abbrev pub select_offline : String
select_offline =
    "SELECT msg_id FROM message_index WHERE receiver_id = ? AND id > ? ORDER BY id ASC LIMIT ?"

-- The conversion of an `int64_t` to `uint64_t`.
abbrev pub as_uint64 : ℤ → ℕ
as_uint64 (ℤ.pos n) = n
as_uint64 (ℤ.negsuc n) = 2 ^ 64 - suc n

-- "SEQ_<ms>_<id>"
unfoldable pub seq_text : ℤ → ℕ → Text
unfolding show_int to_string codes
seq_text now_ms seq = codes "SEQ_" ++ (show_int now_ms ++ b'_' ∷ to_string seq)

module _ {W Row : Type 0} (sql : Sql W Row) (clock : W → ℤ × W) where
  abbrev pub read_clock : Io W ℤ
  read_clock w = let (now, w') = clock w in (returned now, w')

  abbrev pub seq_or_empty : ℤ → Option Row → Text
  seq_or_empty now_ms none = []
  seq_or_empty now_ms (some row) = seq_text now_ms (sql.get_uint64 row "id")

  unfoldable pub insert_attempt : MsgIndex → ℕ → Io W Text
  insert_attempt index conn = do
    now_ms ← read_clock
    sql.execute_update conn insert_index (
        text index.msg_id
        ∷ uint64 index.sender_id
        ∷ uint64 index.receiver_id
        ∷ int index.session_type
        ∷ text index.seq_id
        ∷ uint64 (as_uint64 now_ms)
        ∷ [])
    res ← sql.execute_query conn last_insert_id []
    row ← next res
    pure (seq_or_empty now_ms row)

  unfoldable pub insert : MsgIndex → W → Text × W
  insert index = try_or (retried sql (insert_attempt index)) []

  abbrev pub or_throw : Option ℕ → Io (List Text × W) ℕ
  or_throw none v = (thrown (std_exception (codes "stoull")), v)
  or_throw (some n) v = (returned n, v)

  abbrev pub id_behind : Text → Option ℕ → Io (List Text × W) ℕ
  id_behind last_seq_id none = pure 0
  id_behind last_seq_id (some at) = or_throw (stoull (drop (at + 1) last_seq_id))

  -- The number behind the last underscore of the sequence id, 0 if there is no underscore.
  unfoldable pub last_id : Text → Io (List Text × W) ℕ
  last_id last_seq_id = id_behind last_seq_id (find_last_of b'_' last_seq_id)

  -- One attempt on a connection; `msg_ids` is captured by reference, beside the world.
  unfoldable pub fetch_attempt : ℕ → Text → ℤ → ℕ → Io (List Text × W) (Unit {0})
  fetch_attempt user_id last_seq_id limit conn = do
    last ← last_id last_seq_id
    res ←
        (with_locals sql).execute_query conn select_offline
          (uint64 user_id ∷ uint64 last ∷ int limit ∷ [])
    modify (λ msg_ids. msg_ids ++ map (λ row. sql.get_string row "msg_id") res.rows)
    fail_with res.failure

  abbrev pub ids_of : Outcome (Unit {0}) × (List Text × W) → List Text × W
  ids_of (r, v) = v

  unfoldable pub fetch_offline_msg_ids : ℕ → Text → ℤ → W → List Text × W
  fetch_offline_msg_ids user_id last_seq_id limit w = ids_of (
      execute_with_retry_void (with_locals sql).sleep (pos 3) 500
        (with_guard (with_locals sql) (fetch_attempt user_id last_seq_id limit)) ([], w))
