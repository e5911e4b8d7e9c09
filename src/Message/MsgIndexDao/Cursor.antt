-- ===== src/Message/MsgIndexDao/Cursor.antt =====
-- The sequence id as a cursor: what `Insert` writes into it is what `FetchOfflineMsgIds` reads.
use imsystem.Prelude.{
  ℕ, suc, ◌+◌, ◌^◌, ◌<◌, ◌≡◌, refl, arith, sym, ap, ◌∙◌, some, List, [], ◌∷◌, ◌++◌, drop, length,
  map, append_assoc,
}
use imsystem.Prelude.Int.{ℤ}
use imsystem.Prelude.Texts.{Text, codes}
use imsystem.Common.Chars.Decimal.{stoull-to_string, find_last_of-append, find_last_of-to_string}
use imsystem.Common.Chars.Numbers.{to_string}
use imsystem.Common.MysqlPool.{show_int}
use imsystem.Common.Effect.{returned, ◌>>=◌, ◌>>◌}
use imsystem.Common.Sql.{Sql, uint64, int, with_locals, modify, fail_with}
use imsystem.Message.MsgIndexDao.{seq_text, id_behind, last_id, fetch_attempt, select_offline}

drop-length-append : (s t : Text) (c : ℕ) → drop (length s + 1) (s ++ c ∷ t) ≡ t
drop-length-append [] t c = refl
drop-length-append (x ∷ s) t c =
    ap (λ k. drop k (x ∷ (s ++ c ∷ t))) {y = suc (length s + 1)} (omega arith)
    ∙ drop-length-append s t c

module _ {W Row : Type 0} (sql : Sql W Row) (clock : W → ℤ × W) where
  id_behind-number :
      (s : Text) (id : ℕ) (v : List Text × W)
      → id < 2 ^ 64
      → id_behind sql clock (s ++ b'_' ∷ to_string id) (some (length s)) v ≡ (returned id, v)
  id_behind-number s id v h =
      rw (drop-length-append s (to_string id) b'_', stoull-to_string id h) refl

  pub last_id-seq_text :
      (now_ms : ℤ) (id : ℕ) (v : List Text × W)
      → id < 2 ^ 64
      → last_id sql clock (seq_text now_ms id) v ≡ (returned id, v)
  unfolding last_id seq_text
  last_id-seq_text now_ms id v h =
      rw
        (
          sym (append_assoc (codes "SEQ_") (show_int now_ms) (b'_' ∷ to_string id)),
          find_last_of-append b'_' (codes "SEQ_" ++ show_int now_ms) (to_string id)
              (find_last_of-to_string id),
        )
        (id_behind-number (codes "SEQ_" ++ show_int now_ms) id v h)

  -- An attempt to fetch behind the sequence id that the insertion of a row answered, whose number
  -- fits 64 bits, asks for the rows of the user with a larger number than that row, and adds their
  -- message ids to the result.
  pub fetch_attempt-seq_text :
      (user_id : ℕ) (now_ms : ℤ) (id : ℕ) (limit : ℤ) (conn : ℕ) (v : List Text × W)
      → id < 2 ^ 64
      → fetch_attempt sql clock user_id (seq_text now_ms id) limit conn v
        ≡ ((with_locals sql).execute_query conn select_offline
                (uint64 user_id ∷ uint64 id ∷ int limit ∷ [])
              >>= λ res.
                  modify (λ msg_ids. msg_ids ++ map (λ row. sql.get_string row "msg_id") res.rows)
                  >> fail_with res.failure)
            v
  unfolding fetch_attempt
  fetch_attempt-seq_text user_id now_ms id limit conn v h = rw (last_id-seq_text now_ms id v h) refl
