-- ===== src/Message/MessageService/Pulling.antt =====
-- What the two DAOs answer `PullOfflineMessages` when the stores answer at once.
use imsystem.Prelude.{ℕ, ◌^◌, ◌<◌, none, some, List, [], ◌∷◌, ◌≡◌, refl, map}
use imsystem.Prelude.Int.{ℤ}
use imsystem.Prelude.Texts.{Text}
use imsystem.Common.Effect.{returned}
use imsystem.Common.Retry.{execute_with_retry, execute_with_retry_void, retry_loop, on_failure}
use imsystem.Common.Sql.{Sql, uint64, int, with_guard}
use imsystem.Message.Model.{MsgBody}
use imsystem.Message.MsgBodyDao.{Mongo, get_attempt, batch_get}
use imsystem.Message.MsgIndexDao.{seq_text, select_offline, fetch_offline_msg_ids}
use imsystem.Message.MsgIndexDao.Cursor.{fetch_attempt-seq_text}

-- The message ids of the rows, in their order.
abbrev pub ids_in : {W Row : Type 0} → Sql W Row → List Row → List Text
ids_in sql rows = map (λ row. sql.get_string row "msg_id") rows

module _ {W Row : Type 0} (sql : Sql W Row) (clock : W → ℤ × W) (mongo : Mongo W) where
  pub fetch_offline_msg_ids_answered :
      (user_id : ℕ) (now_ms : ℤ) (id : ℕ) (limit : ℤ) (conn : ℕ) (rows : List Row) (w w1 w2 : W)
      → id < 2 ^ 64
      → sql.acquire w ≡ (some conn, w1)
      → sql.execute_query conn select_offline (uint64 user_id ∷ uint64 id ∷ int limit ∷ []) w1
        ≡ (returned (record { rows = rows; failure = none }), w2)
      → fetch_offline_msg_ids sql clock user_id (seq_text now_ms id) limit w
        ≡ (ids_in sql rows, sql.release conn w2)
  unfolding fetch_offline_msg_ids execute_with_retry_void execute_with_retry retry_loop on_failure
      with_guard
  fetch_offline_msg_ids_answered user_id now_ms id limit conn rows w w1 w2 small a q =
      rw (a, fetch_attempt-seq_text sql clock user_id now_ms id limit conn ([], w1) small, q) refl

  pub batch_get_answered :
      (m : Text) (ms : List Text) (found : List MsgBody) (w w1 : W)
      → mongo.find_in (m ∷ ms) w ≡ (returned (record { documents = found; failure = none }), w1)
      → batch_get mongo (m ∷ ms) w ≡ (found, w1)
  unfolding batch_get execute_with_retry_void execute_with_retry retry_loop on_failure get_attempt
  batch_get_answered m ms found w w1 f = rw f refl
