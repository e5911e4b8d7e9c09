-- ===== src/Message/MsgBodyDao.antt =====
-- message/src/dao/msg_body_dao.cpp. The MongoDB collection is a parameter; a document is read by its
-- four fields.
pub mod Fetching
use imsystem.Prelude.{
  ℕ, Bool, true, false, Option, none, some, List, [], ◌∷◌, ◌++◌, if◌then◌else◌, is_empty,
}
use imsystem.Prelude.Int.{ℤ, pos}
use imsystem.Prelude.Texts.{Text}
use imsystem.Common.Effect.{Exn, Outcome, returned, thrown, Io, try_or, ◌>>=◌, ◌>>◌}
use imsystem.Common.Retry.{execute_with_retry, execute_with_retry_void}
use imsystem.Common.Sql.{beside, modify, fail_with}
use imsystem.Message.Model.{MsgBody}

-- The documents that a cursor delivers, and what it throws behind them, if it throws.
pub record Cursor : Type 0 where
  pub documents : List MsgBody
  pub failure : Option Exn

pub record Mongo (W : Type 0) : Type 0 where
  -- `insert_one` on a pooled connection: whether there is a result with an object id.
  pub insert_one : MsgBody → Io W Bool
  -- `find` with the filter that "msg_id" is one of the ids.
  pub find_in : List Text → Io W Cursor
  pub sleep : ℕ → W → W

module _ {W : Type 0} (mongo : Mongo W) where
  unfoldable pub insert : MsgBody → W → Bool × W
  insert msg = try_or (execute_with_retry mongo.sleep (pos 3) 500 (mongo.insert_one msg)) false

  -- One attempt; `result` is captured by reference, beside the world.
  unfoldable pub get_attempt : List Text → Io (List MsgBody × W) (Unit {0})
  get_attempt msg_ids = do
    cursor ← λ (result, w). beside result (mongo.find_in msg_ids w)
    modify (λ result. result ++ cursor.documents)
    fail_with cursor.failure

  abbrev pub result_of : Outcome (Unit {0}) × (List MsgBody × W) → List MsgBody × W
  result_of (r, v) = v

  unfoldable pub batch_get : List Text → W → List MsgBody × W
  batch_get msg_ids w =
      if is_empty msg_ids
      then ([], w)
      else result_of (
          execute_with_retry_void (λ n (result, v). (result, mongo.sleep n v)) (pos 3) 500
            (get_attempt msg_ids) ([], w))
