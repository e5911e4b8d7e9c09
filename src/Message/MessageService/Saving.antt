-- ===== src/Message/MessageService/Saving.antt =====
-- A message that is saved: what is stored of it, and which messages cannot be stored.
use imsystem.Prelude.{ℕ, Bool, true, false, Option, none, some, List, [], ◌∷◌, ◌≡◌, refl, arith}
use imsystem.Prelude.Int.{ℤ, pos}
use imsystem.Prelude.Texts.{Text}
use imsystem.Common.Effect.{Exn, Outcome, returned, thrown, Io, resume, settle}
use imsystem.Common.Retry.Keeps.{execute_with_retry-throws}
use imsystem.Common.Sql.{Sql, Param, text, uint64, int, entered, with_guard, retried}
use imsystem.Logic.ChatHandler.{LogicChatMsg}
use imsystem.Message.Model.{MsgBody, MsgIndex}
use imsystem.Message.MsgBodyDao.{Mongo}
use imsystem.Message.MsgBodyDao
use imsystem.Message.MsgIndexDao.{as_uint64, insert_index, insert_attempt}
use imsystem.Message.MsgIndexDao
use imsystem.Message.MessageService.{body_of, index_of, indexed, index_if, save_message}

-- What MySQL documents of a UNIQUE KEY, here the one on receiver and sequence id: an INSERT of a
-- pair that a row has already fails, and rows stay. `Taken r s w`: in `w` a row has receiver `r`
-- and sequence id `s`.
pub record UniqueSeq {W Row : Type 0} (sql : Sql W Row) (clock : W → ℤ × W) (mongo : Mongo W)
    (Taken : ℕ → Text → W → Type 0) : Type 0 where
  pub refuses :
      (conn : ℕ) (index : MsgIndex) (created : ℕ) (w : W)
      → Taken index.receiver_id index.seq_id w
      → (e : Exn) × ((sql.execute_update conn insert_index
            (text index.msg_id
              ∷ uint64 index.sender_id
              ∷ uint64 index.receiver_id
              ∷ int index.session_type
              ∷ text index.seq_id
              ∷ uint64 created
              ∷ [])
            w).0
          ≡ thrown e)
  pub updated :
      (conn : ℕ) (ps : List Param) (r : ℕ) (s : Text) (w : W)
      → Taken r s w
      → Taken r s (sql.execute_update conn insert_index ps w).1
  pub acquired : (r : ℕ) (s : Text) (w : W) → Taken r s w → Taken r s (sql.acquire w).1
  pub released :
      (conn : ℕ) (r : ℕ) (s : Text) (w : W) → Taken r s w → Taken r s (sql.release conn w)
  pub slept : (n : ℕ) (r : ℕ) (s : Text) (w : W) → Taken r s w → Taken r s (sql.sleep n w)
  pub ticked : (r : ℕ) (s : Text) (w : W) → Taken r s w → Taken r s (clock w).1
  pub bodies :
      (body : MsgBody) (r : ℕ) (s : Text) (w : W)
      → Taken r s w
      → Taken r s (MsgBodyDao.insert mongo body w).1

module _ {W Row : Type 0} (sql : Sql W Row) (clock : W → ℤ × W) (mongo : Mongo W)
    (Taken : ℕ → Text → W → Type 0) (unique : UniqueSeq sql clock mongo Taken) where
  Fails : {A : Type 0} → ℕ → Text → Outcome A × W → Type 0
  Fails r s x = ((e : Exn) × (x.0 ≡ thrown e)) × Taken r s x.1

  resume-Fails :
      {A B : Type 0} (r : ℕ) (s : Text) (f : A → Io W B) (x : Outcome A × W)
      → Fails r s x
      → Fails r s (resume f x)
  unfolding Fails
  resume-Fails r s f (returned a, v) ((e, h), k) = absurd (ground arith)
  resume-Fails r s f (thrown e, v) (h, k) = ((_, refl), k)

  insert_attempt-Fails :
      (index : MsgIndex) (conn : ℕ) (w : W)
      → Taken index.receiver_id index.seq_id w
      → Fails index.receiver_id index.seq_id (insert_attempt sql clock index conn w)
  unfolding insert_attempt Fails
  insert_attempt-Fails index conn w t = resume-Fails _ _ _ _ (
    unique.refuses conn index (as_uint64 (clock w).0) (clock w).1 (unique.ticked _ _ w t),
    unique.updated conn _ _ _ _ (unique.ticked _ _ w t),
  )

  guarded-Fails :
      (index : MsgIndex) (w : W)
      → Taken index.receiver_id index.seq_id w
      → Fails index.receiver_id index.seq_id (with_guard sql (insert_attempt sql clock index) w)
  unfolding with_guard Fails
  guarded-Fails index w t = inside (sql.acquire w) (unique.acquired _ _ w t)
    where
      inside :
          (r : Option ℕ × W)
          → Taken index.receiver_id index.seq_id r.1
          → Fails index.receiver_id index.seq_id (entered sql (insert_attempt sql clock index) r)
      inside (none, v) k = ((_, refl), k)
      inside (some conn, v) k =
          let (e, k') = insert_attempt-Fails index conn v k in (e, unique.released conn _ _ _ k')

  insert-empty :
      (index : MsgIndex) (w : W)
      → Taken index.receiver_id index.seq_id w
      → (MsgIndexDao.insert sql clock index w).0 ≡ []
  unfolding MsgIndexDao.insert retried Fails
  insert-empty index w t = empty (retried sql (insert_attempt sql clock index) w) (
      execute_with_retry-throws (Taken index.receiver_id index.seq_id) sql.sleep 500
        (unique.slept 500 _ _) (pos 3) (with_guard sql (insert_attempt sql clock index))
        (guarded-Fails index) w t)
    where
      empty : (x : Outcome Text × W) → ((e : Exn) × (x.0 ≡ thrown e)) → (settle [] x).0 ≡ []
      empty (returned a, v) (e, h) = absurd (ground arith)
      empty (thrown e, v) h = refl

  -- The index row of a message is written with an empty sequence id. Where the database refuses a
  -- second row with the same receiver and sequence id, and the table has such a row for the
  -- receiver already, `SaveMessage` fails: it answers the empty sequence id.
  pub save_message-refused :
      (msg : LogicChatMsg) (w : W)
      → Taken msg.receiver_id [] w
      → (save_message sql clock mongo msg w).0 ≡ []
  unfolding save_message
  save_message-refused msg w t =
      stored (MsgBodyDao.insert mongo (body_of msg) w) (unique.bodies (body_of msg) _ _ w t)
    where
      stored :
          (r : Bool × W) → Taken msg.receiver_id [] r.1 → (index_if sql clock mongo msg r).0 ≡ []
      stored (false, v) k = refl
      stored (true, v) k =
          refused (MsgIndexDao.insert sql clock (index_of msg) v) (insert-empty (index_of msg) v k)
        where
          refused : (r : Text × W) → r.0 ≡ [] → (indexed sql clock mongo r).0 ≡ []
          refused ([], u) h = refl
          refused (c ∷ s, u) h = h

-- Where the column of the time takes no number of milliseconds, every such INSERT throws, and no
-- message is saved: `SaveMessage` answers the empty sequence id.
save_message-declined :
    {W Row : Type 0} (sql : Sql W Row) (clock : W → ℤ × W) (mongo : Mongo W)
    → ((conn : ℕ) (index : MsgIndex) (created : ℕ) (w : W)
        → (e : Exn) × ((sql.execute_update conn insert_index
              (text index.msg_id
                ∷ uint64 index.sender_id
                ∷ uint64 index.receiver_id
                ∷ int index.session_type
                ∷ text index.seq_id
                ∷ uint64 created
                ∷ [])
              w).0
            ≡ thrown e))
    → (msg : LogicChatMsg) (w : W) → (save_message sql clock mongo msg w).0 ≡ []
save_message-declined {W} sql clock mongo strict msg w =
    save_message-refused sql clock mongo (λ r s v. Unit {0})
      (record {
        refuses = λ conn index created v t. strict conn index created v;
        updated = λ conn ps r s v t. tt;
        acquired = λ r s v t. tt;
        released = λ conn r s v t. tt;
        slept = λ n r s v t. tt;
        ticked = λ r s v t. tt;
        bodies = λ body r s v t. tt;
      })
      msg w tt
