-- ===== src/Message/MessageService/Stores.antt =====
-- What the two stores document of the calls that the message service makes, while they are up: the
-- table of the index rows, which numbers its rows upwards, and the collection of the bodies.
use mathlib.Core.List.{Perm}
use imsystem.Prelude.{
  ==_refl, lt→ltb, arith, refl, ◌<◌, ℕ, suc, Bool, true, false, none, some, List, [], ◌∷◌, ◌++◌,
  ◌≡◌, ◌&&◌, ◌||◌, ◌==◌, ltb, take, if◌then◌else◌,
}
use imsystem.Prelude.Int.{ℤ, pos}
use imsystem.Prelude.Texts.{Text, text_eq, text_eq_refl}
use imsystem.Common.Effect.{returned}
use imsystem.Common.Sql.{Sql, text, uint64, int}
use imsystem.Message.Model.{MsgBody, MsgIndex}
use imsystem.Message.MsgBodyDao.{Mongo}
use imsystem.Message.MsgIndexDao.{insert_index, last_insert_id, select_offline}
use imsystem.Message.MessageService.Pulling.{ids_in}

-- The columns of a row but its time, which no statement reads.
pub record IndexRow : Type 0 where
  pub id : ℕ
  pub msg_id : Text
  pub sender_id : ℕ
  pub receiver_id : ℕ
  pub session_type : ℤ
  pub seq_id : Text

abbrev pub row_of : ℕ → MsgIndex → IndexRow
row_of id index = record {
  id = id;
  msg_id = index.msg_id;
  sender_id = index.sender_id;
  receiver_id = index.receiver_id;
  session_type = index.session_type;
  seq_id = index.seq_id;
}

-- What is stored, and the number of the next row.
pub record Stored : Type 0 where
  pub table : List IndexRow
  pub documents : List MsgBody
  pub next_id : ℕ

-- The message ids of the rows of a receiver behind a number.
unfoldable pub behind : ℕ → ℕ → List IndexRow → List Text
behind user_id last [] = []
behind user_id last (r ∷ rs) =
    let rest = behind user_id last rs in
    if r.receiver_id == user_id && ltb last r.id then r.msg_id ∷ rest else rest

-- A row has the receiver and the sequence id.
unfoldable pub has_seq : ℕ → Text → List IndexRow → Bool
has_seq user_id seq_id [] = false
has_seq user_id seq_id (r ∷ rs) =
    (r.receiver_id == user_id && text_eq r.seq_id seq_id) || has_seq user_id seq_id rs

unfoldable pub lists : List Text → Text → Bool
lists [] id = false
lists (i ∷ is) id = text_eq i id || lists is id

-- The documents whose id is one of the ids.
unfoldable pub documents_of : List Text → List MsgBody → List MsgBody
documents_of ids [] = []
documents_of ids (b ∷ bs) =
    let rest = documents_of ids bs in if lists ids b.msg_id then b ∷ rest else rest

pub behind-append :
    (user_id last : ℕ) (rs : List IndexRow) (r : IndexRow)
    → r.receiver_id ≡ user_id
    → last < r.id
    → behind user_id last (rs ++ r ∷ []) ≡ behind user_id last rs ++ r.msg_id ∷ []
unfolding behind
behind-append user_id last [] r e h = rw (e, ==_refl user_id, lt→ltb last r.id h) refl
behind-append user_id last (q ∷ rs) r e h = rw (behind-append user_id last rs r e h) (ground arith)

pub lists-append : (ids : List Text) (id : Text) → lists (ids ++ id ∷ []) id ≡ true
unfolding lists
lists-append [] id = rw (text_eq_refl id) refl
lists-append (i ∷ ids) id = rw (lists-append ids id) (ground arith)

pub documents_of-append :
    (ids : List Text) (bs : List MsgBody) (b : MsgBody)
    → lists ids b.msg_id ≡ true
    → documents_of ids (bs ++ b ∷ []) ≡ documents_of ids bs ++ b ∷ []
unfolding documents_of
documents_of-append ids [] b h = rw h refl
documents_of-append ids (a ∷ bs) b h = rw (documents_of-append ids bs b h) (ground arith)

abbrev pub with_row : MsgIndex → Stored → Stored
with_row index s = record s {
  table = s.table ++ row_of s.next_id index ∷ [];
  next_id = suc s.next_id;
}

abbrev pub with_document : MsgBody → Stored → Stored
with_document body s = record s { documents = s.documents ++ body ∷ [] }

-- `view` is what a world holds, `last_id` the number that a connection inserted last, and `takes`
-- says which numbers the column `created_at` accepts.
pub record Stores {W Row : Type 0} (sql : Sql W Row) (clock : W → ℤ × W) (mongo : Mongo W)
    (view : W → Stored) (last_id : ℕ → W → ℕ) (takes : ℕ → Bool) : Type 0 where
  pub acquires :
      (w : W) → (conn : ℕ) × (v : W) × (sql.acquire w ≡ (some conn, v)) × (view v ≡ view w)
  pub releases : (conn : ℕ) (w : W) → view (sql.release conn w) ≡ view w
  pub ticks : (w : W) → view (clock w).1 ≡ view w
  -- No other row has the receiver and the sequence id, which are a unique key, and the column of
  -- the time takes the number.
  pub inserts :
      (conn : ℕ) (index : MsgIndex) (created : ℕ) (w : W)
      → takes created ≡ true
      → has_seq index.receiver_id index.seq_id (view w).table ≡ false
      → (v : W) × (sql.execute_update conn insert_index
            (text index.msg_id
              ∷ uint64 index.sender_id
              ∷ uint64 index.receiver_id
              ∷ int index.session_type
              ∷ text index.seq_id
              ∷ uint64 created
              ∷ [])
            w
          ≡ (returned tt, v))
        × (view v ≡ with_row index (view w))
        × (last_id conn v ≡ (view w).next_id)
  pub reads_id :
      (conn : ℕ) (w : W)
      → (row : Row) × (v : W) × (sql.execute_query conn last_insert_id [] w
          ≡ (returned (record { rows = row ∷ []; failure = none }), v))
        × (view v ≡ view w)
        × (sql.get_uint64 row "id" ≡ last_id conn w)
  pub selects :
      (conn user_id last limit : ℕ) (w : W)
      → (rows : List Row) × (v : W) × (sql.execute_query conn select_offline
            (uint64 user_id ∷ uint64 last ∷ int (pos limit) ∷ [])
            w
          ≡ (returned (record { rows = rows; failure = none }), v))
        × (view v ≡ view w)
        × (ids_in sql rows ≡ take limit (behind user_id last (view w).table))
  pub stores :
      (body : MsgBody) (w : W)
      → (v : W) × (mongo.insert_one body w ≡ (returned true, v))
        × (view v ≡ with_document body (view w))
  -- The order of the documents is not documented.
  pub finds :
      (ids : List Text) (w : W)
      → (found : List MsgBody) × (v : W) × (mongo.find_in ids w
          ≡ (returned (record { documents = found; failure = none }), v))
        × Perm found (documents_of ids (view w).documents)
