-- ===== src/Message/MsgBodyDao/Fetching.antt =====
-- What `BatchGet` answers when the cursor fails in the middle.
use imsystem.Prelude.{none, some, List, ◌∷◌, ◌++◌, ◌≡◌, refl}
use imsystem.Prelude.Texts.{Text}
use imsystem.Common.Effect.{Exn, returned}
use imsystem.Common.Retry.{execute_with_retry, execute_with_retry_void, retry_loop, on_failure}
use imsystem.Message.Model.{MsgBody}
use imsystem.Message.MsgBodyDao.{Mongo, get_attempt, batch_get}

-- For a list of ids that is not empty: if the cursor of the first attempt fails behind some
-- documents, and the second attempt delivers the answer, the answer has the documents of both:
-- those of the first stay in the result.
pub batch_get-after_failure :
    {W : Type 0} (mongo : Mongo W) (id : Text) (ids : List Text) (w w1 w2 : W)
    (found again : List MsgBody) (e : Exn)
    → mongo.find_in (id ∷ ids) w ≡ (returned (record { documents = found; failure = some e }), w1)
    → mongo.find_in (id ∷ ids) (mongo.sleep 500 w1)
      ≡ (returned (record { documents = again; failure = none }), w2)
    → batch_get mongo (id ∷ ids) w ≡ (found ++ again, w2)
unfolding batch_get execute_with_retry_void execute_with_retry retry_loop on_failure get_attempt
batch_get-after_failure mongo id ids w w1 w2 found again e first second = rw (first, second) refl
