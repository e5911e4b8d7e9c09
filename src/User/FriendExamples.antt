-- ===== src/User/FriendExamples.antt =====
-- The friends over a relation in memory.
use imsystem.Prelude.{Bool, true, false, some, none, List, [], ◌∷◌, String, ◌≡◌, refl}
use imsystem.Prelude.Int.{ℤ, pos, ltb_ℤ}
use imsystem.Prelude.Texts.{codes, text_eq}
use imsystem.Common.Effect.{returned}
use imsystem.Common.Sql.{Sql, Param, uint64}
use imsystem.User.FriendDao.{insert_friend}
use imsystem.User.FriendDao.Relation.{
  Friends, Operation, add, remove, ask, answers, assign, Serves, perform_all, perform_all-answers,
}

abbrev count : List Param → Friends → Bool
count (uint64 u ∷ uint64 f ∷ []) friends = friends u f
count _ friends = false

abbrev inserting : String → Bool
inserting s = text_eq (codes s) (codes insert_friend)

abbrev update : Bool → List Param → Friends → Friends
update b (uint64 u ∷ uint64 f ∷ []) friends = assign u f b friends
update b _ friends = friends

abbrev int_of : Bool → ℤ
int_of true = pos 1
int_of false = pos 0

abbrev sql : Sql Friends Bool
sql = record {
  acquire = λ w. (some 1, w);
  release = λ conn w. w;
  execute_query = λ conn s ps w. (returned (record { rows = count ps w ∷ []; failure = none }), w);
  execute_update = λ conn s ps w. (returned tt, update (inserting s) ps w);
  get_uint64 = λ r c. 0;
  get_int = λ r c. int_of r;
  get_string = λ r c. [];
  sleep = λ n w. w;
}

int_of-positive : (b : Bool) → ltb_ℤ (pos 0) (int_of b) ≡ b
int_of-positive true = refl
int_of-positive false = refl

up : Serves sql (λ w. w)
unfolding codes text_eq
up = record {
  acquires = λ w. (1, w, refl, refl);
  releases = λ conn w. refl;
  counts = λ conn u f w. (w u f, w, refl, refl, int_of-positive (w u f));
  inserts = λ conn u f w. (_, refl, refl);
  deletes = λ conn u f w. (_, refl, refl);
}

abbrev nobody : Friends
nobody u f = false

abbrev operations : List Operation
operations = add 3 4 ∷ ask 3 4 ∷ ask 4 3 ∷ remove 3 4 ∷ ask 3 4 ∷ []

perform_all-answers_example :
    (perform_all sql operations nobody).0 ≡ true ∷ true ∷ false ∷ true ∷ false ∷ []
unfolding answers assign
perform_all-answers_example = perform_all-answers sql (λ w. w) up operations nobody
