-- ===== src/User/FriendDao/Relation.antt =====
-- The friends as a relation on users, and the DAO as an implementation of it.
use imsystem.Prelude.{
  ℕ, Bool, true, false, ◌&&◌, none, some, List, [], ◌∷◌, ◌==◌, ◌≡◌, refl, ap, ◌∙◌, if◌then◌else◌,
}
use imsystem.Prelude.Int.{pos, ltb_ℤ}
use imsystem.Common.Effect.{returned}
use imsystem.Common.Retry.{execute_with_retry, retry_loop}
use imsystem.Common.Sql.{Sql, uint64, with_guard, retried}
use imsystem.User.FriendDao.{
  select_is_friend, insert_friend, delete_friend, is_friend_attempt, is_friend, add_friend,
  remove_friend,
}

-- The abstract view: whether the second user is a friend of the first. It has a direction.
abbrev pub Friends : Type 0
Friends = ℕ → ℕ → Bool

unfoldable pub assign : ℕ → ℕ → Bool → Friends → Friends
assign user_id friend_id b friends u f = if user_id == u && friend_id == f then b else friends u f

-- The operations of the DAO on a pair.
pub data Operation : Type 0 where
  add remove ask : ℕ → ℕ → Operation

-- What the relation answers, and what it is then.
abbrev pub answer : Operation → Friends → Bool
answer (add u f) friends = true
answer (remove u f) friends = true
answer (ask u f) friends = friends u f

abbrev pub next_friends : Operation → Friends → Friends
next_friends (add u f) friends = assign u f true friends
next_friends (remove u f) friends = assign u f false friends
next_friends (ask u f) friends = friends

unfoldable pub answers : List Operation → Friends → List Bool
answers [] friends = []
answers (o ∷ os) friends = answer o friends ∷ answers os (next_friends o friends)

-- What MySQL documents of the statements, while it is up: `view` is what the rows with status 1 say.
-- The pair of the two users is a unique key.
pub record Serves {W Row : Type 0} (sql : Sql W Row) (view : W → Friends) : Type 0 where
  pub acquires :
      (w : W) → (conn : ℕ) × (v : W) × (sql.acquire w ≡ (some conn, v)) × (view v ≡ view w)
  pub releases : (conn : ℕ) (w : W) → view (sql.release conn w) ≡ view w
  pub counts :
      (conn u f : ℕ) (w : W)
      → (row : Row) × (v : W) × (sql.execute_query conn select_is_friend
            (uint64 u ∷ uint64 f ∷ [])
            w
          ≡ (returned (record { rows = row ∷ []; failure = none }), v))
        × (view v ≡ view w)
        × (ltb_ℤ (pos 0) (sql.get_int row "cnt") ≡ view w u f)
  pub inserts :
      (conn u f : ℕ) (w : W)
      → (v : W) × (sql.execute_update conn insert_friend (uint64 u ∷ uint64 f ∷ []) w
          ≡ (returned tt, v))
        × (view v ≡ assign u f true (view w))
  pub deletes :
      (conn u f : ℕ) (w : W)
      → (v : W) × (sql.execute_update conn delete_friend (uint64 u ∷ uint64 f ∷ []) w
          ≡ (returned tt, v))
        × (view v ≡ assign u f false (view w))

module _ {W Row : Type 0} (sql : Sql W Row) where
  abbrev pub perform : Operation → W → Bool × W
  perform (add u f) = add_friend sql u f []
  perform (remove u f) = remove_friend sql u f
  perform (ask u f) = is_friend sql u f

  unfoldable pub perform_all : List Operation → W → List Bool × W
  perform_all [] w = ([], w)
  perform_all (o ∷ os) w = let (b, v) = perform o w in let (bs, u) = perform_all os v in (b ∷ bs, u)

  module _ (view : W → Friends) (up : Serves sql view) where
    perform_lem :
        (o : Operation) (w : W)
        → (v : W) × (perform o w ≡ (answer o (view w), v)) × (view v ≡ next_friends o (view w))
    unfolding add_friend remove_friend is_friend is_friend_attempt retried execute_with_retry
        retry_loop with_guard
    perform_lem (add u f) w =
        let (conn, w1, a, k1) = up.acquires w in
        let (w2, i, k2) = up.inserts conn u f w1 in
        (sql.release conn w2, rw (a, i) refl, up.releases conn w2 ∙ k2 ∙ ap (assign u f true) k1)
    perform_lem (remove u f) w =
        let (conn, w1, a, k1) = up.acquires w in
        let (w2, i, k2) = up.deletes conn u f w1 in
        (sql.release conn w2, rw (a, i) refl, up.releases conn w2 ∙ k2 ∙ ap (assign u f false) k1)
    perform_lem (ask u f) w =
        let (conn, w1, a, k1) = up.acquires w in
        let (row, w2, q, k2, c) = up.counts conn u f w1 in
        (sql.release conn w2, rw (a, q, c, k1) refl, up.releases conn w2 ∙ k2 ∙ k1)

    -- With a MySQL server that is up, the DAO implements the relation of the friends: over any
    -- sequence of additions, removals and questions it answers what the relation answers.
    pub perform_all-answers :
        (os : List Operation) (w : W) → (perform_all os w).0 ≡ answers os (view w)
    unfolding perform_all answers
    perform_all-answers [] w = refl
    perform_all-answers (o ∷ os) w =
        let (v, p, k) = perform_lem o w in rw (p, perform_all-answers os v, k) refl
