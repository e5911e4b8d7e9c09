-- ===== src/User/FriendService/Adding.antt =====
-- When a friend request is granted.
use imsystem.Prelude.{
  ℕ, Bool, true, false, Option, none, some, ◌≡◌, ◌≢◌, ◌↔◌, refl, ap, ◌==◌, Bool-cases, inl, inr,
  arith,
}
use imsystem.Prelude.Texts.{Text}
use imsystem.Common.Sql.{Sql}
use imsystem.User.Model.{User}
use imsystem.User.UserDao.{find_by_id}
use imsystem.User.FriendDao.{is_friend, add_friend}
use imsystem.User.FriendService.{added, add_unless_friends, add_found, request_friend}

module _ {W Row : Type 0} (sql : Sql W Row) (user_id target_user_id : ℕ) (verify_msg : Text) where
  -- What has to hold for the request: each call starts from the world that the one before left.
  abbrev pub Granted : W → Type 0
  Granted w =
      (user_id ≢ target_user_id)
      × ((target : User) × ((find_by_id sql target_user_id w).0 ≡ some target))
      × ((is_friend sql user_id target_user_id (find_by_id sql target_user_id w).1).0 ≡ false)
      × ((add_friend sql user_id target_user_id verify_msg
            (is_friend sql user_id target_user_id (find_by_id sql target_user_id w).1).1).0
          ≡ true)

  -- A friend request is granted exactly if the two users differ, the target is found, `IsFriend`
  -- answers no, and the row is inserted.
  pub request_friend_iff :
      (w : W) → ((request_friend sql user_id target_user_id verify_msg w).0 ≡ true) ↔ Granted w
  unfolding request_friend
  request_friend_iff w = elim (Bool-cases (user_id == target_user_id)) [
    | inl e ↦ (λ h. absurd (ground arith), λ (ne, _, _, _). absurd (ground arith))
    | inr e ↦ rw e (found (λ s. ground arith) (find_by_id sql target_user_id w) refl)
  ]
    where
      found :
          user_id ≢ target_user_id
          → (r : Option User × W) → find_by_id sql target_user_id w ≡ r
          → ((add_found sql user_id target_user_id verify_msg r).0 ≡ true) ↔ Granted w
      found ne (none, v) h = (
        λ k. absurd (ground arith),
        λ (_, (target, k), r, s). absurd (ground (arith, ap (λ (x : Option User × W). x.0) h)),
      )
      found ne (some target, v) h = rw h (friends (is_friend sql user_id target_user_id v) refl)
        where
          friends :
              (r : Bool × W)
              → is_friend sql user_id target_user_id v ≡ r
              → ((add_unless_friends sql user_id target_user_id verify_msg r).0 ≡ true) ↔ (
                  (user_id ≢ target_user_id)
                  × ((t : User) × (some target ≡ some t))
                  × (r.0 ≡ false)
                  × ((add_friend sql user_id target_user_id verify_msg r.1).0 ≡ true))
          friends (true, u) k = ground arith
          friends (false, u) k = inserts (add_friend sql user_id target_user_id verify_msg u)
            where
              inserts :
                  (r : Bool × W)
                  → ((added sql r).0 ≡ true) ↔ (
                      (user_id ≢ target_user_id)
                      × ((t : User) × (some target ≡ some t))
                      × (false ≡ false)
                      × (r.0 ≡ true))
              inserts (true, u') = (λ _. (ne, (target, refl), refl, refl), λ _. refl)
              inserts (false, u') = ground arith
