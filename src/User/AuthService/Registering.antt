-- ===== src/User/AuthService/Registering.antt =====
-- When a registration succeeds.
use imsystem.Prelude.{
  ℕ, zero, suc, ◌⊎◌, Bool, true, false, Option, none, some, ◌≡◌, refl, inl, inr, arith,
}
use imsystem.Prelude.Texts.{Text}
use imsystem.User.Model.{User}
use imsystem.User.UserDao.{find_by_username, insert}
use imsystem.User.AuthService.{
  AuthHost, Registered, hash_password, register_result, user_record, register_unless, register,
  success, user_already_exists, server_internal_error,
}

-- The answer of a registration by how the insertion went.
abbrev pub answer_of : Bool × ℕ → Registered
answer_of (ok, zero) = record { ok = false; message = server_internal_error; user_id = 0 }
answer_of (false, suc n) = record { ok = false; message = server_internal_error; user_id = 0 }
answer_of (true, suc n) = record { ok = true; message = success; user_id = suc n }

module _ {W Row : Type 0} (host : AuthHost W Row) (username password nickname : Text) where
  -- The insertion behind the look-up and the hashing.
  abbrev pub insertion : W → (Bool × ℕ) × W
  insertion w =
      let (hashed_pw, w') = hash_password host password (find_by_username host.sql username w).1 in
      insert host.sql (user_record host username hashed_pw nickname) w'

  -- A registration either finds no user of that name, and then answers by how the insertion of the
  -- user with the hashed password went; or it finds one, is refused, and does nothing more.
  pub register-cases :
      (w : W)
      → (((find_by_username host.sql username w).0 ≡ none)
          × (register host username password nickname w
              ≡ (answer_of (insertion w).0, (insertion w).1)))
        ⊎ ((user : User) × ((find_by_username host.sql username w).0 ≡ some user)
            × (register host username password nickname w ≡ (
              record { ok = false; message = user_already_exists; user_id = 0 },
              (find_by_username host.sql username w).1,
            )))
  unfolding register
  register-cases w = found (find_by_username host.sql username w) refl
    where
      answered : (r : (Bool × ℕ) × W) → register_result host r ≡ (answer_of r.0, r.1)
      answered ((true, zero), v) = refl
      answered ((true, suc n), v) = ground arith
      answered ((false, zero), v) = refl
      answered ((false, suc n), v) = refl

      found :
          (r : Option User × W)
          → find_by_username host.sql username w ≡ r
          → ((r.0 ≡ none)
              × (register_unless host username password nickname r
                  ≡ (answer_of (insertion w).0, (insertion w).1)))
            ⊎ ((user : User) × (r.0 ≡ some user)
                × (register_unless host username password nickname r
                    ≡ (record { ok = false; message = user_already_exists; user_id = 0 }, r.1)))
      found (none, v) h = inl (refl, rw h (answered _))
      found (some user, v) h = inr (user, refl, refl)
