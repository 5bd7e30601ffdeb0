-- ===== src/Auth/Passwords/Change.antt =====
-- What ChangePassword guarantees.
use skillsphere_api.Common.{
  ℕ, String, ◌≡◌, refl, true, some, none, arith, select_first, select_first-holds,
  select_first-delete_where, select_first-update_where, Option-cases, inl, inr,
}
use skillsphere_api.Errors.{Error, ok, err, Result-cases}
use skillsphere_api.Records.{User}
use skillsphere_api.World.{World, Env, after}
use skillsphere_api.Auth.Repository.{
  has_id, is_of, get_user_by_id, update_password, update_user, delete_all_user_sessions,
}
use skillsphere_api.Auth.Service.{AuthService}
use skillsphere_api.Auth.Sessions.{compare_password}
use skillsphere_api.Auth.Registration.{bcrypt_cost}
use skillsphere_api.Auth.Passwords.{change_password}
use skillsphere_api.Auth.Passwords.Reset.{with_password}

module _ (env : Env) (s : AuthService) (user_id current new : String) (w : World) where
  -- If ChangePassword succeeds and the server runs the deletion of the sessions, the user was
  -- stored and the current password matched its hash. Afterwards the user has bcrypt's hash of
  -- the new password and is otherwise as before but for its time of update, and has no session.
  pub change-effect :
      {w' : World}
      → change_password env s user_id current new w ≡ (ok tt, w')
      → env.fault (after 5 w) ≡ none
      → (id : ℕ) × (u : User) × (hashed : String) × (env.uuid_parse user_id ≡ ok id)
        × (select_first (has_id id) w.db.users ≡ some u)
        × (compare_password env u.hashed_password current ≡ true)
        × (env.bcrypt_generate (after 1 w) new bcrypt_cost ≡ ok hashed)
        × (select_first (has_id id) w'.db.users
            ≡ some (with_password env s (env.now (after 3 w)) hashed u))
        × (select_first (is_of id) w'.db.sessions ≡ none)
  unfolding change_password get_user_by_id update_password update_user delete_all_user_sessions
  change-effect h runs = elim (Result-cases (env.uuid_parse user_id)) [
    | inr (e, bad) ↦ absurd (ground arith)
    | inl (id, parsed) ↦ elim (Option-cases (select_first (has_id id) w.db.users)) [
      | inl gone ↦ absurd (ground arith)
      | inr (u, found) ↦ elim (Result-cases (env.bcrypt_generate (after 1 w) new bcrypt_cost)) [
        | inr (e, bad) ↦ absurd (ground arith)
        | inl (hashed, made) ↦ (
          id,
          u,
          hashed,
          parsed,
          found,
          ground arith,
          made,
          ground (
            arith,
            select_first-holds (has_id id) w.db.users u,
            select_first-update_where (has_id id) (has_id id)
                (with_password env s (env.now (after 3 w)) hashed) w.db.users (λ a. refl),
          ),
          ground (arith, select_first-delete_where (is_of id) w.db.sessions),
        )
      ]
    ]
  ]

  -- If ChangePassword fails, every table is as it was.
  pub change-fails-clean :
      {e : Error}
      → (change_password env s user_id current new w).0 ≡ err e
      → (change_password env s user_id current new w).1.db ≡ w.db
  unfolding change_password get_user_by_id update_password update_user delete_all_user_sessions
  change-fails-clean h = ground arith
