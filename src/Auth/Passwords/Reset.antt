-- ===== src/Auth/Passwords/Reset.antt =====
-- What RequestPasswordReset and ResetPassword guarantee.
use skillsphere_api.Common.{
  ℕ, String, ◌≡◌, refl, Bool, false, ◌&&◌, some, none, arith, ltb, is_empty, select_first,
  select_first-delete_where, select_first-and_none, select_first-update_where, map_row, ◌∷◌,
  Option-cases, inl, inr, if◌then◌else◌,
}
use skillsphere_api.Errors.{ok, err, invalid_token, Result-cases}
use skillsphere_api.Records.{User, UserToken, TokenType, password_reset}
use skillsphere_api.Password.{validate_password}
use skillsphere_api.World.{World, Env, after, password_reset_mail}
use skillsphere_api.Auth.Repository.{
  has_id, is_of, has_hash, has_email, same_type, get_user_by_email, get_user_token_by_hash,
  create_user_token, insert_token, update_password, update_user, delete_user_token,
  delete_all_user_sessions,
}
use skillsphere_api.Auth.Service.{AuthService, hash_token, hour}
use skillsphere_api.Auth.Service.Rows.{token_row}
use skillsphere_api.Auth.Tokens.{generate_password_reset_token}
use skillsphere_api.Auth.Registration.{bcrypt_cost}
use skillsphere_api.Auth.Passwords.{request_password_reset, reset_password}

module _ (env : Env) (s : AuthService) where
  -- A reset token that can be used at a time.
  abbrev pub usable : String → TokenType → ℕ → UserToken → Bool
  usable token type now t =
      has_hash (hash_token env token) t && (same_type t.type type && ltb now t.expires_at)

  abbrev pub with_password : ℕ → String → User → User
  with_password now hashed u = record u { hashed_password = hashed; updated_at = now }

  -- If ResetPassword succeeds and the server runs its two deletions, an unexpired reset token had
  -- the given token's hash, and the new password meets the policy. Afterwards the token's user,
  -- if it is stored, has bcrypt's hash of the new password and is otherwise as before but for its
  -- time of update; that user has no session, and no token has the hash.
  pub reset-effect :
      (token password : String) (w : World) {w' : World}
      → reset_password env s token password w ≡ (ok tt, w')
      → env.fault (after 6 w) ≡ none
      → env.fault (after 7 w) ≡ none
      → (t : UserToken) × (hashed : String) × (select_first
            (usable token password_reset (env.now w.draws))
            w.db.tokens
          ≡ some t)
        × (validate_password env.classes password ≡ ok tt)
        × (env.bcrypt_generate (after 2 w) password bcrypt_cost ≡ ok hashed)
        × (select_first (has_id t.user_id) w'.db.users
            ≡ map_row
                (has_id t.user_id)
                (with_password (env.now (after 4 w)) hashed)
                (select_first (has_id t.user_id) w.db.users))
        × (select_first (is_of t.user_id) w'.db.sessions ≡ none)
        × (select_first (has_hash (hash_token env token)) w'.db.tokens ≡ none)
  unfolding reset_password get_user_token_by_hash update_password update_user delete_user_token
      delete_all_user_sessions
  reset-effect token password w {w' = w'} h runs1 runs2 =
      elim (Option-cases
        (select_first (usable token password_reset (env.now w.draws)) w.db.tokens)) [
          | inl gone ↦ absurd (ground arith)
          | inr (t, found) ↦
              elim (Result-cases (env.bcrypt_generate (after 2 w) password bcrypt_cost)) [
                | inr (e, bad) ↦ absurd (ground arith)
                | inl (hashed, made) ↦ (
                  t,
                  hashed,
                  found,
                  ground arith,
                  made,
                  ground (
                    arith,
                    select_first-update_where (has_id t.user_id) (has_id t.user_id)
                        (with_password (env.now (after 4 w)) hashed) w.db.users (λ a. refl),
                  ),
                  ground (arith, select_first-delete_where (is_of t.user_id) w.db.sessions),
                  ground (
                    arith,
                    select_first-delete_where (has_hash (hash_token env token)) w.db.tokens,
                  ),
                )
              ]
        ]

  -- If no token has the given token's hash, the new password is allowed and the server runs the
  -- lookup, ResetPassword fails with "invalid or expired token" and changes no table.
  reset-unknown_token :
      (token password : String) (w : World)
      → validate_password env.classes password ≡ ok tt
      → select_first (has_hash (hash_token env token)) w.db.tokens ≡ none
      → env.fault (after 1 w) ≡ none
      → ((reset_password env s token password w).0 ≡ err invalid_token)
        × ((reset_password env s token password w).1.db ≡ w.db)
  unfolding reset_password get_user_token_by_hash
  reset-unknown_token token password w valid gone runs = ground (
    arith,
    select_first-and_none (has_hash (hash_token env token))
        (λ t. same_type t.type password_reset && ltb (env.now w.draws) t.expires_at) w.db.tokens,
  )

  -- A reset token works once: after a successful reset whose deletions ran, a second reset with
  -- the same token and an allowed password fails and changes no table.
  pub reset-once :
      (token first second : String) (w : World) {w' : World}
      → reset_password env s token first w ≡ (ok tt, w')
      → env.fault (after 6 w) ≡ none
      → env.fault (after 7 w) ≡ none
      → validate_password env.classes second ≡ ok tt
      → env.fault (after 1 w') ≡ none
      → ((reset_password env s token second w').0 ≡ err invalid_token)
        × ((reset_password env s token second w').1.db ≡ w'.db)
  reset-once token first second w {w' = w'} h runs1 runs2 valid runs =
      let (t, hashed, a, b, c, d, e, gone) = reset-effect token first w h runs1 runs2 in
      reset-unknown_token token second w' valid gone runs

  -- If ResetPassword succeeds although the server failed to delete the sessions, all sessions
  -- are still there.
  pub reset-keeps-sessions :
      (token password : String) (w : World) {w' : World} {e : ℕ}
      → reset_password env s token password w ≡ (ok tt, w')
      → env.fault (after 7 w) ≡ some e
      → w'.db.sessions ≡ w.db.sessions
  unfolding reset_password get_user_token_by_hash update_password update_user delete_user_token
      delete_all_user_sessions
  reset-keeps-sessions token password w h fails = ground arith

  -- For an email of no user, where the server runs the lookup, RequestPasswordReset succeeds,
  -- changes no table and starts no mail.
  pub request-unknown :
      (email : String) (w : World)
      → is_empty email ≡ false
      → env.fault w.draws ≡ none
      → select_first (has_email email) w.db.users ≡ none
      → let (r, w') = request_password_reset env s email w in
        (r ≡ ok tt) × (w'.db ≡ w.db) × (w'.mails ≡ w.mails)
  unfolding request_password_reset get_user_by_email
  request-unknown email w present runs unknown = ground arith

  -- If RequestPasswordReset succeeds for the email of a user, it has added one reset token for
  -- that user, of an hour's life, whose text is mailed to the user if there is an email service;
  -- no other table changes.
  pub request-known :
      (email : String) (w : World) {w' : World} {u : User}
      → request_password_reset env s email w ≡ (ok tt, w')
      → select_first (has_email email) w.db.users ≡ some u
      → env.fault w.draws ≡ none
      → (token : String) × (env.random_hex (after 1 w) ≡ ok token)
        × (w'.db ≡ record w.db {
          tokens = token_row env u.id password_reset hour token (after 2 w) ∷ w.db.tokens;
        })
        × (w'.mails ≡ (
            if s.has_email_service
            then password_reset_mail u.email u.display_name token ∷ w.mails
            else w.mails))
  unfolding request_password_reset get_user_by_email create_user_token insert_token
      generate_password_reset_token
  request-known email w h known runs = elim (Result-cases (env.random_hex (after 1 w))) [
    | inr (e, bad) ↦ absurd (ground arith)
    | inl (token, drawn) ↦ (token, drawn, ground arith, ground arith)
  ]
