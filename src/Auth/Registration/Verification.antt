-- ===== src/Auth/Registration/Verification.antt =====
-- What VerifyEmail and ResendVerificationEmail guarantee.
use skillsphere_api.Common.{
  ℕ, String, ◌≡◌, refl, Bool, true, false, not, Option, ◌&&◌, some, none, arith, ltb, is_empty,
  is_some, select_first, select_first-delete_where, select_first-update_where, map_row,
  Option-cases, inl, inr, Bool-cases, eq_refl, ◌+◌, ◌*◌, ◌∷◌, All, List, [],
}
use skillsphere_api.Errors.{ok, err, invalid_token}
use skillsphere_api.Records.{User, UserToken, TokenType, email_verification, password_reset}
use skillsphere_api.World.{World, Env, after, advance}
use skillsphere_api.Password.{validate_password}
use skillsphere_api.Auth.Repository.{
  has_id, has_hash, has_email, same_type, get_user_by_email, get_user_by_id, get_user_token_by_hash,
  verify_email, update_user, delete_user_token,
}
use skillsphere_api.Auth.Service.{AuthService, hash_token, hour}
use skillsphere_api.Auth.Service.Rows.{token_row, send_email_verification-ok}
use skillsphere_api.Auth.Registration.{
  confirm_email, welcome, resend_verification_email, ResendVerificationResult,
}
use skillsphere_api.Auth.Passwords.{reset_password}

module _ (env : Env) (s : AuthService) where
  abbrev pub verified_at : ℕ → ℕ → User → User
  verified_at at now u = record u { email_verified_at = some at; updated_at = now }

  abbrev pub live_token : String → TokenType → ℕ → UserToken → Bool
  live_token token type now t =
      has_hash (hash_token env token) t && (same_type t.type type && ltb now t.expires_at)

  -- A token that was just inserted is live until it expires.
  pub token_row-live :
      (id life : ℕ) (type : TokenType) (token : String) (n now : ℕ) (l : List UserToken)
      → ltb now (env.now n + life) ≡ true
      → let row = token_row env id type life token n in
        select_first (live_token token type now) (row ∷ l) ≡ some row
  token_row-live id life email_verification token n now l early =
      ground (arith, eq_refl (hash_token env token))
  token_row-live id life password_reset token n now l early =
      ground (arith, eq_refl (hash_token env token))

  -- The welcome mail changes no table.
  welcome-db : (id : ℕ) (w : World) → (welcome env s id w).1.db ≡ w.db
  unfolding welcome get_user_by_id
  welcome-db id w = ground arith

  -- If VerifyEmail succeeds and the server runs the deletion, an unexpired verification token of
  -- the returned user had the token's hash. Afterwards that user, if it is stored, is verified and
  -- otherwise as before but for its time of update, and no token has the hash.
  pub confirm-verifies :
      (token : String) (w : World) {w' : World} {id : ℕ}
      → confirm_email env s token w ≡ (ok id, w')
      → env.fault (after 5 w) ≡ none
      → (t : UserToken) × (select_first
            (live_token token email_verification (env.now w.draws))
            w.db.tokens
          ≡ some t)
        × (t.user_id ≡ id)
        × (select_first (has_id id) w'.db.users
            ≡ map_row
                (has_id id)
                (verified_at (env.now (after 2 w)) (env.now (after 3 w)))
                (select_first (has_id id) w.db.users))
        × (select_first (has_hash (hash_token env token)) w'.db.tokens ≡ none)
  unfolding confirm_email get_user_token_by_hash verify_email update_user delete_user_token welcome
      get_user_by_id
  confirm-verifies token w {id = id} h runs =
      elim (Option-cases
        (select_first (live_token token email_verification (env.now w.draws)) w.db.tokens)) [
          | inl gone ↦ absurd (ground arith)
          | inr (t, found) ↦ (
            t,
            found,
            ground arith,
            ground (
              arith,
              select_first-update_where (has_id id) (has_id id)
                  (verified_at (env.now (after 2 w)) (env.now (after 3 w))) w.db.users (λ a. refl),
            ),
            ground (arith, select_first-delete_where (has_hash (hash_token env token)) w.db.tokens),
          )
        ]

  -- No usable token of one type has a hash whose rows are all of the other type.
  other_type :
      (token : String) (mine other : TokenType) (now : ℕ) (l : List UserToken)
      → same_type other mine ≡ false
      → All (λ t. has_hash (hash_token env token) t ≡ true → t.type ≡ other) l
      → select_first (live_token token mine now) l ≡ none
  other_type token mine other now [] ne all = refl
  other_type token mine other now (t ∷ l) ne all =
      elim (Bool-cases (has_hash (hash_token env token) t)) [
        | inl yes' ↦ rw (yes', all.0 yes', ne) (other_type token mine other now l ne all.1)
        | inr no' ↦ rw no' (other_type token mine other now l ne all.1)
      ]

  -- Where every token with the given hash is a verification token, the new password is allowed
  -- and the server runs the lookup, ResetPassword refuses it as an invalid token and changes no
  -- table.
  pub reset-refuses-verification_token :
      (token password : String) (w : World)
      → validate_password env.classes password ≡ ok tt
      → env.fault (after 1 w) ≡ none
      → All
          (λ t. has_hash (hash_token env token) t ≡ true → t.type ≡ email_verification)
          w.db.tokens
      → ((reset_password env s token password w).0 ≡ err invalid_token)
        × ((reset_password env s token password w).1.db ≡ w.db)
  unfolding reset_password get_user_token_by_hash
  reset-refuses-verification_token token password w valid runs all = ground (
    arith,
    other_type token password_reset email_verification (env.now w.draws) w.db.tokens refl all,
  )

  -- Where every token with the hash of the given token is a reset token and the server runs the
  -- lookup, VerifyEmail refuses it as an invalid token and changes no table.
  pub confirm-refuses-reset_token :
      (token : String) (w : World)
      → is_empty token ≡ false
      → env.fault (after 1 w) ≡ none
      → All (λ t. has_hash (hash_token env token) t ≡ true → t.type ≡ password_reset) w.db.tokens
      → ((confirm_email env s token w).0 ≡ err invalid_token)
        × ((confirm_email env s token w).1.db ≡ w.db)
  unfolding confirm_email get_user_token_by_hash
  confirm-refuses-reset_token token w present runs all = ground (
    arith,
    other_type token email_verification password_reset (env.now w.draws) w.db.tokens refl all,
  )

  abbrev pub is_unverified : Option User → Bool
  is_unverified none = false
  is_unverified (some u) = not (is_some u.email_verified_at)

  -- For an email that is not empty and is not that of an unverified user, where the server runs
  -- the lookup, ResendVerificationEmail succeeds, says whether there is such a user, changes no
  -- table and starts no mail.
  pub resend-quiet :
      (email : String) (w : World)
      → is_empty email ≡ false
      → env.fault w.draws ≡ none
      → is_unverified (select_first (has_email email) w.db.users) ≡ false
      → let (r, w') = resend_verification_email env s email w in
        (r ≡ ok (record { already_verified = is_some (select_first (has_email email) w.db.users) }))
        × (w'.db ≡ w.db)
        × (w'.mails ≡ w.mails)
  unfolding resend_verification_email get_user_by_email
  resend-quiet email w present runs quiet = ground arith

  -- If ResendVerificationEmail succeeds for the email of an unverified user, it does not say
  -- "already verified", has added one verification token for that user, of a day's life, and has
  -- changed no other table.
  pub resend-unverified :
      (email : String) (w : World) {w' : World} {u : User} {a : ResendVerificationResult}
      → resend_verification_email env s email w ≡ (ok a, w')
      → env.fault w.draws ≡ none
      → select_first (has_email email) w.db.users ≡ some u
      → u.email_verified_at ≡ none
      → (token : String) × (a.already_verified ≡ false)
        × (env.random_hex (after 1 w) ≡ ok token)
        × (w'.db ≡ record w.db {
          tokens =
              token_row env u.id email_verification (24 * hour) token (after 2 w) ∷ w.db.tokens;
        })
  unfolding resend_verification_email get_user_by_email
  resend-unverified email w {u = u} h runs known unverified =
      let (token, drawn, added) = send_email_verification-ok env s u (advance w) (ground arith) in
      (token, ground arith, drawn, ground (arith, added))
