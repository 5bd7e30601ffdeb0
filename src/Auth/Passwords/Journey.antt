-- ===== src/Auth/Passwords/Journey.antt =====
-- A forgotten password: RequestPasswordReset, ResetPassword with the mailed token, and Login.
use skillsphere_api.Common.{
  ℕ, String, ◌≡◌, ◌+◌, ◌==◌, ◌||◌, refl, sym, subst, true, some, none, arith, ltb, select_first,
  select_first-update_where, ◌∷◌, if◌then◌else◌, List,
}
use skillsphere_api.Errors.{ok}
use skillsphere_api.Records.{User, UserToken, password_reset}
use skillsphere_api.Password.{validate_password}
use skillsphere_api.World.{World, Env, Mail, password_reset_mail, after, advance}
use skillsphere_api.Auth.Repository.{
  has_id, has_email, has_token, get_user_token_by_hash, update_password, update_user,
  delete_user_token, delete_all_user_sessions,
}
use skillsphere_api.Auth.Tokens.{TokenPair}
use skillsphere_api.Auth.Service.{AuthService, SessionMetadata, hash_token, hour}
use skillsphere_api.Auth.Service.Rows.{token_row}
use skillsphere_api.Auth.Sessions.{generate_tokens_for, login, compare_password}
use skillsphere_api.Auth.Sessions.Login.{login-accepts}
use skillsphere_api.Auth.Registration.{bcrypt_cost}
use skillsphere_api.Auth.Registration.Verification.{token_row-live}
use skillsphere_api.Auth.Registration.Journey.{credentials}
use skillsphere_api.Auth.Passwords.{request_password_reset, reset_password}
use skillsphere_api.Auth.Passwords.Reset.{usable, with_password, request-known}

module _ (env : Env) (s : AuthService) where
  -- The mail of a reset token, if there is an email service.
  abbrev pub mailed : User → String → List Mail → List Mail
  mailed u token mails =
      if s.has_email_service
      then password_reset_mail u.email u.display_name token ∷ mails
      else mails

  -- What a reset leaves under an email.
  reset-by_email :
      (token password email : String) (v : World) {t : UserToken} {u : User} {hashed : String}
      → ((n : ℕ) → env.fault n ≡ none)
      → validate_password env.classes password ≡ ok tt
      → select_first (usable env s token password_reset (env.now v.draws)) v.db.tokens ≡ some t
      → t.user_id ≡ u.id
      → env.bcrypt_generate (after 2 v) password bcrypt_cost ≡ ok hashed
      → select_first (has_email email) v.db.users ≡ some u
      → ((reset_password env s token password v).0 ≡ ok tt)
        × (select_first (has_email email) (reset_password env s token password v).1.db.users
            ≡ some (with_password env s (env.now (after 4 v)) hashed u))
  unfolding reset_password get_user_token_by_hash update_password update_user delete_user_token
      delete_all_user_sessions
  reset-by_email token password email v {t = t} {u = u} {hashed = hashed} runs valid live owner made
        stored =
      let moved =
        select_first-update_where (has_id t.user_id) (has_email email)
          (with_password env s (env.now (after 4 v)) hashed) v.db.users (λ a. refl) in
      (
        ground (arith, runs (after 1 v), runs (after 5 v), runs (after 6 v), runs (after 7 v)),
        ground
            (arith, runs (after 1 v), runs (after 5 v), runs (after 6 v), runs (after 7 v), moved),
      )

  -- Where the server runs every statement, bcrypt makes a hash of the new password and accepts a
  -- password for a hash it made of it: after RequestPasswordReset succeeded for a user's email, the
  -- token of the mail resets the password to a new one that the policy allows, as long as the
  -- tables are as the request left them and the clock has not come to an hour after the token was
  -- made. Later, while the tables are as the reset left them, Login with the email and the new
  -- password succeeds for that user, if the user is active, the tokens can be signed and no session
  -- has the new session's identifier or the hash of its token.
  pub request-reset-login :
      (email token password : String) (metadata : SessionMetadata) (w v x : World) {w' : World}
      {u : User} {hashed : String} {tokens : TokenPair}
      → ((n : ℕ) → env.fault n ≡ none)
      → ((n : ℕ) (plain hash : String)
          → env.bcrypt_generate n plain bcrypt_cost ≡ ok hash
          → env.bcrypt_compare hash plain ≡ none)
      → select_first (has_email email) w.db.users ≡ some u
      → u.is_active ≡ true
      → request_password_reset env s email w ≡ (ok tt, w')
      → env.random_hex (after 1 w) ≡ ok token
      → v.db ≡ w'.db
      → ltb (env.now v.draws) (env.now (after 2 w) + hour) ≡ true
      → validate_password env.classes password ≡ ok tt
      → env.bcrypt_generate (after 2 v) password bcrypt_cost ≡ ok hashed
      → x.db ≡ (reset_password env s token password v).1.db
      → (generate_tokens_for env s u (advance x)).0 ≡ ok tokens
      → select_first
          (λ t.
            t.id == env.new_uuid (after 5 x) || has_token (hash_token env tokens.refresh_token) t)
          x.db.sessions
        ≡ none
      → (w'.mails ≡ mailed u token w.mails)
        × ((reset_password env s token password v).0 ≡ ok tt)
        × ((login env s (credentials email password metadata) x).0
            ≡ ok (record {
              user = with_password env s (env.now (after 4 v)) hashed u;
              tokens = tokens;
            }))
  unfolding generate_tokens_for
  request-reset-login email token password metadata w v x {w' = w'} {u = u} {hashed = hashed}
        {tokens = tokens} runs laws known active h drawn same early valid made later signed fresh =
      let (text, drawn', db, mails) = request-known env s email w h known (runs w.draws) in
      let is_token : text ≡ token = cc (drawn, drawn') in
      let row = token_row env u.id password_reset hour text (after 2 w) in
      let live : select_first (usable env s text password_reset (env.now v.draws)) v.db.tokens
          ≡ some row =
        rw (same, db)
          (token_row-live env s u.id hour password_reset text (after 2 w) (env.now v.draws)
            w.db.tokens early) in
      let stored : select_first (has_email email) v.db.users ≡ some u = rw (same, db) known in
      let (done, found) = reset-by_email text password email v runs valid live refl made stored in
      let changed = with_password env s (env.now (after 4 v)) hashed u in
      let found' : select_first (has_email email) x.db.users ≡ some changed =
        rw (later, sym is_token) found in
      let matches : compare_password env hashed password ≡ true =
        rw (laws (after 2 v) password hashed made) refl in
      (
        subst (λ t. w'.mails ≡ mailed u t w.mails) is_token mails,
        subst (λ t. (reset_password env s t password v).0 ≡ ok tt) is_token done,
        login-accepts env s (credentials email password metadata) x changed tokens runs found'
            active matches signed fresh,
      )
