-- ===== src/Auth/Registration/Journey.antt =====
-- RegisterUser and what follows it: the verification mail, VerifyEmail with its token, and Login.
use skillsphere_api.Common.{
  ℕ, suc, String, ◌≡◌, ◌*◌, ◌+◌, ◌==◌, ◌||◌, refl, ◌∙◌, true, false, some, none, arith, ltb,
  is_empty, select_first,
}
use skillsphere_api.Errors.{ok}
use skillsphere_api.Records.{UserToken, email_verification}
use skillsphere_api.World.{World, Env, after, advance}
use skillsphere_api.Auth.Repository.{
  has_id, has_email, has_token, get_user_by_id, get_user_token_by_hash, verify_email, update_user,
  delete_user_token,
}
use skillsphere_api.Auth.Tokens.{TokenPair}
use skillsphere_api.Auth.Service.{AuthService, SessionMetadata, hash_token, hour}
use skillsphere_api.Auth.Service.Rows.{token_row}
use skillsphere_api.Auth.Sessions.{generate_tokens_for, login, LoginParams, compare_password}
use skillsphere_api.Auth.Sessions.Login.{login-accepts}
use skillsphere_api.Auth.Registration.{
  RegisterParams, RegisterResult, register_user, confirm_email, welcome, bcrypt_cost,
}
use skillsphere_api.Auth.Registration.Accounts.{register-enrolls}
use skillsphere_api.Auth.Registration.Verification.{
  live_token, token_row-live, verified_at, confirm-verifies,
}
use skillsphere_api.Auth.Registration.Mails.{mailed, register-Mailed}

abbrev pub credentials : String → String → SessionMetadata → LoginParams
credentials email password metadata = record {
  email = email;
  password = password;
  metadata = metadata;
}

module _ (env : Env) (s : AuthService) where
  -- Where the server runs every statement, VerifyEmail takes a live token.
  confirm-accepts :
      (token : String) (v : World) {t : UserToken}
      → ((n : ℕ) → env.fault n ≡ none)
      → is_empty token ≡ false
      → select_first (live_token env s token email_verification (env.now v.draws)) v.db.tokens
        ≡ some t
      → (confirm_email env s token v).0 ≡ ok t.user_id
  unfolding confirm_email get_user_token_by_hash verify_email update_user delete_user_token welcome
      get_user_by_id
  confirm-accepts token v runs present found =
      ground (arith, runs (after 1 v), runs (after 4 v), runs (after 5 v), runs (after 6 v))

  -- Where the server runs every statement and random texts are not empty: after a registration
  -- that succeeded, the token of the mail confirms the email, as long as the tables are as the
  -- registration left them and the clock has not come to a day after the token was made. The user
  -- that is then stored is the registered one, verified.
  pub register-confirm_email :
      (params : RegisterParams) (w v : World) {w' : World} {r : RegisterResult}
      → ((n : ℕ) → env.fault n ≡ none)
      → ((n : ℕ) (text : String) → env.random_hex n ≡ ok text → is_empty text ≡ false)
      → register_user env s params w ≡ (ok r, w')
      → v.db ≡ w'.db
      → ltb (env.now v.draws) (env.now (after 14 w) + 24 * hour) ≡ true
      → (token : String) × (w'.mails ≡ mailed env s r.user token w.mails)
        × ((confirm_email env s token v).0 ≡ ok r.user.id)
        × (select_first (has_id r.user.id) (confirm_email env s token v).1.db.users
            ≡ some (verified_at env s (env.now (after 2 v)) (env.now (after 3 v)) r.user))
  register-confirm_email params w v {w' = w'} {r = r} runs texts h same early =
      let m = register-Mailed env s params w h in
      let row = token_row env r.user.id email_verification (24 * hour) m.text (after 14 w) in
      let live = live_token env s m.text email_verification (env.now v.draws) in
      let found : select_first live v.db.tokens ≡ some row =
        rw (same, m.tokens)
          (token_row-live env s r.user.id (24 * hour) email_verification m.text (after 14 w)
            (env.now v.draws) w.db.tokens early) in
      let accepted = confirm-accepts m.text v runs (texts (after 13 w) m.text m.drawn) found in
      let (t, a, b, stored, gone) =
        confirm-verifies env s m.text v (λ i. (accepted i, (confirm_email env s m.text v).1))
          (runs (after 5 v)) in
      (m.text, m.mails, accepted, stored ∙ rw (same, m.users) ground arith)

  -- Where the server runs every statement and bcrypt accepts a password for a hash it made of it:
  -- after a registration that succeeded, Login with the registered email and password succeeds
  -- for the registered user, as long as the tables are as the registration left them, if the
  -- tokens can be signed and no session has the new session's identifier or the hash of its token.
  pub register-login :
      (params : RegisterParams) (metadata : SessionMetadata) (w v : World) {w' : World}
      {r : RegisterResult} {tokens : TokenPair}
      → ((n : ℕ) → env.fault n ≡ none)
      → ((n : ℕ) (password hashed : String)
          → env.bcrypt_generate n password bcrypt_cost ≡ ok hashed
          → env.bcrypt_compare hashed password ≡ none)
      → register_user env s params w ≡ (ok r, w')
      → v.db ≡ w'.db
      → (generate_tokens_for env s r.user (advance v)).0 ≡ ok tokens
      → select_first
          (λ t.
            t.id == env.new_uuid (after 5 v) || has_token (hash_token env tokens.refresh_token) t)
          v.db.sessions
        ≡ none
      → (login env s (credentials params.email params.password metadata) v).0
        ≡ ok (record { user = r.user; tokens = tokens })
  register-login params metadata w v {r = r} {tokens = tokens} runs laws h same signed fresh =
      let (hashed, valid, free, made, e) = register-enrolls env s params w h in
      let law = laws (suc w.draws) params.password hashed made in
      let matches : compare_password env r.user.hashed_password params.password ≡ true =
        rw (e.password, law) refl in
      let found : select_first (has_email params.email) v.db.users ≡ some r.user =
        rw same e.by_email in
      login-accepts env s (credentials params.email params.password metadata) v r.user tokens runs
        found e.active matches signed fresh
