-- ===== src/Auth/Sessions/Login.antt =====
-- What Login guarantees.
use skillsphere_api.Common.{
  ℕ, suc, ◌≤◌, ◌+◌, ◌≡◌, refl, true, some, arith, select_first, eq_refl, none, ◌==◌, ◌||◌, is_some,
  List, [], ◌∷◌, String,
}
use skillsphere_api.Errors.{Error, ok, err}
use skillsphere_api.Records.{User, UserSession}
use skillsphere_api.World.{World, Env, advance, after}
use skillsphere_api.Auth.Repository.{
  has_id, has_email, has_token, get_user_by_email, create_user_session, insert_session,
  update_last_login, update_user,
}
use skillsphere_api.Auth.Service.{AuthService, create_session, hash_token}
use skillsphere_api.Auth.Service.Rows.{session_row}
use skillsphere_api.Auth.Tokens.{TokenPair, generate_token_pair}
use skillsphere_api.Auth.Sessions.{
  LoginParams, LoginResult, compare_password, login, generate_tokens_for,
}

-- A user that is found by its email is also found by its identifier.
stored_by_id :
    (email : String) (user : User) (l : List User)
    → select_first (has_email email) l ≡ some user
    → is_some (select_first (has_id user.id) l) ≡ true
stored_by_id email user [] h = ground arith
stored_by_id email user (x ∷ l) h = ground (arith, stored_by_id email user l)

module _ (env : Env) (s : AuthService) (params : LoginParams) (w : World) where
  -- If Login succeeds, the user it returns is the one stored under the email, it is active, and
  -- bcrypt accepts the password for its stored hash.
  pub login-authenticates :
      {w' : World} {r : LoginResult}
      → login env s params w ≡ (ok r, w')
      → (select_first (has_email params.email) w.db.users ≡ some r.user)
        × (r.user.is_active ≡ true)
        × (compare_password env r.user.hashed_password params.password ≡ true)
  unfolding login get_user_by_email
  login-authenticates h = ground arith

  -- If Login succeeds, the hash of the refresh token it returns finds a session of that user,
  -- which expires the session's lifetime after a reading of the clock during the call: the
  -- reading's draw is one that the call made.
  pub login-opens-session :
      {w' : World} {r : LoginResult}
      → login env s params w ≡ (ok r, w')
      → (u : UserSession) × (n : ℕ) × (select_first
            (has_token (hash_token env r.tokens.refresh_token))
            w'.db.sessions
          ≡ some u)
        × (u.user_id ≡ r.user.id)
        × (w.draws ≤ n)
        × (suc n ≤ w'.draws)
        × (u.expires_at ≡ env.now n + s.session_ttl)
  unfolding login get_user_by_email generate_token_pair create_session create_user_session
      insert_session update_last_login update_user
  login-opens-session {w' = w'} {r = r} h = (
    session_row env s r.user.id r.tokens.refresh_token params.metadata
        (suc (suc (suc (suc w.draws)))),
    suc (suc (suc (suc w.draws))),
    ground (arith, eq_refl (hash_token env r.tokens.refresh_token)),
    refl,
    omega arith,
    ground arith,
    refl,
  )

  -- If Login fails, every table is as it was.
  pub login-fails-clean :
      {e : Error} → (login env s params w).0 ≡ err e → (login env s params w).1.db ≡ w.db
  unfolding login get_user_by_email generate_token_pair create_session create_user_session
      insert_session update_last_login update_user
  login-fails-clean h = ground arith

  -- Where the server runs every statement, Login succeeds for an active user whose password
  -- bcrypt accepts, if the tokens can be signed and no session has the new session's identifier or
  -- the hash of its token; it returns that user and those tokens.
  pub login-accepts :
      (user : User) (tokens : TokenPair)
      → ((n : ℕ) → env.fault n ≡ none)
      → select_first (has_email params.email) w.db.users ≡ some user
      → user.is_active ≡ true
      → compare_password env user.hashed_password params.password ≡ true
      → (generate_tokens_for env s user (advance w)).0 ≡ ok tokens
      → select_first
          (λ t.
            t.id == env.new_uuid (after 5 w) || has_token (hash_token env tokens.refresh_token) t)
          w.db.sessions
        ≡ none
      → (login env s params w).0 ≡ ok (record { user = user; tokens = tokens })
  unfolding login generate_tokens_for get_user_by_email generate_token_pair create_session
      create_user_session insert_session update_last_login update_user
  login-accepts user tokens runs found active matches signed fresh =
      ground
        (arith, runs w.draws, runs (after 7 w), stored_by_id params.email user w.db.users found)
