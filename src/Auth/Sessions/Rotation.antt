-- ===== src/Auth/Sessions/Rotation.antt =====
-- What Logout and RefreshTokens do to the table of sessions.
use skillsphere_api.Common.{
  ℕ, suc, String, ◌≡◌, ◌≢◌, refl, inl, inr, Option-cases, Bool, true, false, ◌&&◌, some, none,
  arith, ltb, eq_iff, eq_refl, is_empty, select_first, delete_where, select_first-delete_where,
  select_first-delete_where_ne, ◌∷◌, List,
}
use skillsphere_api.Errors.{ok, Result-cases}
use skillsphere_api.Action.{>>=-eq-ok}
use skillsphere_api.Records.{User, UserSession}
use skillsphere_api.World.{World, Env, Claims}
use skillsphere_api.Auth.Repository.{
  has_id, has_token, get_user_by_id, get_user_session_by_token, delete_user_session,
  create_user_session, insert_session,
}
use skillsphere_api.Auth.Service.{AuthService, create_session, hash_token}
use skillsphere_api.Auth.Service.Rows.{session_row}
use skillsphere_api.Auth.Tokens.{TokenPair, generate_token_pair, validate_refresh_token}
use skillsphere_api.Auth.Sessions.{
  RefreshTokenParams, logout, refresh_user, reissue, refresh_tokens,
}

-- A deletion by one hash leaves the sessions of another hash.
other_sessions :
    (a b : String) (l : List UserSession)
    → a ≢ b
    → select_first (has_token b) (delete_where (has_token a) l) ≡ select_first (has_token b) l
other_sessions a b l ne =
    select_first-delete_where_ne (has_token a) (has_token b) l
      (λ r e. ground (arith, eq_iff r.hashed_refresh_token a, eq_iff r.hashed_refresh_token b))

module _ (env : Env) (s : AuthService) where
  -- Logout with a token that is not empty, where the server runs the statement, succeeds: no
  -- session has the token's hash afterwards, the sessions of any other hash are found as before,
  -- and no other table changes.
  pub logout-closes-session :
      (token hash : String) (w : World)
      → is_empty token ≡ false
      → env.fault w.draws ≡ none
      → hash_token env token ≢ hash
      → let (r, w') = logout env s token w in
        (r ≡ ok tt)
        × (select_first (has_token (hash_token env token)) w'.db.sessions ≡ none)
        × (select_first (has_token hash) w'.db.sessions
            ≡ select_first (has_token hash) w.db.sessions)
        × (w'.db ≡ record w.db { sessions = w'.db.sessions })
  unfolding logout delete_user_session
  logout-closes-session token hash w present runs ne = (
    ground arith,
    ground (arith, select_first-delete_where (has_token (hash_token env token)) w.db.sessions),
    ground (arith, other_sessions (hash_token env token) hash w.db.sessions ne),
    ground arith,
  )

  module _ (params : RefreshTokenParams) where
    abbrev pub old_hash : String
    old_hash = hash_token env params.refresh_token

    -- The session of the given token, if it has not expired at a time.
    abbrev pub live_at : ℕ → UserSession → Bool
    live_at now t = has_token old_hash t && ltb now t.expires_at

    -- What the first half of RefreshTokens has found when it returns a user.
    pub record Checked (w : World) (user : User) (w' : World) : Type 0 where
      pub claims : Claims
      pub id : ℕ
      pub old : UserSession
      pub same_db : w'.db ≡ w.db
      pub four_draws : w'.draws ≡ suc (suc (suc (suc w.draws)))
      pub token_accepted :
          (validate_refresh_token env s.token_manager params.refresh_token w).0 ≡ ok claims
      pub names_user : env.uuid_parse claims.user_id ≡ ok id
      pub user_stored : select_first (has_id id) w.db.users ≡ some user
      pub user_active : user.is_active ≡ true
      pub session_live : select_first (live_at (env.now (suc w.draws))) w.db.sessions ≡ some old

    refresh_user-draws :
        (w w' : World) (user : User)
        → refresh_user env s params w ≡ (ok user, w')
        → (w'.db ≡ w.db) × (w'.draws ≡ suc (suc (suc (suc w.draws)))) × (user.is_active ≡ true)
    unfolding refresh_user get_user_by_id get_user_session_by_token validate_refresh_token
    refresh_user-draws w w' user h = ground arith

    reissue-rotates :
        (w w' : World) (user : User) (pair : TokenPair)
        → reissue env s params user w ≡ (ok pair, w')
        → env.fault w.draws ≡ none
        → old_hash ≢ hash_token env pair.refresh_token
        → (select_first (has_token old_hash) w'.db.sessions ≡ none)
          × (select_first (has_token (hash_token env pair.refresh_token)) w'.db.sessions
              ≡ some (
                  session_row env s user.id pair.refresh_token params.metadata
                    (suc (suc (suc (suc w.draws))))))
    unfolding reissue delete_user_session create_session create_user_session insert_session
        generate_token_pair
    reissue-rotates w w' user pair h runs ne = ground (
      arith,
      eq_refl (hash_token env pair.refresh_token),
      select_first-delete_where (has_token old_hash) w.db.sessions,
      eq_iff (hash_token env pair.refresh_token) old_hash,
    )

    -- Where the server fails to run the deletion, the old session is still there.
    pub reissue-keeps-old :
        (w w' : World) (user : User) (pair : TokenPair) (e : ℕ)
        → reissue env s params user w ≡ (ok pair, w')
        → env.fault w.draws ≡ some e
        → w'.db.sessions
          ≡ session_row env s user.id pair.refresh_token params.metadata
              (suc (suc (suc (suc w.draws))))
            ∷ w.db.sessions
    unfolding reissue delete_user_session create_session create_user_session insert_session
        generate_token_pair
    reissue-keeps-old w w' user pair e h fails = ground arith

    pub reissue-keeps-users :
        (w w' : World) (user : User) (pair : TokenPair)
        → reissue env s params user w ≡ (ok pair, w')
        → w'.db.users ≡ w.db.users
    unfolding reissue delete_user_session create_session create_user_session insert_session
        generate_token_pair
    reissue-keeps-users w w' user pair h = ground arith

    module _ (w : World) where
      pub refresh_user-Checked :
          (user : User)
          → refresh_user env s params w ≡ (ok user, (refresh_user env s params w).1)
          → Checked w user (refresh_user env s params w).1
      unfolding refresh_user get_user_by_id get_user_session_by_token validate_refresh_token
      refresh_user-Checked user h =
          elim (Result-cases
            (validate_refresh_token env s.token_manager params.refresh_token w).0) [
              | inr (e, bad) ↦ absurd (ground arith)
              | inl (c, good) ↦
                  elim (Option-cases
                    (select_first (live_at (env.now (suc w.draws))) w.db.sessions)) [
                      | inl gone ↦ absurd (ground arith)
                      | inr (old, found) ↦ elim (Result-cases (env.uuid_parse c.user_id)) [
                        | inr (e, bad) ↦ absurd (ground arith)
                        | inl (id, parsed) ↦ record {
                          claims = c;
                          id = id;
                          old = old;
                          same_db = ground arith;
                          four_draws = ground arith;
                          token_accepted = good;
                          names_user = parsed;
                          user_stored = ground arith;
                          user_active = ground arith;
                          session_live = found;
                        }
                      ]
                    ]
            ]

      -- If RefreshTokens succeeds and the server runs the deletion, then the given token's claims
      -- name a stored active user and its session was live; afterwards no session has its hash,
      -- and the hash of the new token, if it is another, finds a new session of that user.
      pub refresh-rotates :
          {w' : World} {pair : TokenPair}
          → refresh_tokens env s params w ≡ (ok pair, w')
          → env.fault (suc (suc (suc (suc w.draws)))) ≡ none
          → old_hash ≢ hash_token env pair.refresh_token
          → (user : User) × (w1 : World) × (new : UserSession) × Checked w user w1
            × (select_first (has_token old_hash) w'.db.sessions ≡ none)
            × (select_first (has_token (hash_token env pair.refresh_token)) w'.db.sessions
                ≡ some new)
            × (new.user_id ≡ user.id)
      unfolding refresh_tokens
      refresh-rotates {w' = w'} {pair = pair} h runs ne =
          let (user, p, q) = >>=-eq-ok (refresh_user env s params) (reissue env s params) w h in
          let w1 = (refresh_user env s params w).1 in
          let c = refresh_user-Checked user p in
          let ran : env.fault w1.draws ≡ none = rw c.four_draws runs in
          let (gone, there) = reissue-rotates w1 w' user pair q ran ne in
          (
            user,
            w1,
            session_row env s user.id pair.refresh_token params.metadata
                (suc (suc (suc (suc w1.draws)))),
            c,
            gone,
            there,
            refl,
          )
