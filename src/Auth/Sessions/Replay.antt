-- ===== src/Auth/Sessions/Replay.antt =====
-- What RefreshTokens leaves when the server fails to run its deletion.
use skillsphere_api.Common.{
  ℕ, suc, ◌≤◌, ◌≡◌, ◌≢◌, ap, ◌∙◌, true, some, none, arith, ltb, eq_iff, select_first, [], ◌∷◌, List,
}
use skillsphere_api.Errors.{ok}
use skillsphere_api.Action.{>>=-eq-ok}
use skillsphere_api.Records.{User, UserSession}
use skillsphere_api.World.{Db, World, Env, Claims}
use skillsphere_api.Auth.Repository.{has_id, get_user_by_id, get_user_session_by_token}
use skillsphere_api.Auth.Service.{AuthService, hash_token}
use skillsphere_api.Auth.Service.Rows.{session_row}
use skillsphere_api.Auth.Tokens.{TokenPair, validate_refresh_token}
use skillsphere_api.Auth.Sessions.{RefreshTokenParams, refresh_user, reissue, refresh_tokens}
use skillsphere_api.Auth.Sessions.Rotation.{
  old_hash, live_at, refresh_user-Checked, reissue-keeps-old, reissue-keeps-users,
}

module _ (env : Env) (s : AuthService) (params : RefreshTokenParams) where
  -- The session that is found at a time is found at a later one that it is still live at.
  live_at-later :
      (now later : ℕ) (l : List UserSession) (old : UserSession)
      → now ≤ later
      → ltb later old.expires_at ≡ true
      → select_first (live_at env s params now) l ≡ some old
      → select_first (live_at env s params later) l ≡ some old
  live_at-later now later [] old le live h = ground arith
  live_at-later now later (x ∷ l) old le live h =
      ground (arith, live_at-later now later l old le live)

  -- A new session of another hash is passed over.
  live_at-new :
      (now : ℕ) (new : UserSession) (l : List UserSession)
      → old_hash env s params ≢ new.hashed_refresh_token
      → select_first (live_at env s params now) (new ∷ l)
        ≡ select_first (live_at env s params now) l
  live_at-new now new l ne = ground (arith, eq_iff new.hashed_refresh_token (old_hash env s params))

  refresh_user-passes :
      (v : World) (claims : Claims) (id : ℕ) (user : User) (old : UserSession)
      → (validate_refresh_token env s.token_manager params.refresh_token v).0 ≡ ok claims
      → env.uuid_parse claims.user_id ≡ ok id
      → select_first (has_id id) v.db.users ≡ some user
      → user.is_active ≡ true
      → select_first (live_at env s params (env.now (suc v.draws))) v.db.sessions ≡ some old
      → env.fault (suc (suc v.draws)) ≡ none
      → env.fault (suc (suc (suc v.draws))) ≡ none
      → (refresh_user env s params v).0 ≡ ok user
  unfolding refresh_user get_user_by_id get_user_session_by_token validate_refresh_token
  refresh_user-passes v claims id user old accepted named stored active live runs runs' =
      ground arith

  -- If RefreshTokens succeeds for a session although the server failed to run the deletion, and the
  -- hash of the new token is another than that of the given token, then the given token can be used
  -- again: a later call with it, on the tables as they were left, passes every check of RefreshTokens
  -- for the same user, if the token manager accepts the token as before, the session has not
  -- expired, and the server runs the two queries.
  pub refresh-replay :
      (w : World) {w' : World} {pair : TokenPair} {e : ℕ}
      → refresh_tokens env s params w ≡ (ok pair, w')
      → env.fault (suc (suc (suc (suc w.draws)))) ≡ some e
      → old_hash env s params ≢ hash_token env pair.refresh_token
      → (v : World) (claims : Claims) (old : UserSession) → v.db ≡ w'.db
      → (validate_refresh_token env s.token_manager params.refresh_token w).0 ≡ ok claims
      → (validate_refresh_token env s.token_manager params.refresh_token v).0 ≡ ok claims
      → select_first (live_at env s params (env.now (suc w.draws))) w.db.sessions ≡ some old
      → env.now (suc w.draws) ≤ env.now (suc v.draws)
      → ltb (env.now (suc v.draws)) old.expires_at ≡ true
      → env.fault (suc (suc v.draws)) ≡ none
      → env.fault (suc (suc (suc v.draws))) ≡ none
      → (user : User) × ((refresh_user env s params w).0 ≡ ok user)
        × ((refresh_user env s params v).0 ≡ ok user)
  unfolding refresh_tokens
  refresh-replay w {w' = w'} {pair = pair} {e = e} h fails ne v claims old same before after found
        le live runs runs' =
      let (user, p, q) = >>=-eq-ok (refresh_user env s params) (reissue env s params) w h in
      let w1 = (refresh_user env s params w).1 in
      let c = refresh_user-Checked env s params w user p in
      let kept = reissue-keeps-old env s params w1 w' user pair e q (rw c.four_draws fails) in
      let users = reissue-keeps-users env s params w1 w' user pair q in
      let claims-eq : claims ≡ c.claims = cc in
      let stored : v.db.users ≡ w.db.users =
        ap (λ (db : Db). db.users) same ∙ users ∙ ap (λ (db : Db). db.users) c.same_db in
      let sessions : v.db.sessions
          ≡ session_row env s user.id pair.refresh_token params.metadata
              (suc (suc (suc (suc w1.draws))))
            ∷ w.db.sessions =
        ap (λ (db : Db). db.sessions) same
        ∙ kept
        ∙ ap
            (λ (db : Db).
              session_row env s user.id pair.refresh_token params.metadata
                (suc (suc (suc (suc w1.draws))))
              ∷ db.sessions)
            c.same_db in
      let later =
        live_at-later (env.now (suc w.draws)) (env.now (suc v.draws)) w.db.sessions old le live
          found in
      (
        user,
        cc,
        refresh_user-passes v claims c.id user old after (rw claims-eq c.names_user)
            (rw stored c.user_stored) c.user_active
            (rw sessions (live_at-new (env.now (suc v.draws)) _ w.db.sessions ne ∙ later)) runs
            runs',
      )
