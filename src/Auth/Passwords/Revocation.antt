-- ===== src/Auth/Passwords/Revocation.antt =====
-- A new password and the refresh tokens handed out before it.
use skillsphere_api.Common.{
  ℕ, String, ◌≡◌, ◌≢◌, none, some, arith, eq_iff, subst, List, [], ◌∷◌, Unique, inl, inr,
  Bool-cases, select_first, select_first-and_none, select_first-delete_where-none, delete_where,
  ltb,
}
use skillsphere_api.Errors.{ok}
use skillsphere_api.Records.{UserSession, UserToken, password_reset}
use skillsphere_api.World.{World, Env, after}
use skillsphere_api.Auth.Repository.{
  has_token, is_of, get_user_by_id, get_user_session_by_token, get_user_token_by_hash,
  update_password, update_user, delete_user_token, delete_all_user_sessions,
}
use skillsphere_api.Auth.Integrity.{IsValid}
use skillsphere_api.Auth.Tokens.{TokenPair, validate_refresh_token}
use skillsphere_api.Auth.Service.{AuthService, hash_token}
use skillsphere_api.Auth.Sessions.{RefreshTokenParams, refresh_user, refresh_tokens}
use skillsphere_api.Auth.Passwords.{change_password, reset_password}
use skillsphere_api.Auth.Passwords.Reset.{usable}

-- Where hashes are unique, deleting the sessions of a user takes the one of a hash with it.
gone-with_user :
    (h : String) (id : ℕ) (l : List UserSession) {s : UserSession}
    → Unique (λ a b. has_token a.hashed_refresh_token b) l
    → select_first (has_token h) l ≡ some s
    → s.user_id ≡ id
    → select_first (has_token h) (delete_where (is_of id) l) ≡ none
gone-with_user h id [] u found owner = ground arith
gone-with_user h id (a ∷ l) {s = s} u found owner = elim (Bool-cases (has_token h a)) [
  | inl hit ↦
      let same : a.hashed_refresh_token ≡ h = ground (arith, eq_iff a.hashed_refresh_token h) in
      let rest =
        select_first-delete_where-none (is_of id) (has_token h) l
          (subst (λ k. select_first (has_token k) l ≡ none) same u.0) in
      ground (arith, rest)
  | inr miss ↦
      let found' : select_first (has_token h) l ≡ some s = ground arith in
      let rest = gone-with_user h id l u.1 found' owner in ground (arith, rest)
]

module _ (env : Env) (s : AuthService) where
  -- No refresh without a session.
  refresh-no_session :
      (params : RefreshTokenParams) (v : World) (pair : TokenPair)
      → select_first (has_token (hash_token env params.refresh_token)) v.db.sessions ≡ none
      → ((refresh_tokens env s params v).0 ≢ ok pair)
        × ((refresh_tokens env s params v).1.db ≡ v.db)
  unfolding refresh_tokens refresh_user get_user_session_by_token validate_refresh_token
  refresh-no_session params v pair gone =
      let dead =
        select_first-and_none (has_token (hash_token env params.refresh_token))
          (λ t. ltb (env.now (after 1 v)) t.expires_at) v.db.sessions gone in
      (ground (arith, dead), ground (arith, dead))

  change-sessions :
      (user_id current new : String) (id : ℕ) (w w' : World)
      → change_password env s user_id current new w ≡ (ok tt, w')
      → env.uuid_parse user_id ≡ ok id
      → env.fault (after 5 w) ≡ none
      → w'.db.sessions ≡ delete_where (is_of id) w.db.sessions
  unfolding change_password get_user_by_id update_password update_user delete_all_user_sessions
  change-sessions user_id current new id w w' h parsed runs = ground arith

  reset-sessions :
      (token password : String) (w w' : World) {t : UserToken}
      → reset_password env s token password w ≡ (ok tt, w')
      → select_first (usable env s token password_reset (env.now w.draws)) w.db.tokens ≡ some t
      → env.fault (after 7 w) ≡ none
      → w'.db.sessions ≡ delete_where (is_of t.user_id) w.db.sessions
  unfolding reset_password get_user_token_by_hash update_password update_user delete_user_token
      delete_all_user_sessions
  reset-sessions token password w w' h live runs = ground arith

  module _ (params : RefreshTokenParams) where
    abbrev pub Finds : World → UserSession → Type 0
    Finds w u =
        select_first (has_token (hash_token env params.refresh_token)) w.db.sessions ≡ some u

    -- Where hashes are unique and the server ran the deletion of the sessions: once ChangePassword
    -- has succeeded for a user, a refresh token that found a session of that user before is
    -- refused, as long as the tables are as the change left them, and no table changes.
    pub change-revokes :
        (user_id current new : String) (id : ℕ) (w v : World) {w' : World} {u : UserSession}
        (pair : TokenPair)
        → IsValid w.db
        → change_password env s user_id current new w ≡ (ok tt, w')
        → env.uuid_parse user_id ≡ ok id
        → env.fault (after 5 w) ≡ none
        → Finds w u
        → u.user_id ≡ id
        → v.db ≡ w'.db
        → ((refresh_tokens env s params v).0 ≢ ok pair)
          × ((refresh_tokens env s params v).1.db ≡ v.db)
    change-revokes user_id current new id w v {w' = w'} pair valid h parsed runs found owner same =
        let left = change-sessions user_id current new id w w' h parsed runs in
        refresh-no_session params v pair (
          rw (same, left)
            (gone-with_user (hash_token env params.refresh_token) id w.db.sessions
              valid.session_hashes found owner))

    -- Where hashes are unique and the server ran the deletion of the sessions: once ResetPassword
    -- has succeeded with a token that was live for a user, a refresh token that found a session of
    -- that user before is refused, as long as the tables are as the reset left them, and no table
    -- changes.
    pub reset-revokes :
        (token password : String) (w v : World) {w' : World} {t : UserToken} {u : UserSession}
        (pair : TokenPair)
        → IsValid w.db
        → reset_password env s token password w ≡ (ok tt, w')
        → select_first (usable env s token password_reset (env.now w.draws)) w.db.tokens ≡ some t
        → env.fault (after 7 w) ≡ none
        → Finds w u
        → u.user_id ≡ t.user_id
        → v.db ≡ w'.db
        → ((refresh_tokens env s params v).0 ≢ ok pair)
          × ((refresh_tokens env s params v).1.db ≡ v.db)
    reset-revokes token password w v {w' = w'} {t = t} pair valid h live runs found owner same =
        let left = reset-sessions token password w w' h live runs in
        refresh-no_session params v pair (
          rw (same, left)
            (gone-with_user (hash_token env params.refresh_token) t.user_id w.db.sessions
              valid.session_hashes found owner))
