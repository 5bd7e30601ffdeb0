-- ===== src/Auth/Sessions.antt =====
-- internal/domain/auth/service/auth_service.go: Login, Logout, RefreshTokens and
-- ValidateAccessToken.
pub mod Login
pub mod Replay
pub mod Rotation
use skillsphere_api.Common.{String, Bool, true, false, not, Option, none, some, is_empty}
use skillsphere_api.Errors.{
  Error, Result, ok, err, message, account_inactive, invalid_credentials, is_session_not_found,
  errors_is,
}
use skillsphere_api.Action.{Action, pure, lift, attempt, raise_if, ◌>>=◌, ◌>>◌}
use skillsphere_api.Records.{User}
use skillsphere_api.World.{World, Env, Claims}
use skillsphere_api.Auth.Tokens.{
  TokenPair, generate_token_pair, validate_access_token, validate_refresh_token,
}
use skillsphere_api.Auth.Repository.{
  get_user_by_email, get_user_by_id, update_last_login, delete_user_session,
  get_user_session_by_token,
}
use skillsphere_api.Auth.Service.{AuthService, SessionMetadata, hash_token, create_session}

pub record LoginParams : Type 0 where
  pub email : String
  pub password : String
  pub metadata : SessionMetadata

pub record LoginResult : Type 0 where
  pub user : User
  pub tokens : TokenPair

pub record RefreshTokenParams : Type 0 where
  pub refresh_token : String
  pub metadata : SessionMetadata

-- `err == nil` of bcrypt.CompareHashAndPassword.
abbrev pub is_nil : Option Error → Bool
is_nil none = true
is_nil (some e) = false

module _ (env : Env) where
  abbrev pub compare_password : String → String → Bool
  compare_password hashed password = is_nil (env.bcrypt_compare hashed password)

  unfoldable pub generate_tokens_for : AuthService → User → Action World TokenPair
  generate_tokens_for s user =
      generate_token_pair env s.token_manager (env.uuid_string user.id) user.email user.username
        user.role

  unfoldable pub login : AuthService → LoginParams → Action World LoginResult
  unfolding generate_tokens_for
  login s params = do
    user ← get_user_by_email env params.email
    raise_if (not user.is_active) account_inactive
    raise_if (not (compare_password user.hashed_password params.password)) invalid_credentials
    tokens ← generate_tokens_for s user
    create_session env s user.id tokens.refresh_token params.metadata
    attempt (update_last_login env user.id)
    pure (record { user = user; tokens = tokens })

  -- `err != nil && !errors.Is(err, common.ErrSessionNotFound)`
  abbrev pub unless_missing : Result (Unit {0}) → Action World (Unit {0})
  unless_missing (ok a) = pure tt
  unless_missing (err e) = raise_if (not (errors_is e is_session_not_found)) e

  unfoldable pub logout : AuthService → String → Action World (Unit {0})
  logout s refresh_token = do
    raise_if (is_empty refresh_token) (message "refresh token required")
    deleted ← attempt (delete_user_session env (hash_token env refresh_token))
    unless_missing deleted

  -- RefreshTokens up to the test that the user is active.
  unfoldable pub refresh_user : AuthService → RefreshTokenParams → Action World User
  refresh_user s params = do
    claims ← validate_refresh_token env s.token_manager params.refresh_token
    get_user_session_by_token env (hash_token env params.refresh_token)
    user_id ← lift (env.uuid_parse claims.user_id)
    user ← get_user_by_id env user_id
    raise_if (not user.is_active) account_inactive
    pure user

  -- The rest of RefreshTokens: the old session goes, a new one is created.
  unfoldable pub reissue : AuthService → RefreshTokenParams → User → Action World TokenPair
  unfolding generate_tokens_for
  reissue s params user = do
    attempt (delete_user_session env (hash_token env params.refresh_token))
    tokens ← generate_tokens_for s user
    create_session env s user.id tokens.refresh_token params.metadata
    pure tokens

  unfoldable pub refresh_tokens : AuthService → RefreshTokenParams → Action World TokenPair
  refresh_tokens s params = do user ← refresh_user s params; reissue s params user

  -- AuthService.ValidateAccessToken.
  unfoldable pub check_access_token : AuthService → String → Action World Claims
  check_access_token s access_token = do
    raise_if (is_empty access_token) (message "access token required")
    validate_access_token env s.token_manager access_token
