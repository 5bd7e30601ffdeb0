-- ===== src/Auth/Passwords.antt =====
-- internal/domain/auth/service/auth_service.go: RequestPasswordReset, ResetPassword and
-- ChangePassword.
pub mod Others
pub mod Reset
pub mod Revocation
pub mod Change
pub mod Journey
use skillsphere_api.Common.{String, not, ◌+◌, is_empty, if◌then◌else◌}
use skillsphere_api.Errors.{
  Result, ok, err, message, invalid_credentials, is_user_not_found, errors_is,
}
use skillsphere_api.Action.{Action, pure, raise, lift, attempt, raise_if, ◌>>=◌, ◌>>◌}
use skillsphere_api.Records.{User, password_reset}
use skillsphere_api.Password.{validate_password}
use skillsphere_api.World.{World, Env, password_reset_mail, draw}
use skillsphere_api.Auth.Tokens.{generate_password_reset_token}
use skillsphere_api.Auth.Repository.{
  get_user_by_email, get_user_by_id, create_user_token, get_user_token_by_hash, delete_user_token,
  update_password, delete_all_user_sessions,
}
use skillsphere_api.Auth.Service.{AuthService, hour, hash_token, mail_if}
use skillsphere_api.Auth.Sessions.{compare_password}
use skillsphere_api.Auth.Registration.{hash_password}

module _ (env : Env) where
  -- The branches of RequestPasswordReset after the lookup by email.
  unfoldable pub reset_for : AuthService → Result User → Action World (Unit {0})
  reset_for s (err e) = if errors_is e is_user_not_found then pure tt else raise e
  reset_for s (ok user) = do
    token ← generate_password_reset_token env
    now ← draw env.now
    create_user_token env user.id (hash_token env token) password_reset (now + hour)
    mail_if s.has_email_service (password_reset_mail user.email user.display_name token)

  unfoldable pub request_password_reset : AuthService → String → Action World (Unit {0})
  unfolding reset_for
  request_password_reset s email = do
    raise_if (is_empty email) (message "email required")
    found ← attempt (get_user_by_email env email)
    reset_for s found

  unfoldable pub reset_password : AuthService → String → String → Action World (Unit {0})
  reset_password s reset_token new_password = do
    lift (validate_password env.classes new_password)
    token ← get_user_token_by_hash env (hash_token env reset_token) password_reset
    hashed ← hash_password env new_password
    update_password env token.user_id hashed
    attempt (delete_user_token env (hash_token env reset_token))
    attempt (delete_all_user_sessions env token.user_id)
    pure tt

  unfoldable pub change_password : AuthService → String → String → String → Action World (Unit {0})
  change_password s user_id current_password new_password = do
    raise_if (is_empty user_id) (message "user id required")
    id ← lift (env.uuid_parse user_id)
    user ← get_user_by_id env id
    raise_if (not (compare_password env user.hashed_password current_password)) invalid_credentials
    lift (validate_password env.classes new_password)
    hashed ← hash_password env new_password
    update_password env id hashed
    attempt (delete_all_user_sessions env id)
    pure tt
