-- ===== src/Auth/Handler.antt =====
-- internal/domain/auth/handler/auth_handler.go: the Connect handlers of the auth service.
pub mod Responses
use skillsphere_api.Common.{
  ℕ, String, Bool, true, false, not, ◌||◌, Option, none, some, is_empty, if◌then◌else◌,
}
use skillsphere_api.Errors.{
  Error, Result, ok, err, message, connect_error, Code, invalid_argument, unauthenticated,
  permission_denied, not_found, already_exists, unimplemented, internal, errors_is,
  is_user_already_exists, is_invalid_credentials, is_invalid_token, is_session_not_found,
  is_user_not_found, is_account_inactive, is_password_policy,
}
use skillsphere_api.Action.{Action, pure, raise, attempt, raise_if, ◌>>=◌, ◌>>◌}
use skillsphere_api.World.{World, Env, Claims}
use skillsphere_api.Interceptors.Context.{Context, Request, get_claims_from_context}
use skillsphere_api.Auth.Service.{AuthService, SessionMetadata}
use skillsphere_api.Auth.Sessions.{login, logout, refresh_tokens, check_access_token}
use skillsphere_api.Auth.Registration.{
  register_user, confirm_email, resend_verification_email, ResendVerificationResult,
}
use skillsphere_api.Auth.Passwords.{request_password_reset, reset_password, change_password}
use skillsphere_api.Auth.Presenter.{
  RegisterResponse, LoginResponse, RefreshTokenResponse, register_response, login_response,
  refresh_token_response, timestamp,
}

pub record RegisterRequest : Type 0 where
  pub email : String
  pub username : String
  pub password : String
  pub display_name : String

pub record ValidateTokenResponse : Type 0 where
  pub is_valid : Bool
  pub user_id : String
  pub expires_at : Option ℕ

pub record StatusResponse : Type 0 where
  pub success : Bool
  pub text : String

pub record ChangePasswordRequest : Type 0 where
  pub user_id : String
  pub current_password : String
  pub new_password : String

pub record VerifyEmailResponse : Type 0 where
  pub success : Bool
  pub user_id : String

unfoldable pub metadata_from_request : Request → SessionMetadata
metadata_from_request req = record { user_agent = req.header "User-Agent"; client_ip = req.peer }

-- The code that toConnectError chooses: the first case that holds.
unfoldable pub connect_code : Error → Code
connect_code e =
    if errors_is e is_user_already_exists
    then already_exists
    else if errors_is e is_invalid_credentials
    then unauthenticated
    else if errors_is e is_invalid_token || errors_is e is_session_not_found
    then unauthenticated
    else if errors_is e is_user_not_found
    then not_found
    else if errors_is e is_account_inactive
    then permission_denied
    else if errors_is e is_password_policy
    then invalid_argument
    else internal

unfoldable pub to_connect_error : Error → Error
unfolding connect_code
to_connect_error e = connect_error (connect_code e) e

-- `if err != nil { return nil, h.toConnectError(err) }` after a call of the service.
abbrev pub map_error {ℓ} : {A : Type ℓ} → Result A → Result A
map_error (ok a) = ok a
map_error (err e) = err (to_connect_error e)

abbrev pub call : {A : Type 0} → Action World A → Action World A
call m w = let (r, w') = m w in (map_error r, w')

abbrev pub refuse : Code → String → Error
refuse code text = connect_error code (message text)

module _ (env : Env) (s : AuthService) where
  unfoldable pub handle_register : Request → RegisterRequest → Action World RegisterResponse
  unfolding register_response metadata_from_request
  handle_register req msg = do
    raise_if (is_empty msg.email || (is_empty msg.password || is_empty msg.username))
        (refuse invalid_argument "email, username, and password are required")
    result ← call (
        register_user env s (record {
          email = msg.email;
          username = msg.username;
          password = msg.password;
          display_name = msg.display_name;
          metadata = metadata_from_request req;
        }))
    pure (register_response env (some result))

  unfoldable pub handle_login : Request → String → String → Action World LoginResponse
  unfolding login_response metadata_from_request
  handle_login req email password = do
    raise_if (is_empty email || is_empty password)
        (refuse invalid_argument "email and password are required")
    result ← call (
        login env s
          (record { email = email; password = password; metadata = metadata_from_request req }))
    pure (login_response env (some result))

  unfoldable pub handle_logout : String → Action World Bool
  handle_logout refresh_token = do
    raise_if (is_empty refresh_token) (refuse invalid_argument "refresh token is required")
    call (logout env s refresh_token)
    pure true

  unfoldable pub handle_refresh_token : Request → String → Action World RefreshTokenResponse
  unfolding refresh_token_response metadata_from_request
  handle_refresh_token req refresh_token = do
    raise_if (is_empty refresh_token) (refuse invalid_argument "refresh token is required")
    tokens ← call (
        refresh_tokens env s
          (record { refresh_token = refresh_token; metadata = metadata_from_request req }))
    pure (refresh_token_response (some tokens))

  -- A token that is refused is an answer, and no error.
  abbrev pub validity : Result Claims → ValidateTokenResponse
  validity (err e) = record { is_valid = false; user_id = ""; expires_at = none }
  validity (ok claims) = record {
    is_valid = true;
    user_id = claims.user_id;
    expires_at = elim claims.expires_at [ none ↦ none | some t ↦ timestamp t ];
  }

  unfoldable pub handle_validate_token : String → Action World ValidateTokenResponse
  handle_validate_token access_token = do
    raise_if (is_empty access_token) (refuse invalid_argument "access token is required")
    checked ← attempt (check_access_token env s access_token)
    pure (validity checked)

  unfoldable pub handle_oauth_login : Action World (Unit {0})
  handle_oauth_login =
      raise (refuse unimplemented "oauth login must be completed using the HTTP redirect endpoints")

  unfoldable pub handle_request_password_reset : String → Action World StatusResponse
  handle_request_password_reset email = do
    raise_if (is_empty email) (refuse invalid_argument "email is required")
    call (request_password_reset env s email)
    pure (record {
      success = true;
      text = "If an account exists for this email, a reset link has been sent";
    })

  unfoldable pub handle_reset_password : String → String → Action World StatusResponse
  handle_reset_password reset_token new_password = do
    raise_if (is_empty reset_token || is_empty new_password)
        (refuse invalid_argument "reset token and new password are required")
    call (reset_password env s reset_token new_password)
    pure (record { success = true; text = "Password reset successfully" })

  -- The user of the claims, if the context has some, and of the request otherwise.
  abbrev pub acting_user : Result Claims → String → String
  acting_user (err e) user_id = user_id
  acting_user (ok claims) user_id =
      if not (is_empty claims.user_id) then claims.user_id else user_id

  unfoldable pub handle_change_password : Context → ChangePasswordRequest → Action World Bool
  unfolding get_claims_from_context
  handle_change_password ctx msg = do
    raise_if (is_empty msg.current_password || is_empty msg.new_password)
        (refuse invalid_argument "current password and new password are required")
    raise_if (is_empty (acting_user (get_claims_from_context ctx) msg.user_id))
        (refuse unauthenticated "authentication required")
    call (
        change_password env s (acting_user (get_claims_from_context ctx) msg.user_id)
          msg.current_password msg.new_password)
    pure true

  unfoldable pub handle_verify_email : String → Action World VerifyEmailResponse
  handle_verify_email verification_token = do
    raise_if (is_empty verification_token)
        (refuse invalid_argument "verification token is required")
    user_id ← call (confirm_email env s verification_token)
    pure (record { success = true; user_id = env.uuid_string user_id })

  abbrev pub resend_text : ResendVerificationResult → String
  resend_text result =
      if result.already_verified
      then "Email address is already verified"
      else "Verification email sent"

  unfoldable pub handle_resend_verification_email : String → Action World StatusResponse
  handle_resend_verification_email email = do
    raise_if (is_empty email) (refuse invalid_argument "email is required")
    result ← call (resend_verification_email env s email)
    pure (record { success = true; text = resend_text result })
