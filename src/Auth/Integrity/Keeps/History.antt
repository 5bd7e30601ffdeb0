-- ===== src/Auth/Integrity/Keeps/History.antt =====
-- The tables over any history of calls: the handlers of internal/domain/auth/handler and the
-- batches of the outbox worker, each at the state that the call before it left.
use skillsphere_api.Auth.Tokens.{validate_access_token}
use skillsphere_api.Auth.Sessions.{check_access_token}
use skillsphere_api.Auth.Presenter.{register_response, login_response, refresh_token_response}
use skillsphere_api.Auth.Integrity.Keeps.Batch.{process_batch-Keeps}
use skillsphere_api.Auth.Integrity.Keeps.Passwords.{
  request_password_reset-Keeps, reset_password-Keeps, change_password-Keeps,
  resend_verification_email-Keeps,
}
use skillsphere_api.Auth.Integrity.Keeps.Calls.{
  register_user-Keeps, refresh_tokens-Keeps, confirm_email-Keeps, validate_token-Keeps,
}
use skillsphere_api.Auth.Integrity.Keeps.Calls
use skillsphere_api.Common.{String, is_empty, ◌||◌, true, some}
use skillsphere_api.Errors.{message, invalid_argument, unauthenticated}
use skillsphere_api.Action.{Action}
use skillsphere_api.World.{World, Env}
use skillsphere_api.Interceptors.Context.{Context, Request, get_claims_from_context}
use skillsphere_api.Ontology.Processor.{OutboxProcessor, process_batch}
use skillsphere_api.Auth.Service.{AuthService}
use skillsphere_api.Auth.Handler.{
  RegisterRequest, ChangePasswordRequest, call, refuse, acting_user, validity, resend_text,
  handle_register, handle_login, handle_logout, handle_refresh_token, handle_validate_token,
  handle_request_password_reset, handle_reset_password, handle_change_password, handle_verify_email,
  handle_resend_verification_email,
}
use skillsphere_api.Auth.Integrity.{IsValid}
use skillsphere_api.Auth.Integrity.Keeps.{
  Keeps, >>=-Keeps, pure-Keeps, raise_if-Keeps, attempt-Keeps,
}

-- One call, and the state that it leaves.
pub data Step (env : Env) (s : AuthService) : World → World → Type 0 where
  registers :
      (req : Request) (m : RegisterRequest) (w : World)
      → Step env s w (handle_register env s req m w).1
  logs_in :
      (req : Request) (email password : String) (w : World)
      → Step env s w (handle_login env s req email password w).1
  logs_out : (token : String) (w : World) → Step env s w (handle_logout env s token w).1
  refreshes :
      (req : Request) (token : String) (w : World)
      → Step env s w (handle_refresh_token env s req token w).1
  validates : (token : String) (w : World) → Step env s w (handle_validate_token env s token w).1
  asks_reset :
      (email : String) (w : World) → Step env s w (handle_request_password_reset env s email w).1
  resets :
      (token password : String) (w : World)
      → Step env s w (handle_reset_password env s token password w).1
  changes :
      (ctx : Context) (m : ChangePasswordRequest) (w : World)
      → Step env s w (handle_change_password env s ctx m w).1
  verifies : (token : String) (w : World) → Step env s w (handle_verify_email env s token w).1
  resends :
      (email : String) (w : World) → Step env s w (handle_resend_verification_email env s email w).1
  delivers : (p : OutboxProcessor) (w : World) → Step env s w (process_batch env p w).1

-- Any number of calls in a row.
pub data Reach (env : Env) (s : AuthService) (w : World) : World → Type 0 where
  here : Reach env s w w
  next : {a b : World} → Reach env s w a → Step env s a b → Reach env s w b

call-Keeps : {A : Type 0} (m : Action World A) → Keeps m → Keeps (call m)
call-Keeps m k = record { keeps = k.keeps }

module _ (env : Env) (s : AuthService) where
  register-Keeps : (req : Request) (m : RegisterRequest) → Keeps (handle_register env s req m)
  unfolding handle_register
  register-Keeps req m =
      >>=-Keeps
        (raise_if-Keeps (is_empty m.email || (is_empty m.password || is_empty m.username))
          (refuse invalid_argument "email, username, and password are required"))
        (λ _.
          >>=-Keeps (call-Keeps _ (register_user-Keeps env s _))
            (λ r. pure-Keeps (register_response env (some r))))

  login-Keeps :
      (req : Request) (email password : String) → Keeps (handle_login env s req email password)
  unfolding handle_login
  login-Keeps req email password =
      >>=-Keeps
        (raise_if-Keeps (is_empty email || is_empty password)
          (refuse invalid_argument "email and password are required"))
        (λ _.
          >>=-Keeps (call-Keeps _ (Calls.login-Keeps env s _))
            (λ r. pure-Keeps (login_response env (some r))))

  logout-Keeps : (token : String) → Keeps (handle_logout env s token)
  unfolding handle_logout
  logout-Keeps token =
      >>=-Keeps
        (raise_if-Keeps (is_empty token) (refuse invalid_argument "refresh token is required"))
        (λ _. >>=-Keeps (call-Keeps _ (Calls.logout-Keeps env s token)) (λ _. pure-Keeps true))

  refresh-Keeps : (req : Request) (token : String) → Keeps (handle_refresh_token env s req token)
  unfolding handle_refresh_token
  refresh-Keeps req token =
      >>=-Keeps
        (raise_if-Keeps (is_empty token) (refuse invalid_argument "refresh token is required"))
        (λ _.
          >>=-Keeps (call-Keeps _ (refresh_tokens-Keeps env s _))
            (λ t. pure-Keeps (refresh_token_response (some t))))

  validate-Keeps : (token : String) → Keeps (handle_validate_token env s token)
  unfolding handle_validate_token check_access_token validate_access_token
  validate-Keeps token =
      >>=-Keeps
        (raise_if-Keeps (is_empty token) (refuse invalid_argument "access token is required"))
        (λ _.
          >>=-Keeps
            (attempt-Keeps (
              >>=-Keeps (raise_if-Keeps (is_empty token) (message "access token required"))
                (λ _. validate_token-Keeps env token s.token_manager.access_secret)))
            (λ r. pure-Keeps (validity env s r)))

  ask_reset-Keeps : (email : String) → Keeps (handle_request_password_reset env s email)
  unfolding handle_request_password_reset
  ask_reset-Keeps email =
      >>=-Keeps (raise_if-Keeps (is_empty email) (refuse invalid_argument "email is required"))
        (λ _. >>=-Keeps (call-Keeps _ (request_password_reset-Keeps env s email)) (λ _.
          pure-Keeps (record {
            success = true;
            text = "If an account exists for this email, a reset link has been sent";
          })))

  reset-Keeps : (token password : String) → Keeps (handle_reset_password env s token password)
  unfolding handle_reset_password
  reset-Keeps token password =
      >>=-Keeps
        (raise_if-Keeps (is_empty token || is_empty password)
          (refuse invalid_argument "reset token and new password are required"))
        (λ _.
          >>=-Keeps (call-Keeps _ (reset_password-Keeps env s token password))
            (λ _. pure-Keeps (record { success = true; text = "Password reset successfully" })))

  change-Keeps :
      (ctx : Context) (m : ChangePasswordRequest) → Keeps (handle_change_password env s ctx m)
  unfolding handle_change_password
  change-Keeps ctx m =
      >>=-Keeps
        (raise_if-Keeps (is_empty m.current_password || is_empty m.new_password)
          (refuse invalid_argument "current password and new password are required"))
        (λ _.
          >>=-Keeps
            (raise_if-Keeps (is_empty user) (refuse unauthenticated "authentication required"))
            (λ _.
              >>=-Keeps
                (call-Keeps _ (change_password-Keeps env s user m.current_password m.new_password))
                (λ _. pure-Keeps true)))
    where
      user : String
      user = acting_user env s (get_claims_from_context ctx) m.user_id

  verify-Keeps : (token : String) → Keeps (handle_verify_email env s token)
  unfolding handle_verify_email
  verify-Keeps token =
      >>=-Keeps
        (raise_if-Keeps (is_empty token) (refuse invalid_argument "verification token is required"))
        (λ _.
          >>=-Keeps (call-Keeps _ (confirm_email-Keeps env s token))
            (λ id. pure-Keeps (record { success = true; user_id = env.uuid_string id })))

  resend-Keeps : (email : String) → Keeps (handle_resend_verification_email env s email)
  unfolding handle_resend_verification_email
  resend-Keeps email =
      >>=-Keeps (raise_if-Keeps (is_empty email) (refuse invalid_argument "email is required"))
        (λ _.
          >>=-Keeps (call-Keeps _ (resend_verification_email-Keeps env s email))
            (λ r. pure-Keeps (record { success = true; text = resend_text env s r })))

  pub step-IsValid : {a b : World} → Step env s a b → IsValid a.db → IsValid b.db
  step-IsValid (registers req m w) v = (register-Keeps req m).keeps w v
  step-IsValid (logs_in req email password w) v = (login-Keeps req email password).keeps w v
  step-IsValid (logs_out token w) v = (logout-Keeps token).keeps w v
  step-IsValid (refreshes req token w) v = (refresh-Keeps req token).keeps w v
  step-IsValid (validates token w) v = (validate-Keeps token).keeps w v
  step-IsValid (asks_reset email w) v = (ask_reset-Keeps email).keeps w v
  step-IsValid (resets token password w) v = (reset-Keeps token password).keeps w v
  step-IsValid (changes ctx m w) v = (change-Keeps ctx m).keeps w v
  step-IsValid (verifies token w) v = (verify-Keeps token).keeps w v
  step-IsValid (resends email w) v = (resend-Keeps email).keeps w v
  step-IsValid (delivers p w) v = (process_batch-Keeps env p).keeps w v

  -- After any sequence of calls of the handlers and of batches of the outbox worker, successful or
  -- not and whatever fails in between, valid tables are still valid: identifiers, emails,
  -- usernames and the hashes of sessions and tokens are unique, and each session, token and
  -- identity belongs to a stored user.
  pub reach-IsValid : {a b : World} → Reach env s a b → IsValid a.db → IsValid b.db
  reach-IsValid here v = v
  reach-IsValid (next r st) v = step-IsValid st (reach-IsValid r v)
