-- ===== src/Auth/Registration.antt =====
-- internal/domain/auth/service/auth_service.go: RegisterUser, VerifyEmail and
-- ResendVerificationEmail.
pub mod Announcement
pub mod Mails
pub mod Journey
pub mod Accounts
pub mod Verification
use skillsphere_api.Common.{
  ℕ, String, Bool, true, false, not, some, is_empty, is_some, if◌then◌else◌,
}
use skillsphere_api.Errors.{
  Result, ok, err, message, user_already_exists, is_user_not_found, errors_is,
}
use skillsphere_api.Action.{Action, pure, raise, lift, attempt, raise_if, ◌>>=◌, ◌>>◌}
use skillsphere_api.Records.{User, email_verification}
use skillsphere_api.Password.{validate_password}
use skillsphere_api.World.{World, Env, welcome_mail, draw_result}
use skillsphere_api.Ontology.AuthEvents.{new_user_registered_event}
use skillsphere_api.Auth.Tokens.{TokenPair}
use skillsphere_api.Auth.Repository.{
  create_user, get_user_by_email, get_user_by_id, get_user_token_by_hash, delete_user_token,
  verify_email,
}
use skillsphere_api.Auth.Service.{
  AuthService, SessionMetadata, hash_token, create_session, send_email_verification,
  emit_ontology_event, mail_if,
}
use skillsphere_api.Auth.Sessions.{generate_tokens_for}

pub record RegisterParams : Type 0 where
  pub email : String
  pub username : String
  pub password : String
  pub display_name : String
  pub metadata : SessionMetadata

pub record RegisterResult : Type 0 where
  pub user : User
  pub tokens : TokenPair
  pub email_verification_required : Bool

pub record ResendVerificationResult : Type 0 where
  pub already_verified : Bool

abbrev pub bcrypt_cost : ℕ
bcrypt_cost = 12

-- What RegisterUser makes of the lookup by email: a user or another error ends it.
abbrev pub require_absent : Result User → Action World (Unit {0})
require_absent (ok user) = raise user_already_exists
require_absent (err e) = raise_if (not (errors_is e is_user_not_found)) e

module _ (env : Env) where
  abbrev pub hash_password : String → Action World String
  hash_password password = draw_result (λ n. env.bcrypt_generate n password bcrypt_cost)

  -- RegisterUser up to the hash of the password.
  unfoldable pub admit : RegisterParams → Action World String
  admit params = do
    lift (validate_password env.classes params.password)
    found ← attempt (get_user_by_email env params.email)
    require_absent found
    hash_password params.password

  -- RegisterUser from there to the event: the account, its session and its verification token.
  unfoldable pub enroll : AuthService → RegisterParams → String → Action World RegisterResult
  enroll s params hashed = do
    user ← create_user env params.email params.username hashed params.display_name
    tokens ← generate_tokens_for env s user
    create_session env s user.id tokens.refresh_token params.metadata
    send_email_verification env s user
    pure (record { user = user; tokens = tokens; email_verification_required = true })

  unfoldable pub register_user : AuthService → RegisterParams → Action World RegisterResult
  register_user s params = do
    hashed ← admit params
    result ← enroll s params hashed
    emit_ontology_event env s (new_user_registered_event env (some result.user))
    pure result

  -- The welcome mail, for a user that is found.
  unfoldable pub welcome : AuthService → ℕ → Action World (Unit {0})
  welcome s user_id = do
    found ← attempt (get_user_by_id env user_id)
    elim found [
      | ok user ↦ mail_if true (welcome_mail user.email user.display_name)
      | err e ↦ pure tt
    ]

  -- AuthService.VerifyEmail.
  unfoldable pub confirm_email : AuthService → String → Action World ℕ
  confirm_email s verification_token = do
    raise_if (is_empty verification_token) (message "verification token required")
    token ← get_user_token_by_hash env (hash_token env verification_token) email_verification
    verify_email env token.user_id
    attempt (delete_user_token env (hash_token env verification_token))
    if s.has_email_service then welcome s token.user_id else pure tt
    pure token.user_id

  -- The branches of ResendVerificationEmail after the lookup by email.
  unfoldable pub resend_to : AuthService → Result User → Action World ResendVerificationResult
  resend_to s (err e) =
      if errors_is e is_user_not_found then pure (record { already_verified = false }) else raise e
  resend_to s (ok user) =
      if is_some user.email_verified_at
      then pure (record { already_verified = true })
      else (do send_email_verification env s user; pure (record { already_verified = false }))

  unfoldable pub resend_verification_email :
      AuthService → String → Action World ResendVerificationResult
  unfolding resend_to
  resend_verification_email s email = do
    raise_if (is_empty email) (message "email required")
    found ← attempt (get_user_by_email env email)
    resend_to s found
