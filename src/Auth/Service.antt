-- ===== src/Auth/Service.antt =====
-- internal/domain/auth/service/auth_service.go: the service's state and the helpers that its
-- methods share. The methods are in Auth/Registration, Auth/Sessions and Auth/Passwords.
pub mod Rows
use skillsphere_api.Common.{
  ℕ, String, Bool, true, false, Option, none, some, ◌+◌, ◌*◌, ◌==◌, is_empty, if◌then◌else◌,
}
use skillsphere_api.Action.{Action, pure, attempt, ◌>>=◌, ◌>>◌}
use skillsphere_api.Records.{User, email_verification}
use skillsphere_api.World.{World, Env, Mail, verification_mail, draw, start_mail}
use skillsphere_api.Ontology.Event.{Event}
use skillsphere_api.Ontology.Emitter.{Emitter, nop_emitter, emit}
use skillsphere_api.Auth.Tokens.{TokenManager, generate_verification_token}
use skillsphere_api.Auth.Repository.{create_user_session, create_user_token}

abbrev pub second : ℕ
second = 1000000000

abbrev pub hour : ℕ
hour = 3600 * second

abbrev pub default_session_ttl : ℕ
default_session_ttl = 30 * (24 * hour)

pub record SessionMetadata : Type 0 where
  pub user_agent : String
  pub client_ip : String

-- `AuthService`, but for its repository, which is the database of the state, and its logger.
-- Of the email service only its presence matters here: its mails are sent by goroutines
-- (Auth/Email).
pub record AuthService : Type 0 where
  pub token_manager : TokenManager
  pub has_email_service : Bool
  pub session_ttl : ℕ
  pub ontology : Option Emitter

abbrev pub or_nop : Option Emitter → Emitter
or_nop none = nop_emitter
or_nop (some e) = e

-- A duration that is not positive is 0 here.
unfoldable pub new_auth_service : TokenManager → Bool → Option Emitter → ℕ → AuthService
new_auth_service tm has_email_service emitter session_ttl = record {
  token_manager = tm;
  has_email_service = has_email_service;
  session_ttl = if session_ttl == 0 then default_session_ttl else session_ttl;
  ontology = some (or_nop emitter);
}

abbrev pub or_unknown : String → String
or_unknown s = if is_empty s then "unknown" else s

-- `if s.emailService != nil { go … }`
abbrev pub mail_if : Bool → Mail → Action World (Unit {0})
mail_if true m = start_mail m
mail_if false m = pure tt

module _ (env : Env) where
  abbrev pub hash_token : String → String
  hash_token token = env.sha256_hex token

  unfoldable pub create_session :
      AuthService → ℕ → String → SessionMetadata → Action World (Unit {0})
  create_session s user_id refresh_token meta = do
    now ← draw env.now
    create_user_session env user_id (hash_token refresh_token) (or_unknown meta.user_agent)
        (or_unknown meta.client_ip) (now + s.session_ttl)
    pure tt

  unfoldable pub send_email_verification : AuthService → User → Action World (Unit {0})
  send_email_verification s user = do
    token ← generate_verification_token env
    now ← draw env.now
    create_user_token env user.id (hash_token token) email_verification (now + 24 * hour)
    mail_if s.has_email_service (verification_mail user.email user.display_name token)

  -- An error of the emitter is logged and dropped.
  unfoldable pub emit_ontology_event : AuthService → Event → Action World (Unit {0})
  emit_ontology_event s event = elim s.ontology [
    | none ↦ pure tt
    | some emitter ↦ attempt (emit env emitter event) >> pure tt
  ]
