-- ===== src/Records.antt =====
-- The rows of the auth tables (internal/domain/auth/repository/repository.go). A UUID is the
-- number that its sixteen bytes spell. A time is the number of nanoseconds since Go's zero time,
-- so the zero time is 0.
use skillsphere_api.Common.{ℕ, String, Bool, Option}

pub record User : Type 0 where
  pub id : ℕ
  pub email : String
  pub username : String
  pub hashed_password : String
  pub display_name : String
  pub avatar_url : Option String
  pub role : String
  pub is_active : Bool
  pub email_verified_at : Option ℕ
  pub created_at : ℕ
  pub updated_at : ℕ
  pub last_login_at : Option ℕ

pub record UserSession : Type 0 where
  pub id : ℕ
  pub user_id : ℕ
  pub hashed_refresh_token : String
  pub user_agent : Option String
  pub client_ip : Option String
  pub expires_at : ℕ
  pub created_at : ℕ

-- The type of a token: the constants of auth_service.go.
pub data TokenType : Type 0 where
  email_verification password_reset : TokenType

pub record UserToken : Type 0 where
  pub token_hash : String
  pub user_id : ℕ
  pub type : TokenType
  pub expires_at : ℕ
  pub created_at : ℕ

pub record OauthIdentity : Type 0 where
  pub provider_name : String
  pub provider_user_id : String
  pub user_id : ℕ
  pub provider_access_token : Option String
  pub provider_refresh_token : Option String
  pub created_at : ℕ
  pub updated_at : ℕ

-- A row of ontology_outbox.
pub record OutboxRow : Type 0 where
  pub id : ℕ
  pub event_type : String
  pub payload : String
  pub created_at : ℕ
  pub delivered_at : Option ℕ
