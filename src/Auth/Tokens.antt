-- ===== src/Auth/Tokens.antt =====
-- internal/domain/auth/service/token_manager.go. golang-jwt, the clock and crypto/rand are of
-- the environment.
pub mod Secrets
pub mod Window
use skillsphere_api.Common.{ℕ, String, Bool, some, ◌+◌, ◌*◌, is_empty, if◌then◌else◌}
use skillsphere_api.Errors.{Result, ok, err, message}
use skillsphere_api.Action.{Action, pure, lift, ◌>>=◌}
use skillsphere_api.World.{World, Env, Claims, SigningMethod, hmac, other_method, draw, draw_result}

-- `jwtTokenManager`; the durations are in nanoseconds.
pub record TokenManager : Type 0 where
  pub access_secret : String
  pub refresh_secret : String
  pub access_ttl : ℕ
  pub refresh_ttl : ℕ

pub record TokenPair : Type 0 where
  pub access_token : String
  pub refresh_token : String
  pub expires_at : ℕ
  pub token_type : String

unfoldable pub new_token_manager : String → String → ℕ → ℕ → TokenManager
new_token_manager access_secret refresh_secret access_ttl refresh_ttl = record {
  access_secret = access_secret;
  refresh_secret = refresh_secret;
  access_ttl = access_ttl;
  refresh_ttl = refresh_ttl;
}

-- The part of initServices (cmd/api/dependencies.go) that makes the manager: one secret for both
-- kinds of token, 15 minutes and 30 days.
unfoldable pub init_token_manager : String → Result TokenManager
unfolding new_token_manager
init_token_manager jwt_secret =
    if is_empty jwt_secret
    then err (message "jwt secret is required")
    else ok (
        new_token_manager jwt_secret jwt_secret (15 * 60 * 1000000000)
          (30 * 24 * 3600 * 1000000000))

-- The key function that ParseWithClaims calls: the secret, for an HMAC method only.
abbrev pub key_func : String → SigningMethod → Result String
key_func secret hmac = ok secret
key_func secret other_method = err (message "unexpected signing method")

-- `token.Valid`, after ParseWithClaims returned no error.
abbrev pub require_valid : Claims × Bool → Result Claims
require_valid (claims, valid) = if valid then ok claims else err (message "invalid token")

module _ (env : Env) where
  abbrev pub make_claims : String → String → String → String → ℕ → ℕ → ℕ → Claims
  make_claims user_id email username role now expires_at token_id = record {
    user_id = user_id;
    email = email;
    username = username;
    role = role;
    expires_at = some (env.numeric_date expires_at);
    issued_at = some (env.numeric_date now);
    not_before = some (env.numeric_date now);
    token_id = env.uuid_string token_id;
  }

  unfoldable pub generate_token_pair :
      TokenManager → String → String → String → String → Action World TokenPair
  generate_token_pair tm user_id email username role = do
    now ← draw env.now
    access_id ← draw env.new_uuid
    access ← lift (
        env.signed_string hmac
          (make_claims user_id email username role now (now + tm.access_ttl) access_id)
          tm.access_secret)
    refresh_id ← draw env.new_uuid
    refresh ← lift (
        env.signed_string hmac
          (make_claims user_id email username role now (now + tm.refresh_ttl) refresh_id)
          tm.refresh_secret)
    pure (record {
      access_token = access;
      refresh_token = refresh;
      expires_at = now + tm.access_ttl;
      token_type = "Bearer";
    })

  unfoldable pub validate_token : String → String → Action World Claims
  validate_token token secret = do
    now ← draw env.now
    parsed ← lift (env.parse_with_claims now token (key_func secret))
    lift (require_valid parsed)

  unfoldable pub validate_access_token : TokenManager → String → Action World Claims
  unfolding validate_token
  validate_access_token tm token = validate_token token tm.access_secret

  unfoldable pub validate_refresh_token : TokenManager → String → Action World Claims
  unfolding validate_token
  validate_refresh_token tm token = validate_token token tm.refresh_secret

  unfoldable pub generate_verification_token : Action World String
  generate_verification_token = draw_result env.random_hex

  unfoldable pub generate_password_reset_token : Action World String
  generate_password_reset_token = draw_result env.random_hex
