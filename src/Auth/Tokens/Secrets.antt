-- ===== src/Auth/Tokens/Secrets.antt =====
-- What follows from the one secret that initServices gives to both kinds of token.
use skillsphere_api.Common.{String, ◌≡◌, arith}
use skillsphere_api.Errors.{ok}
use skillsphere_api.World.{World, Env}
use skillsphere_api.Auth.Tokens.{
  TokenManager, init_token_manager, validate_access_token, validate_refresh_token,
}

-- For the token manager that initServices makes, a text is a valid refresh token exactly where it
-- is a valid access token, with the same claims: the 30-day refresh token passes wherever an
-- access token is asked for.
pub init_token_manager-interchange :
    (env : Env) (jwt_secret token : String) (tm : TokenManager) (w : World)
    → init_token_manager jwt_secret ≡ ok tm
    → validate_access_token env tm token w ≡ validate_refresh_token env tm token w
unfolding init_token_manager validate_access_token validate_refresh_token
init_token_manager-interchange env jwt_secret token tm w h = ground arith
