-- ===== src/Interceptors/Chain.antt =====
-- cmd/api/router.go: the chain of interceptors of SetupRouter. The first interceptor of the list
-- is the outermost, and nil is skipped, as connect's chain does.
pub mod Outcomes
pub mod Safety
pub mod Passage
pub mod Authentication
pub mod Invariant
use skillsphere_api.Common.{ℕ, String, ◌&&◌, Option, none, some, List, [], ◌∷◌, ltb, if◌then◌else◌}
use skillsphere_api.World.{Env}
use skillsphere_api.Interceptors.Server.{UnaryFunc, Interceptor}
use skillsphere_api.Interceptors.Auth.{new_auth_interceptor, unary_interceptor}
use skillsphere_api.Interceptors.Limits.{
  Limiter, rate_limit_interceptor, recovery_interceptor, new_request_id_interceptor,
  request_id_interceptor,
}
use skillsphere_api.Interceptors.Telemetry.{
  logging_interceptor, tracing_interceptor, metrics_interceptor,
}

abbrev pub chain : List (Option Interceptor) → UnaryFunc → UnaryFunc
chain [] next = next
chain (none ∷ is) next = chain is next
chain (some i ∷ is) next = i (chain is next)

abbrev pub public_procedures : List String
public_procedures =
    "/skillsphere.auth.v1.AuthService/Register" ∷ "/skillsphere.auth.v1.AuthService/Login"
    ∷ "/skillsphere.auth.v1.AuthService/RequestPasswordReset"
    ∷ "/skillsphere.auth.v1.AuthService/ResetPassword"
    ∷ "/skillsphere.auth.v1.AuthService/RefreshToken"
    ∷ "/skillsphere.auth.v1.AuthService/VerifyEmail"
    ∷ "/skillsphere.auth.v1.AuthService/ResendVerificationEmail"
    ∷ "/skillsphere.auth.v1.AuthService/OAuthLogin" ∷ []

-- The configured limits; a limit that is not positive is 0 here.
pub record RateLimits : Type 0 where
  pub per_second : ℕ
  pub burst : ℕ

module _ (env : Env) (validate : Interceptor) (new_limiter : ℕ → ℕ → Limiter) where
  unfoldable pub rate_limiter : RateLimits → Option Interceptor
  rate_limiter limits =
      if ltb 0 limits.per_second && ltb 0 limits.burst
      then some (rate_limit_interceptor (some (new_limiter limits.per_second limits.burst)))
      else none

  -- `validate` is the interceptor of connectrpc.com/validate.
  unfoldable pub interceptor_chain : RateLimits → String → UnaryFunc → UnaryFunc
  unfolding rate_limiter
  interceptor_chain limits jwt_secret = chain (
      some (request_id_interceptor env (new_request_id_interceptor "X-Request-ID"))
      ∷ some tracing_interceptor
      ∷ some validate
      ∷ rate_limiter limits
      ∷ some recovery_interceptor
      ∷ some logging_interceptor
      ∷ some (unary_interceptor env (new_auth_interceptor jwt_secret public_procedures))
      ∷ some metrics_interceptor
      ∷ [])
