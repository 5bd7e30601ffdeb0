-- ===== src/Interceptors/Chain/Safety.antt =====
-- What the chain of interceptors answers as a whole, and when it panics.
use skillsphere_api.Interceptors.Auth.{must_get_claims_from_context, contains}
use skillsphere_api.Interceptors.Server.{refused, Server, Outcome, UnaryFunc, Interceptor}
use skillsphere_api.Interceptors.Context.{get_claims_from_context, Context, Request}
use skillsphere_api.World.{Claims, Env}
use skillsphere_api.Errors.{internal, message}
use skillsphere_api.Common.{
  ◌<>◌, ◌≡◌, ◌⊎◌, refl, ℕ, String, none, inl, inr, true, false, ◌∷◌, is_empty,
}
use skillsphere_api.Interceptors.Limits.{Limiter, recovery_interceptor, new_request_id_interceptor}
use skillsphere_api.Interceptors.Telemetry.{tracing_interceptor}
use skillsphere_api.Interceptors.Chain.{
  RateLimits, rate_limiter, interceptor_chain, chain, public_procedures,
}
use skillsphere_api.Interceptors.Chain.Outcomes.{
  Answers, NoNilPointer, IsNilPointer, Always, Panics, limit_exceeded, guarded, request_id-Answers,
  request_id-Panics, tracing-Always, limits-Always, recovery-Answers, recovery-IsNilPointer,
}

-- Behind the recovery interceptor, a handler that needs the claims of a context without claims ends
-- in an internal error and runs no further.
pub must_get_claims-recovered :
    (env : Env) (next : Claims → Request → Server → Outcome × Server) (ctx : Context)
    (req : Request) (v : Server)
    → ctx.claims ≡ none
    → (text : String) × ((recovery_interceptor
          (λ c r. must_get_claims_from_context env c (λ claims. next claims r))
          ctx
          req
          v).0
        ≡ refused internal text)
unfolding recovery_interceptor must_get_claims_from_context get_claims_from_context
must_get_claims-recovered env next ctx req v missing = (
  "internal server error: " <> env.error_text (message "user not found in context"),
  rw missing refl,
)

module _ (env : Env) (validate : Interceptor) (new_limiter : ℕ → ℕ → Limiter) where
  -- If no outcome of the handler on a request is a nil pointer as the response, and the validation
  -- interceptor adds neither that nor a panic to what it wraps, then the whole chain returns and
  -- does not panic, and its response is no nil pointer: a panic of the handler becomes an answer.
  pub chain-Answers :
      (limits : RateLimits) (secret : String) (next : UnaryFunc) (req : Request)
      → ((f : UnaryFunc) → Always Answers req f → Always Answers req (validate f))
      → Always NoNilPointer req next
      → Always Answers req (interceptor_chain env validate new_limiter limits secret next)
  unfolding interceptor_chain
  chain-Answers limits secret next req valid h =
      let limited =
        chain
          (rate_limiter env validate new_limiter limits ∷ guarded env validate new_limiter secret)
          next in
      request_id-Answers env req (new_request_id_interceptor "X-Request-ID")
        (tracing_interceptor (validate limited))
        (tracing-Always env req Answers (validate limited) (
          valid limited (
            limits-Always env validate new_limiter Answers req limits
              (guarded env validate new_limiter secret) next tt
              (recovery-Answers env req secret next h))))

  -- Where no UUID is printed as "" and the validation interceptor lets the request through: if every
  -- outcome of the handler on a request without an authorization header to a public procedure is a
  -- nil pointer as the response, as it is of a handler that fails, then the whole chain panics, or
  -- the call was refused because the rate limit was exceeded.
  pub chain-Panics :
      (limits : RateLimits) (secret : String) (next : UnaryFunc) (req : Request)
      → ((n : ℕ) → is_empty (env.uuid_string n) ≡ false)
      → ((f : UnaryFunc) (ctx : Context) (v : Server) → validate f ctx req v ≡ f ctx req v)
      → contains public_procedures req.procedure ≡ true
      → is_empty (req.header "Authorization") ≡ true
      → Always IsNilPointer req next
      → Always
          (λ o. Panics o ⊎ (o ≡ limit_exceeded))
          req
          (interceptor_chain env validate new_limiter limits secret next)
  unfolding interceptor_chain
  chain-Panics limits secret next req named through public absent h =
      let limited =
        chain
          (rate_limiter env validate new_limiter limits ∷ guarded env validate new_limiter secret)
          next in
      let P : Outcome → Type 0 = λ o. IsNilPointer o ⊎ (o ≡ limit_exceeded) in
      request_id-Panics env req (new_request_id_interceptor "X-Request-ID")
        (tracing_interceptor (validate limited)) named
        (tracing-Always env req P (validate limited) (λ ctx v. rw (through limited ctx v) (
          limits-Always env validate new_limiter P req limits
            (guarded env validate new_limiter secret) next (inr refl)
            (λ c u. inl (recovery-IsNilPointer env req secret next public absent h c u)) ctx v)))
