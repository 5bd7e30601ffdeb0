-- ===== src/Interceptors/Chain/Invariant.antt =====
-- What a handler keeps true of the tables, the chain of interceptors round it keeps true.
use skillsphere_api.Common.{
  true, false, ℕ, String, sym, subst, inl, inr, Bool, Option, none, some, List, [], ◌∷◌, is_empty,
  Bool-cases,
}
use skillsphere_api.Errors.{Result, ok, err}
use skillsphere_api.World.{Db, Env, Claims}
use skillsphere_api.Interceptors.Context.{Context, Request}
use skillsphere_api.Interceptors.Server.{Server, UnaryFunc, Interceptor, step}
use skillsphere_api.Interceptors.Limits.{
  Limiter, recovery_interceptor, new_request_id_interceptor, request_id_interceptor,
}
use skillsphere_api.Interceptors.Telemetry.{
  tracing_interceptor, logging_interceptor, metrics_interceptor,
}
use skillsphere_api.Interceptors.Auth.{
  AuthInterceptor, contains, accept_token, check_header, is_expired, is_bearer, parse_token,
  split_space, with_claims, new_auth_interceptor, unary_interceptor,
}
use skillsphere_api.Interceptors.Chain.{
  RateLimits, rate_limiter, interceptor_chain, chain, public_procedures,
}
use skillsphere_api.Interceptors.Chain.Passage.{
  tables, Passes, tracing-Passes, recovery-Passes, logging-Passes, metrics-Passes,
  request_id-Passes,
}
use skillsphere_api.Interceptors.Chain.Authentication.{AllPass, limits-AllPass}

module _ (P : Db → Type 0) where
  -- A call keeps the property.
  abbrev pub Preserves : UnaryFunc → Type 0
  Preserves f =
      (ctx : Context) (req : Request) (v : Server) → P (tables v) → P (tables (f ctx req v).1)

  pub Passes-Preserves :
      (i : Interceptor) (f : UnaryFunc) → Passes i → Preserves f → Preserves (i f)
  Passes-Preserves i f p k ctx req v holds = elim (p f ctx req v) [
    | inl same ↦ subst P (sym same) holds
    | inr a ↦ subst P (sym a.ends) (k a.context req a.state (subst P (sym a.starts) holds))
  ]

  module _ (env : Env) (a : AuthInterceptor) (f : UnaryFunc) (k : Preserves f) where
    accept-Preserves : (r : Result (Claims × Bool)) → Preserves (accept_token env a r f)
    unfolding accept_token
    accept-Preserves (err e) ctx req v holds = holds
    accept-Preserves (ok (c, false)) ctx req v holds = holds
    accept-Preserves (ok (c, true)) ctx req v holds =
        elim (Bool-cases (is_expired c.expires_at (env.now v.app.draws))) [
          | inl late ↦ rw late holds
          | inr live ↦ rw live (k (with_claims c ctx) req (step v) holds)
        ]

    header-Preserves : (o : Option (String × String)) → Preserves (check_header env a o f)
    unfolding check_header
    header-Preserves none ctx req v holds = holds
    header-Preserves (some (scheme, token)) ctx req v holds = elim (Bool-cases (is_bearer scheme)) [
      | inl bearer ↦ rw bearer (accept-Preserves (parse_token env a token v) ctx req (step v) holds)
      | inr other ↦ rw other holds
    ]

    unary-Preserves : Preserves (unary_interceptor env a f)
    unfolding unary_interceptor
    unary-Preserves ctx req v holds = elim (Bool-cases req.is_client) [
      | inl client ↦ simp client (k ctx req v holds)
      | inr incoming ↦ elim (Bool-cases (is_empty (req.header "Authorization"))) [
        | inr present ↦
            simp (incoming, present)
              (header-Preserves (split_space (req.header "Authorization")) ctx req v holds)
        | inl absent ↦ elim (Bool-cases (contains a.optional_procedures req.procedure)) [
          | inl public ↦ simp (incoming, absent, public) (k ctx req v holds)
          | inr private ↦ simp (incoming, absent, private) holds
        ]
      ]
    ]

  module _ (env : Env) (validate : Interceptor) (new_limiter : ℕ → ℕ → Limiter) where
    maybe-Preserves :
        (o : Option Interceptor) (is : List (Option Interceptor)) (next : UnaryFunc)
        → AllPass o
        → Preserves (chain is next)
        → Preserves (chain (o ∷ is) next)
    maybe-Preserves none is next p k = k
    maybe-Preserves (some i) is next p k = Passes-Preserves i (chain is next) p k

    -- Where the validation interceptor lets a call through or changes no table, the chain keeps
    -- whatever property of the tables the handler keeps.
    pub chain-Preserves :
        (limits : RateLimits) (secret : String) (next : UnaryFunc)
        → Passes validate
        → Preserves next
        → Preserves (interceptor_chain env validate new_limiter limits secret next)
    unfolding interceptor_chain
    chain-Preserves limits secret next valid k =
        let auth = unary_interceptor env (new_auth_interceptor secret public_procedures) in
        let inner : List (Option Interceptor) =
          some recovery_interceptor
          ∷ some logging_interceptor
          ∷ some auth
          ∷ some metrics_interceptor
          ∷ [] in
        let limiter = rate_limiter env validate new_limiter limits in
        let measured : UnaryFunc = metrics_interceptor next in
        let served : UnaryFunc = auth measured in
        let kept =
          unary-Preserves env (new_auth_interceptor secret public_procedures) measured
            (Passes-Preserves metrics_interceptor next metrics-Passes k) in
        let limited =
          maybe-Preserves limiter inner next (limits-AllPass env validate new_limiter limits) (
            Passes-Preserves recovery_interceptor (logging_interceptor served) recovery-Passes
              (Passes-Preserves logging_interceptor served logging-Passes kept)) in
        let rest : UnaryFunc = chain (limiter ∷ inner) next in
        let name = new_request_id_interceptor "X-Request-ID" in
        Passes-Preserves (request_id_interceptor env name) (tracing_interceptor (validate rest))
          (request_id-Passes env name)
          (Passes-Preserves tracing_interceptor (validate rest) tracing-Passes
            (Passes-Preserves validate rest valid limited))
