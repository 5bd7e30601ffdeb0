-- ===== src/Interceptors/Chain/Authentication.antt =====
-- Which calls get through the chain of interceptors to a handler of a procedure that is not public.
use skillsphere_api.Interceptors.Auth.{
  parse_token, accept_token, check_header, is_bearer, split_space, AuthInterceptor, contains,
  with_claims, new_auth_interceptor, unary_interceptor,
}
use skillsphere_api.Common.{
  ◌≤◌, subst, arith, ℕ, String, ◌≡◌, refl, sym, ap, ◌∙◌, ◌⊎◌, inl, inr, Bool, false, ◌&&◌, some,
  none, Option, List, [], ◌∷◌, ltb, Bool-cases,
}
use skillsphere_api.Errors.{Result, ok, err}
use skillsphere_api.World.{Env, Claims}
use skillsphere_api.Interceptors.Context.{Context, Request, background}
use skillsphere_api.Interceptors.Server.{Server, UnaryFunc, Interceptor, panics, step}
use skillsphere_api.Interceptors.Limits.{
  Limiter, recovery_interceptor, new_request_id_interceptor, request_id_interceptor,
}
use skillsphere_api.Interceptors.Auth.Guard.{Bears, private-procedure-guarded}
use skillsphere_api.Interceptors.Telemetry.{
  tracing_interceptor, logging_interceptor, metrics_interceptor,
}
use skillsphere_api.Interceptors.Chain.{
  RateLimits, rate_limiter, interceptor_chain, chain, public_procedures,
}
use skillsphere_api.Interceptors.Chain.Passage.{
  tables, Inner, Passes, tracing-Passes, recovery-Passes, logging-Passes, metrics-Passes,
  limiter-Passes, request_id-Passes,
}

-- The same of an interceptor that may be nil.
abbrev pub AllPass : Option Interceptor → Type 0
AllPass none = Unit
AllPass (some i) = Passes i

module _ (env : Env) (validate : Interceptor) (new_limiter : ℕ → ℕ → Limiter) where
  pub limits-AllPass :
      (limits : RateLimits) → AllPass (rate_limiter env validate new_limiter limits)
  unfolding rate_limiter
  limits-AllPass limits = elim (Bool-cases (ltb 0 limits.per_second && ltb 0 limits.burst)) [
    | inl set ↦ rw set (limiter-Passes (some (new_limiter limits.per_second limits.burst)))
    | inr off ↦ rw off tt
  ]

  abbrev pub auth : String → AuthInterceptor
  auth secret = new_auth_interceptor secret public_procedures

  -- A call with an accepted token.
  pub record Authenticated (secret : String) (next : UnaryFunc) (req : Request) (v out : Server)
      : Type 0 where
    pub claims : Claims
    pub reading : Server
    pub since : v.app.draws ≤ reading.app.draws
    pub bears : Bears env (auth secret) background req claims reading
    pub inner : Inner next (some claims) req v out

  -- The same tables, and no fewer draws.
  abbrev Idles : Server → Server → Type 0
  Idles v out = (tables out ≡ tables v) × (v.app.draws ≤ out.app.draws)

  -- With a handler that does nothing, authentication changes no table.
  idle : UnaryFunc
  idle ctx req v = (panics "", v)

  accept-idle :
      (secret : String) (r : Result (Claims × Bool)) (ctx : Context) (req : Request) (v : Server)
      → Idles v (accept_token env (auth secret) r idle ctx req v).1
  unfolding accept_token idle
  accept-idle secret (err e) ctx req v = (refl, omega arith)
  accept-idle secret (ok (c, valid)) ctx req v = (ground arith, ground arith)

  header-idle :
      (secret : String) (o : Option (String × String)) (ctx : Context) (req : Request) (v : Server)
      → Idles v (check_header env (auth secret) o idle ctx req v).1
  unfolding check_header
  header-idle secret none ctx req v = (refl, omega arith)
  header-idle secret (some (scheme, token)) ctx req v = elim (Bool-cases (is_bearer scheme)) [
    | inl bearer ↦
        let parsed = parse_token env (auth secret) token v in
        let (same, more) = accept-idle secret parsed ctx req (step v) in
        rw bearer (same, omega (arith, more))
    | inr other ↦ rw other (refl, omega arith)
  ]

  unary-idle :
      (secret : String) (ctx : Context) (req : Request) (v : Server)
      → Idles v (unary_interceptor env (auth secret) idle ctx req v).1
  unfolding unary_interceptor idle
  unary-idle secret ctx req v =
      let checked = header-idle secret (split_space (req.header "Authorization")) ctx req v in
      (ground (arith, checked), ground (arith, checked))

  module _ (secret : String) (next : UnaryFunc) (req : Request) (incoming : req.is_client ≡ false)
      (private : contains public_procedures req.procedure ≡ false) where
    -- A function that runs the handler only for a call with an accepted token.
    abbrev Guards : UnaryFunc → Type 0
    Guards f =
        (ctx : Context) (v : Server)
        → (tables (f ctx req v).1 ≡ tables v) ⊎ Authenticated secret next req v (f ctx req v).1

    auth-Guards :
        (i : Interceptor) → Passes i → Guards (unary_interceptor env (auth secret) (i next))
    unfolding new_auth_interceptor idle
    auth-Guards i p ctx v =
        let still = unary-idle secret ctx req v in
        elim (private-procedure-guarded env (auth secret) ctx req v incoming private) [
          | inl (text, v', refused) ↦
              let quiet : tables v' ≡ tables v =
                sym (ap (λ m. tables m.1) (refused idle)) ∙ still.0 in
              inl (ap (λ m. tables m.1) (refused (i next)) ∙ quiet)
          | inr (c, bears, (v', runs)) ↦
              let quiet : tables v' ≡ tables v = sym (ap (λ m. tables m.1) (runs idle)) ∙ still.0 in
              let more : v.app.draws ≤ v'.app.draws =
                subst (λ m. v.app.draws ≤ m.1.app.draws) (runs idle) still.1 in
              elim (p next (with_claims c ctx) req v') [
                | inl same ↦ inl (ap (λ m. tables m.1) (runs (i next)) ∙ same ∙ quiet)
                | inr a ↦ inr (record {
                  claims = c;
                  reading = v;
                  since = omega arith;
                  bears = bears;
                  inner = record {
                    context = a.context;
                    state = a.state;
                    has_claims = a.has_claims;
                    starts = a.starts ∙ quiet;
                    later = omega (arith, more, a.later);
                    ends = ap (λ m. tables m.1) (runs (i next)) ∙ a.ends;
                  };
                })
              ]
        ]

    Passes-Guards : (i : Interceptor) (f : UnaryFunc) → Passes i → Guards f → Guards (i f)
    Passes-Guards i f p g ctx v = elim (p f ctx req v) [
      | inl same ↦ inl same
      | inr a ↦ elim (g a.context a.state) [
        | inl same ↦ inl (a.ends ∙ same ∙ a.starts)
        | inr b ↦ inr (record {
          claims = b.claims;
          reading = b.reading;
          since = omega (arith, b.since, a.later);
          bears = b.bears;
          inner = record {
            context = b.inner.context;
            state = b.inner.state;
            has_claims = b.inner.has_claims;
            starts = b.inner.starts ∙ a.starts;
            later = omega (arith, b.inner.later, a.later);
            ends = a.ends ∙ b.inner.ends;
          };
        })
      ]
    ]

    -- With an interceptor of the chain that may be nil.
    maybe-Guards :
        (o : Option Interceptor) (is : List (Option Interceptor))
        → AllPass o
        → Guards (chain is next)
        → Guards (chain (o ∷ is) next)
    maybe-Guards none is p g = g
    maybe-Guards (some i) is p g = Passes-Guards i (chain is next) p g

    -- Where the validation interceptor lets a call through or changes no table: a call from outside
    -- of a procedure that is not public changes no table, whatever the handler is, or it bears a
    -- token that the library accepts under the configured secret, at a draw since the call began,
    -- and that has not expired at the next, and the tables are then those that the handler leaves
    -- when it starts from the tables as they were, in a context with the token's claims.
    pub chain-Authenticated :
        (limits : RateLimits) (ctx : Context) (v : Server)
        → Passes validate
        → let out = (interceptor_chain env validate new_limiter limits secret next ctx req v).1 in
          (tables out ≡ tables v) ⊎ Authenticated secret next req v out
    unfolding interceptor_chain
    chain-Authenticated limits ctx v valid =
        let inner : List (Option Interceptor) =
          some recovery_interceptor
          ∷ some logging_interceptor
          ∷ some (unary_interceptor env (auth secret))
          ∷ some metrics_interceptor
          ∷ [] in
        let limiter = rate_limiter env validate new_limiter limits in
        let served : UnaryFunc = unary_interceptor env (auth secret) (metrics_interceptor next) in
        let limited = maybe-Guards limiter inner (limits-AllPass limits) (
          Passes-Guards recovery_interceptor (logging_interceptor served) recovery-Passes (
            Passes-Guards logging_interceptor served logging-Passes
              (auth-Guards metrics_interceptor metrics-Passes))) in
        let rest : UnaryFunc = chain (limiter ∷ inner) next in
        Passes-Guards (request_id_interceptor env (new_request_id_interceptor "X-Request-ID"))
          (tracing_interceptor (validate rest))
          (request_id-Passes env (new_request_id_interceptor "X-Request-ID"))
          (Passes-Guards tracing_interceptor (validate rest) tracing-Passes
            (Passes-Guards validate rest valid limited))
          ctx v
