-- ===== src/Interceptors/Chain/Outcomes.antt =====
-- What the interceptors of the chain make of an outcome: a panic, a nil pointer, another answer.
use skillsphere_api.Interceptors.Auth.{
  AuthInterceptor, new_auth_interceptor, unary_interceptor, with_claims, contains,
}
use skillsphere_api.Interceptors.Server.{
  refused, Server, Outcome, UnaryFunc, Interceptor, no_reply, nil_pointer, reply, returns, panics,
  step,
}
use skillsphere_api.Interceptors.Context.{Context, Request}
use skillsphere_api.Interceptors.Auth.Guard.{
  IsRefused, Runs, private-procedure-guarded, public-procedure-guarded,
}
use skillsphere_api.World.{Env}
use skillsphere_api.Errors.{resource_exhausted, unauthenticated}
use skillsphere_api.Common.{
  ◌≡◌, ◌⊎◌, refl, ℕ, String, some, none, Option, List, inl, inr, true, false, Bool-cases, [], ◌∷◌,
  ltb, ◌&&◌, is_empty,
}
use skillsphere_api.Interceptors.Limits.{
  Limiter, rate_limit_interceptor, recover, recovery_interceptor, request_id_interceptor,
  label_response, set_header, ensure_request_id,
}
use skillsphere_api.Interceptors.Telemetry.{
  tracing_interceptor, end_span, log_outcome, measure, logging_interceptor, metrics_interceptor,
}
use skillsphere_api.Interceptors.Chain.{RateLimits, rate_limiter, chain, public_procedures}

-- The call returns, and its response is not a nil pointer.
abbrev pub Answers : Outcome → Type 0
Answers (returns no_reply e) = Unit
Answers (returns nil_pointer e) = ⊥
Answers (returns (reply r) e) = Unit
Answers (panics t) = ⊥

-- The call panics, or its response is not a nil pointer.
abbrev pub NoNilPointer : Outcome → Type 0
NoNilPointer (returns no_reply e) = Unit
NoNilPointer (returns nil_pointer e) = ⊥
NoNilPointer (returns (reply r) e) = Unit
NoNilPointer (panics t) = Unit

-- The call returns a nil pointer.
abbrev pub IsNilPointer : Outcome → Type 0
IsNilPointer (returns no_reply e) = ⊥
IsNilPointer (returns nil_pointer e) = Unit
IsNilPointer (returns (reply r) e) = ⊥
IsNilPointer (panics t) = ⊥

-- All outcomes of a function on a request satisfy a predicate.
abbrev pub Always : (Outcome → Type 0) → Request → UnaryFunc → Type 0
Always P req next = (ctx : Context) (v : Server) → P (next ctx req v).0

abbrev pub Panics : Outcome → Type 0
Panics (returns r e) = ⊥
Panics (panics t) = Unit

abbrev pub limit_exceeded : Outcome
limit_exceeded = refused resource_exhausted "rate limit exceeded"

recover-Answers :
    (req : Request) (m : Outcome × Server) → NoNilPointer m.0 → Answers (recover req m).0
unfolding recover
recover-Answers req (returns no_reply e, v) h = tt
recover-Answers req (returns nil_pointer e, v) h = h
recover-Answers req (returns (reply r) e, v) h = tt
recover-Answers req (panics t, v) h = tt

-- Logging, measuring and the end of a span keep the outcome.
log_outcome-0 :
    (ctx : Context) (req : Request) (m : Outcome × Server) → (log_outcome ctx req m).0 ≡ m.0
log_outcome-0 ctx req (returns r none, v) = refl
log_outcome-0 ctx req (returns r (some e), v) = refl
log_outcome-0 ctx req (panics t, v) = refl

measure-0 : (req : Request) (m : Outcome × Server) → (measure req m).0 ≡ m.0
measure-0 req (returns r e, v) = refl
measure-0 req (panics t, v) = refl

end_span-0 : (req : Request) (m : Outcome × Server) → (end_span req m).0 ≡ m.0
end_span-0 req (returns r e, v) = refl
end_span-0 req (panics t, v) = refl

recover-IsNilPointer :
    (req : Request) (m : Outcome × Server) → IsNilPointer m.0 → IsNilPointer (recover req m).0
unfolding recover
recover-IsNilPointer req (returns r e, v) h = h
recover-IsNilPointer req (panics t, v) h = elim h [ ]

label-Answers :
    (env : Env) (name id : String) (m : Outcome × Server)
    → Answers m.0
    → Answers (label_response env name id m).0
unfolding label_response set_header
label-Answers env name id (returns no_reply e, v) h = elim (Bool-cases (is_empty id)) [
  | inl p ↦ rw p tt
  | inr p ↦ rw p tt
]
label-Answers env name id (returns nil_pointer e, v) h = elim h [ ]
label-Answers env name id (returns (reply r) e, v) h = elim (Bool-cases (is_empty id)) [
  | inl p ↦ rw p tt
  | inr p ↦ rw p tt
]
label-Answers env name id (panics t, v) h = elim h [ ]

label-nil_pointer :
    (env : Env) (name id : String) (m : Outcome × Server)
    → is_empty id ≡ false
    → IsNilPointer m.0 ⊎ (m.0 ≡ limit_exceeded)
    → Panics (label_response env name id m).0 ⊎ ((label_response env name id m).0 ≡ limit_exceeded)
unfolding label_response set_header
label-nil_pointer env name id (returns no_reply e, v) named h =
    rw named (elim h [ inl p ↦ elim p [ ] | inr p ↦ inr p ])
label-nil_pointer env name id (returns nil_pointer e, v) named h = rw named (inl tt)
label-nil_pointer env name id (returns (reply r) e, v) named h = elim h [
  | inl p ↦ elim p [ ]
  | inr p ↦ cc
]
label-nil_pointer env name id (panics t, v) named h = inl tt

-- A call that the auth interceptor refuses or passes on.
refused_or_run :
    (P : Outcome → Type 0) (f : UnaryFunc → UnaryFunc) (ctx : Context) (req : Request) (v : Server)
    (next : UnaryFunc)
    → Always P req next
    → ((text : String) → P (refused unauthenticated text))
    → IsRefused f unauthenticated ctx req v ⊎ ((c : Context) × Runs f c ctx req v)
    → P (f next ctx req v).0
refused_or_run P f ctx req v next h bad (inl (text, v', out)) = rw (out next) (bad text)
refused_or_run P f ctx req v next h bad (inr (c, (v', out))) = rw (out next) (h c v')

module _ (env : Env) (req : Request) where
  auth-NoNilPointer :
      (a : AuthInterceptor) (next : UnaryFunc)
      → Always NoNilPointer req next
      → Always NoNilPointer req (unary_interceptor env a next)
  unfolding unary_interceptor
  auth-NoNilPointer a next h ctx v =
      let go =
        refused_or_run NoNilPointer (unary_interceptor env a) ctx req v next h (λ text. tt) in
      elim (Bool-cases req.is_client) [
        | inl client ↦ go (inr (ctx, (v, λ n. rw client refl)))
        | inr incoming ↦ elim (Bool-cases (contains a.optional_procedures req.procedure)) [
          | inl public ↦ elim (public-procedure-guarded env a ctx req v incoming public) [
            | inl (absent, runs) ↦ go (inr (ctx, runs))
            | inr (inl bad) ↦ go (inl bad)
            | inr (inr (c, bears, runs)) ↦ go (inr (with_claims c ctx, runs))
          ]
          | inr private ↦ elim (private-procedure-guarded env a ctx req v incoming private) [
            | inl bad ↦ go (inl bad)
            | inr (c, bears, runs) ↦ go (inr (with_claims c ctx, runs))
          ]
        ]
      ]

  -- A public procedure that is called without an authorization header.
  auth-IsNilPointer :
      (a : AuthInterceptor) (next : UnaryFunc)
      → contains a.optional_procedures req.procedure ≡ true
      → is_empty (req.header "Authorization") ≡ true
      → Always IsNilPointer req next
      → Always IsNilPointer req (unary_interceptor env a next)
  unfolding unary_interceptor
  auth-IsNilPointer a next public absent h ctx v = elim (Bool-cases req.is_client) [
    | inl client ↦ simp client (h ctx v)
    | inr incoming ↦ simp (incoming, absent, public) (h ctx v)
  ]

  -- What is behind the recovery interceptor.
  abbrev pub behind : String → UnaryFunc → UnaryFunc
  behind secret next = logging_interceptor (
      unary_interceptor env (new_auth_interceptor secret public_procedures)
        (metrics_interceptor next))

  metrics-Always :
      (P : Outcome → Type 0) (next : UnaryFunc)
      → Always P req next
      → Always P req (metrics_interceptor next)
  unfolding metrics_interceptor
  metrics-Always P next h ctx v = rw (measure-0 req _) (h ctx _)

  logging-Always :
      (P : Outcome → Type 0) (next : UnaryFunc)
      → Always P req next
      → Always P req (logging_interceptor next)
  unfolding logging_interceptor
  logging-Always P next h ctx v = rw (log_outcome-0 ctx req _) (h ctx _)

  pub recovery-Answers :
      (secret : String) (next : UnaryFunc)
      → Always NoNilPointer req next
      → Always Answers req (recovery_interceptor (behind secret next))
  unfolding recovery_interceptor
  recovery-Answers secret next h ctx v =
      let a = new_auth_interceptor secret public_procedures in
      recover-Answers req _ (
        logging-Always NoNilPointer (unary_interceptor env a (metrics_interceptor next))
          (auth-NoNilPointer a (metrics_interceptor next) (metrics-Always NoNilPointer next h)) ctx
          v)

  pub recovery-IsNilPointer :
      (secret : String) (next : UnaryFunc)
      → contains public_procedures req.procedure ≡ true
      → is_empty (req.header "Authorization") ≡ true
      → Always IsNilPointer req next
      → Always IsNilPointer req (recovery_interceptor (behind secret next))
  unfolding recovery_interceptor new_auth_interceptor
  recovery-IsNilPointer secret next public absent h ctx v =
      let a = new_auth_interceptor secret public_procedures in
      recover-IsNilPointer req _ (
        logging-Always IsNilPointer (unary_interceptor env a (metrics_interceptor next))
          (auth-IsNilPointer a (metrics_interceptor next) public absent
            (metrics-Always IsNilPointer next h))
          ctx v)

  pub request_id-Answers :
      (name : String) (next : UnaryFunc)
      → Always Answers req next
      → Always Answers req (request_id_interceptor env name next)
  unfolding request_id_interceptor
  request_id-Answers name next h ctx v =
      let (id, v') = ensure_request_id env name req v in
      label-Answers env name id (next (record ctx { request_id = some id }) req v')
        (h (record ctx { request_id = some id }) v')

  request_id-named :
      (name : String) (v : Server)
      → ((n : ℕ) → is_empty (env.uuid_string n) ≡ false)
      → is_empty (ensure_request_id env name req v).0 ≡ false
  unfolding ensure_request_id
  request_id-named name v named = elim (Bool-cases (is_empty (req.header name))) [
    | inl absent ↦ rw absent (named (env.new_uuid v.app.draws))
    | inr given ↦ simp given refl
  ]

  pub request_id-Panics :
      (name : String) (next : UnaryFunc)
      → ((n : ℕ) → is_empty (env.uuid_string n) ≡ false)
      → Always (λ o. IsNilPointer o ⊎ (o ≡ limit_exceeded)) req next
      → Always (λ o. Panics o ⊎ (o ≡ limit_exceeded)) req (request_id_interceptor env name next)
  unfolding request_id_interceptor
  request_id-Panics name next named h ctx v =
      let id = (ensure_request_id env name req v).0 in
      let v' = (ensure_request_id env name req v).1 in
      label-nil_pointer env name id (next (record ctx { request_id = some id }) req v')
        (request_id-named name v named) (h (record ctx { request_id = some id }) v')

  pub tracing-Always :
      (P : Outcome → Type 0) (next : UnaryFunc)
      → Always P req next
      → Always P req (tracing_interceptor next)
  unfolding tracing_interceptor
  tracing-Always P next h ctx v = rw (end_span-0 req (next ctx req v)) (h ctx v)

module _ (env : Env) (validate : Interceptor) (new_limiter : ℕ → ℕ → Limiter) where
  -- The limiter passes a call on or refuses it.
  pub limits-Always :
      (P : Outcome → Type 0) (req : Request) (limits : RateLimits) (is : List (Option Interceptor))
      (next : UnaryFunc)
      → P limit_exceeded
      → Always P req (chain is next)
      → Always P req (chain (rate_limiter env validate new_limiter limits ∷ is) next)
  unfolding rate_limiter rate_limit_interceptor
  limits-Always P req limits is next r h ctx v =
      let allow = new_limiter limits.per_second limits.burst in
      elim (Bool-cases (ltb 0 limits.per_second && ltb 0 limits.burst)) [
        | inl set ↦ elim (Bool-cases (allow v.app.draws)) [
          | inl free ↦ rw (set, free) (h ctx (step v))
          | inr full ↦ rw (set, full) r
        ]
        | inr off ↦ rw off (h ctx v)
      ]

  abbrev pub guarded : String → List (Option Interceptor)
  guarded secret =
      some recovery_interceptor
      ∷ some logging_interceptor
      ∷ some (unary_interceptor env (new_auth_interceptor secret public_procedures))
      ∷ some metrics_interceptor
      ∷ []
