-- ===== src/Interceptors/Auth/Guard.antt =====
-- Who gets past the authentication.
use skillsphere_api.Common.{
  String, ◌<>◌, ◌≡◌, ◌⊎◌, refl, Bool, true, false, ◌||◌, ◌&&◌, some, none, Option, arith, is_empty,
  List, str_eq, inl, inr, Bool-cases, Option-cases,
}
use skillsphere_api.Errors.{Result, ok, err, Code, unauthenticated, permission_denied}
use skillsphere_api.World.{Env, Claims}
use skillsphere_api.Interceptors.Context.{Context, Request}
use skillsphere_api.Interceptors.Server.{Server, UnaryFunc, refused, step}
use skillsphere_api.Interceptors.Auth.{
  AuthInterceptor, contains, split_space, is_bearer, is_expired, with_claims, parse_token, is_live,
  accept_token, check_header, unary_interceptor, optional_auth_interceptor, optional_token,
  role_interceptor,
}

-- What a wrapped call comes to, whatever the handler is: it is refused with a code …
abbrev pub IsRefused : (UnaryFunc → UnaryFunc) → Code → Context → Request → Server → Type 0
IsRefused i code ctx req v =
    (text : String) × (v' : Server) × ((next : UnaryFunc)
      → i next ctx req v ≡ (refused code text, v'))

-- … or the handler runs with a context and a state.
abbrev pub Runs : (UnaryFunc → UnaryFunc) → Context → Context → Request → Server → Type 0
Runs i ctx' ctx req v = (v' : Server) × ((next : UnaryFunc) → i next ctx req v ≡ next ctx' req v')

module _ (env : Env) (a : AuthInterceptor) (ctx : Context) (req : Request) where
  -- A token in the header, which the library accepts at a reading of the clock under the
  -- interceptor's secret and for an HMAC method only, and which has not expired at the next.
  abbrev pub Bears : Claims → Server → Type 0
  Bears c v =
      (scheme : String) × (token : String) × (split_space (req.header "Authorization")
        ≡ some (scheme, token))
      × (is_bearer scheme ≡ true)
      × (parse_token env a token v ≡ ok (c, true))
      × (is_expired c.expires_at (env.now (step v).app.draws) ≡ false)

  accept-cases :
      (r : Result (Claims × Bool)) (v : Server)
      → IsRefused (accept_token env a r) unauthenticated ctx req v
        ⊎ ((c : Claims) × (r ≡ ok (c, true))
            × (is_expired c.expires_at (env.now v.app.draws) ≡ false)
            × Runs (accept_token env a r) (with_claims c ctx) ctx req v)
  unfolding accept_token
  accept-cases (err e) v = inl ("invalid token: " <> env.error_text e, v, λ next. refl)
  accept-cases (ok (c, false)) v = inl ("token is not valid", v, λ next. refl)
  accept-cases (ok (c, true)) v =
      elim (Bool-cases (is_expired c.expires_at (env.now v.app.draws))) [
        | inl late ↦ inl ("token has expired", step v, λ next. rw late)
        | inr live ↦ inr (c, refl, live, (step v, λ next. rw live))
      ]

  header-cases :
      (v : Server)
      → IsRefused
          (check_header env a (split_space (req.header "Authorization")))
          unauthenticated
          ctx
          req
          v
        ⊎ ((c : Claims) × Bears c v
            × Runs
                (check_header env a (split_space (req.header "Authorization")))
                (with_claims c ctx)
                ctx
                req
                v)
  unfolding check_header
  header-cases v = go (split_space (req.header "Authorization")) refl
    where
      go :
          (o : Option (String × String))
          → split_space (req.header "Authorization") ≡ o
          → IsRefused (check_header env a o) unauthenticated ctx req v
            ⊎ ((c : Claims) × Bears c v × Runs (check_header env a o) (with_claims c ctx) ctx req v)
      go none e =
          inl ("invalid authorization header format, expected 'Bearer <token>'", v, λ next. refl)
      go (some (scheme, token)) e = elim (Bool-cases (is_bearer scheme)) [
        | inr other ↦
            inl (
              "invalid authorization header format, expected 'Bearer <token>'",
              v,
              λ next. rw other,
            )
        | inl bearer ↦ elim (accept-cases (parse_token env a token v) (step v)) [
          | inl (text, v', bad) ↦ inl (text, v', λ next. rw bearer (bad next))
          | inr (c, parsed, live, (v', good)) ↦
              inr (c, (scheme, token, e, bearer, parsed, live), (v', λ next. rw bearer (good next)))
        ]
      ]

  -- On the server's side, a call of a procedure that is not public is refused as unauthenticated
  -- whatever the handler is, or it bears an accepted, unexpired token and runs with the token's
  -- claims in the context.
  pub private-procedure-guarded :
      (v : Server)
      → req.is_client ≡ false
      → contains a.optional_procedures req.procedure ≡ false
      → IsRefused (unary_interceptor env a) unauthenticated ctx req v
        ⊎ ((c : Claims) × Bears c v × Runs (unary_interceptor env a) (with_claims c ctx) ctx req v)
  unfolding unary_interceptor
  private-procedure-guarded v incoming private =
      elim (Bool-cases (is_empty (req.header "Authorization"))) [
        | inl absent ↦
            inl ("missing authorization header", v, λ next. simp (incoming, absent, private))
        | inr present ↦ elim (header-cases v) [
          | inl (text, v', bad) ↦ inl (text, v', λ next. simp (incoming, present) (bad next))
          | inr (c, bears, (v', good)) ↦
              inr (c, bears, (v', λ next. simp (incoming, present) (good next)))
        ]
      ]

  -- On the server's side, a public procedure runs with the context as it is where there is no
  -- authorization header; a header is checked as for any other procedure, so the call is refused,
  -- or it bears an accepted, unexpired token and runs with the token's claims in the context.
  pub public-procedure-guarded :
      (v : Server)
      → req.is_client ≡ false
      → contains a.optional_procedures req.procedure ≡ true
      → ((is_empty (req.header "Authorization") ≡ true)
          × Runs (unary_interceptor env a) ctx ctx req v)
        ⊎ (IsRefused (unary_interceptor env a) unauthenticated ctx req v
            ⊎ ((c : Claims) × Bears c v
                × Runs (unary_interceptor env a) (with_claims c ctx) ctx req v))
  unfolding unary_interceptor
  public-procedure-guarded v incoming public =
      elim (Bool-cases (is_empty (req.header "Authorization"))) [
        | inl absent ↦ inl (absent, (v, λ next. simp (incoming, absent, public)))
        | inr present ↦ elim (header-cases v) [
          | inl (text, v', bad) ↦ inr (inl (text, v', λ next. simp (incoming, present) (bad next)))
          | inr (c, bears, (v', good)) ↦
              inr (inr (c, bears, (v', λ next. simp (incoming, present) (good next))))
        ]
      ]

  optional_token-cases :
      (r : Result (Claims × Bool)) (v : Server)
      → Runs (optional_token env a r) ctx ctx req v
        ⊎ ((c : Claims) × Runs (optional_token env a r) (with_claims c ctx) ctx req v)
  unfolding optional_token
  optional_token-cases (err e) v = inl (v, λ next. refl)
  optional_token-cases (ok (c, valid)) v =
      elim (Bool-cases (valid && is_live env a c.expires_at (env.now v.app.draws))) [
        | inl live ↦ inr (c, (step v, λ next. simp live))
        | inr late ↦ inl (step v, λ next. simp late)
      ]

  -- The optional interceptor refuses nothing: the handler always runs, with the context as it is
  -- or with the claims of a token.
  pub optional-never-refuses :
      (v : Server)
      → Runs (optional_auth_interceptor env a) ctx ctx req v
        ⊎ ((c : Claims) × Runs (optional_auth_interceptor env a) (with_claims c ctx) ctx req v)
  unfolding optional_auth_interceptor
  optional-never-refuses v = elim (Bool-cases req.is_client) [
    | inl client ↦ inl (v, λ next. simp client)
    | inr incoming ↦ elim (Bool-cases (is_empty (req.header "Authorization"))) [
      | inl absent ↦ inl (v, λ next. simp (incoming, absent))
      | inr present ↦ elim (Option-cases (split_space (req.header "Authorization"))) [
        | inl bad ↦ inl (v, λ next. simp (incoming, present, bad))
        | inr ((scheme, token), split) ↦ elim (Bool-cases (is_bearer scheme)) [
          | inr other ↦ inl (v, λ next. simp (incoming, present, split, other))
          | inl bearer ↦ elim (optional_token-cases (parse_token env a token v) (step v)) [
            | inl (v', same) ↦ inl (v', λ next. simp (incoming, present, split, bearer) (same next))
            | inr (c, (v', claimed)) ↦
                inr (c, (v', λ next. simp (incoming, present, split, bearer) (claimed next)))
          ]
        ]
      ]
    ]
  ]

-- Behind the check of roles, a call on the server's side runs its handler exactly where the
-- context has claims of an admin or of a listed role; it is refused as unauthenticated where
-- there are no claims and as not permitted otherwise.
pub role-guard :
    (roles : List String) (ctx : Context) (req : Request) (v : Server)
    → req.is_client ≡ false
    → ((ctx.claims ≡ none) × IsRefused (role_interceptor roles) unauthenticated ctx req v)
      ⊎ ((c : Claims) × (ctx.claims ≡ some c)
          × (((str_eq c.role "admin" || contains roles c.role) ≡ true)
                × Runs (role_interceptor roles) ctx ctx req v
              ⊎ ((str_eq c.role "admin" || contains roles c.role) ≡ false)
                × IsRefused (role_interceptor roles) permission_denied ctx req v))
unfolding role_interceptor
role-guard roles ctx req v incoming = elim (Option-cases ctx.claims) [
  | inl absent ↦
      inl (absent, ("authentication required", v, λ next. simp incoming (ground (arith, absent))))
  | inr (c, has) ↦ inr (
    c,
    has,
    elim (Bool-cases (str_eq c.role "admin" || contains roles c.role)) [
      | inl allowed ↦ inl (allowed, (v, λ next. simp incoming (ground (arith, has, allowed))))
      | inr barred ↦ inr (
        barred,
        ("insufficient permissions", v, λ next. simp incoming (ground (arith, has, barred))),
      )
    ],
  )
]
