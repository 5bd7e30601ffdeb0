-- ===== src/Interceptors/Auth.antt =====
-- pkg/interceptors/auth.go: authentication by a bearer token, and the check of roles.
pub mod Guard
use Prim.Native.Char.{code}
use skillsphere_api.Common.{
  ℕ, String, ◌<>◌, Bool, true, false, not, ◌||◌, ◌&&◌, ◌+◌, Option, none, some, List, [], ◌∷◌, map,
  ltb, leb, ◌==◌, str_eq, is_empty, if◌then◌else◌,
}
use skillsphere_api.Errors.{
  Error, Result, ok, err, unauthenticated, permission_denied, connect_error, message,
}
use skillsphere_api.Password.{runes}
use skillsphere_api.World.{Env, Claims}
use skillsphere_api.Auth.Tokens.{key_func}
use skillsphere_api.Interceptors.Context.{Context, Request, get_claims_from_context}
use skillsphere_api.Interceptors.Server.{
  Server, Outcome, UnaryFunc, Interceptor, returns, panics, step, refused,
}

-- `AuthInterceptor`: the secret and the set of procedures that may be called with no token.
pub record AuthInterceptor : Type 0 where
  pub jwt_secret : String
  pub optional_procedures : List String

abbrev pub contains : List String → String → Bool
contains [] s = false
contains (x ∷ xs) s = str_eq x s || contains xs s

-- The procedures that are not "".
abbrev pub non_empty : List String → List String
non_empty [] = []
non_empty (p ∷ ps) = let rest = non_empty ps in if is_empty p then rest else p ∷ rest

unfoldable pub new_auth_interceptor : String → List String → AuthInterceptor
new_auth_interceptor secret procedures = record {
  jwt_secret = secret;
  optional_procedures = non_empty procedures;
}

-- strings.SplitN(s, " ", 2): the parts before and after the first space, if there is one.
unfoldable pub split_space : String → Option (String × String)
split_space String.[] = none
split_space (String.◌∷◌ c s) =
    if code c == 32
    then some (String.[], s)
    else elim (split_space s) [ none ↦ none | some (a, b) ↦ some (String.◌∷◌ c a, b) ]

-- strings.ToLower, on a character. No character outside ASCII becomes a letter of "bearer".
abbrev pub to_lower : ℕ → ℕ
to_lower c = if leb b'A' c && leb c b'Z' then c + 32 else c

abbrev pub same_runes : List ℕ → List ℕ → Bool
same_runes [] [] = true
same_runes (a ∷ as') (b ∷ bs) = a == b && same_runes as' bs
same_runes _ _ = false

unfoldable pub is_bearer : String → Bool
is_bearer s = same_runes (map to_lower (runes s)) (runes "bearer")

abbrev pub is_expired : Option ℕ → ℕ → Bool
is_expired none now = false
is_expired (some t) now = ltb t now

-- The context with the claims of a token.
abbrev pub with_claims : Claims → Context → Context
with_claims claims ctx = record ctx { claims = some claims; user_id = some claims.user_id }

module _ (env : Env) (a : AuthInterceptor) where
  -- The tests on a parsed token; the clock is read again for the last of them.
  unfoldable pub accept_token : Result (Claims × Bool) → UnaryFunc → UnaryFunc
  accept_token (err e) next ctx req v =
      (refused unauthenticated ("invalid token: " <> env.error_text e), v)
  accept_token (ok (claims, valid)) next ctx req v =
      if not valid
      then (refused unauthenticated "token is not valid", v)
      else if is_expired claims.expires_at (env.now v.app.draws)
      then (refused unauthenticated "token has expired", step v)
      else next (with_claims claims ctx) req (step v)

  abbrev pub parse_token : String → Server → Result (Claims × Bool)
  parse_token token v = env.parse_with_claims (env.now v.app.draws) token (key_func a.jwt_secret)

  -- The header that is not "".
  unfoldable pub check_header : Option (String × String) → UnaryFunc → UnaryFunc
  unfolding accept_token
  check_header none next ctx req v =
      (refused unauthenticated "invalid authorization header format, expected 'Bearer <token>'", v)
  check_header (some (scheme, token)) next ctx req v =
      if not (is_bearer scheme)
      then (
        refused unauthenticated "invalid authorization header format, expected 'Bearer <token>'",
        v,
      )
      else accept_token (parse_token token v) next ctx req (step v)

  unfoldable pub unary_interceptor : Interceptor
  unfolding check_header
  unary_interceptor next ctx req v =
      let header = req.header "Authorization" in
      if req.is_client
      then next ctx req v
      else if is_empty header
      then (if contains a.optional_procedures req.procedure
          then next ctx req v
          else (refused unauthenticated "missing authorization header", v))
      else check_header (split_space header) next ctx req v

  -- OptionalAuthInterceptor: whatever the header holds, the call goes on.
  abbrev pub is_live : Option ℕ → ℕ → Bool
  is_live none now = true
  is_live (some t) now = ltb now t

  unfoldable pub optional_token : Result (Claims × Bool) → UnaryFunc → UnaryFunc
  optional_token (err e) next ctx req v = next ctx req v
  optional_token (ok (claims, valid)) next ctx req v =
      if valid && is_live claims.expires_at (env.now v.app.draws)
      then next (with_claims claims ctx) req (step v)
      else next ctx req (step v)

  unfoldable pub optional_auth_interceptor : Interceptor
  unfolding optional_token
  optional_auth_interceptor next ctx req v =
      if req.is_client
      then next ctx req v
      else if is_empty (req.header "Authorization")
      then next ctx req v
      else elim (split_space (req.header "Authorization")) [
        | none ↦ next ctx req v
        | some (scheme, token) ↦
            if is_bearer scheme
            then optional_token (parse_token token v) next ctx req (step v)
            else next ctx req v
      ]

-- What a handler goes on with after MustGetClaimsFromContext, which panics with the error.
abbrev pub or_panic :
    Env → Result Claims → (Claims → Server → Outcome × Server) → Server → Outcome × Server
or_panic env (err e) next v = (panics (env.error_text e), v)
or_panic env (ok claims) next v = next claims v

unfoldable pub must_get_claims_from_context :
    Env → Context → (Claims → Server → Outcome × Server) → Server → Outcome × Server
unfolding get_claims_from_context
must_get_claims_from_context env ctx next = or_panic env (get_claims_from_context ctx) next

-- NewRoleAuthInterceptor.
unfoldable pub check_role : List String → Result Claims → UnaryFunc → UnaryFunc
check_role roles (err e) next ctx req v = (refused unauthenticated "authentication required", v)
check_role roles (ok claims) next ctx req v =
    if str_eq claims.role "admin"
    then next ctx req v
    else if not (contains roles claims.role)
    then (refused permission_denied "insufficient permissions", v)
    else next ctx req v

unfoldable pub role_interceptor : List String → Interceptor
unfolding check_role get_claims_from_context
role_interceptor roles next ctx req v =
    if req.is_client
    then next ctx req v
    else check_role roles (get_claims_from_context ctx) next ctx req v
