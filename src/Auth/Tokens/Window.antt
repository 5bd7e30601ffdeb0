-- ===== src/Auth/Tokens/Window.antt =====
-- From GenerateTokenPair to the validation of its tokens, under the laws of golang-jwt.
use skillsphere_api.Common.{
  ℕ, ◌+◌, String, ◌≡◌, refl, Bool, true, false, ◌&&◌, Option, none, some, leb, ltb, arith,
  if◌then◌else◌,
}
use skillsphere_api.Errors.{Result, ok, err}
use skillsphere_api.World.{World, Env, Claims, SigningMethod, hmac, after}
use skillsphere_api.Auth.Tokens.{
  TokenManager, TokenPair, generate_token_pair, validate_token, validate_access_token,
  validate_refresh_token, make_claims, key_func,
}

abbrev pub reached : Option ℕ → ℕ → Bool
reached none now = true
reached (some t) now = leb t now

abbrev pub not_reached : Option ℕ → ℕ → Bool
not_reached none now = true
not_reached (some t) now = ltb now t

-- The times that the parser checks, with no leeway.
abbrev pub is_live : ℕ → Claims → Bool
is_live now c = reached c.not_before now && not_reached c.expires_at now

abbrev pub accepted : Result (Claims × Bool) → Option Claims
accepted (ok (c, true)) = some c
accepted (ok (c, false)) = none
accepted (err e) = none

-- The dates of claims have the precision of a NumericDate.
abbrev pub IsRounded : Env → Option ℕ → Type 0
IsRounded env none = Unit
IsRounded env (some t) = env.numeric_date t ≡ t

-- NewNumericDate truncates a time to a precision. ParseWithClaims accepts what SignedString made of
-- claims with dates of that precision, with the claims that were signed, where the key function
-- answers with the same secret and the times hold, and refuses it at other times.
pub record JwtLaws (env : Env) : Type 0 where
  pub truncates : (t : ℕ) → env.numeric_date (env.numeric_date t) ≡ env.numeric_date t
  pub parses :
      (now : ℕ) (method : SigningMethod) (c : Claims) (secret text : String)
      (key : SigningMethod → Result String)
      → IsRounded env c.expires_at
      → IsRounded env c.issued_at
      → IsRounded env c.not_before
      → env.signed_string method c secret ≡ ok text
      → key method ≡ ok secret
      → accepted (env.parse_with_claims now text key) ≡ (if is_live now c then some c else none)

abbrev pub to_option : Result Claims → Option Claims
to_option (ok c) = some c
to_option (err e) = none

-- The four fields that say who the token is for.
abbrev pub identity : Claims → String × String × String × String
identity c = (c.user_id, c.email, c.username, c.role)

module _ (env : Env) (laws : JwtLaws env) where
  -- From a time until a lifetime later, as the dates in a token are rounded.
  abbrev pub within : ℕ → ℕ → ℕ → Bool
  within issued ttl now =
      leb (env.numeric_date issued) now && ltb now (env.numeric_date (issued + ttl))

  validate_token-signed :
      (c : Claims) (secret text : String) (v : World)
      → IsRounded env c.expires_at
      → IsRounded env c.issued_at
      → IsRounded env c.not_before
      → env.signed_string hmac c secret ≡ ok text
      → to_option (validate_token env text secret v).0
        ≡ (if is_live (env.now v.draws) c then some c else none)
  unfolding validate_token
  validate_token-signed c secret text v expires issued before signed =
      let law =
        laws.parses (env.now v.draws) hmac c secret text (key_func secret) expires issued before
          signed refl in
      ground (arith, law)

  generate_token_pair-signed :
      (tm : TokenManager) (id email username role : String) (w w' : World) (pair : TokenPair)
      → generate_token_pair env tm id email username role w ≡ (ok pair, w')
      → (a : ℕ) × (r : ℕ) × (env.signed_string hmac
            (make_claims env id email username role
              (env.now w.draws)
              (env.now w.draws + tm.access_ttl)
              a)
            tm.access_secret
          ≡ ok pair.access_token)
        × (env.signed_string hmac
              (make_claims env id email username role
                (env.now w.draws)
                (env.now w.draws + tm.refresh_ttl)
                r)
              tm.refresh_secret
            ≡ ok pair.refresh_token)
  unfolding generate_token_pair
  generate_token_pair-signed tm id email username role w w' pair h =
      (env.new_uuid (after 1 w), env.new_uuid (after 2 w), ground arith, ground arith)

  -- Under the laws of golang-jwt, both tokens of a pair that GenerateTokenPair returns are for the
  -- user it was called with. Read at any state of the clock, each validates exactly from the date
  -- of its issue until the date its lifetime after that, as the dates in a token are rounded, and
  -- gives the claims it was made with: the access token for the access lifetime, the refresh token
  -- for the refresh lifetime.
  pub token-window :
      (tm : TokenManager) (id email username role : String) (w w' v : World) (pair : TokenPair)
      → generate_token_pair env tm id email username role w ≡ (ok pair, w')
      → (a r : Claims) × (identity a ≡ (id, email, username, role))
        × (identity r ≡ (id, email, username, role))
        × (to_option (validate_access_token env tm pair.access_token v).0
            ≡ (if within (env.now w.draws) tm.access_ttl (env.now v.draws) then some a else none))
        × (to_option (validate_refresh_token env tm pair.refresh_token v).0
            ≡ (if within (env.now w.draws) tm.refresh_ttl (env.now v.draws) then some r else none))
  unfolding validate_access_token validate_refresh_token
  token-window tm id email username role w w' v pair h =
      let (a, r, access, refresh) =
        generate_token_pair-signed tm id email username role w w' pair h in
      (
        _,
        _,
        refl,
        refl,
        validate_token-signed _ tm.access_secret pair.access_token v (laws.truncates _)
            (laws.truncates (env.now w.draws)) (laws.truncates (env.now w.draws)) access,
        validate_token-signed _ tm.refresh_secret pair.refresh_token v (laws.truncates _)
            (laws.truncates (env.now w.draws)) (laws.truncates (env.now w.draws)) refresh,
      )
