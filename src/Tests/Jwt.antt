-- ===== src/Tests/Jwt.antt =====
-- A signing library for two tokens, which has the laws of golang-jwt. Its dates are multiples of 10.
use skillsphere_api.Common.{
  ◌-◌, ◌%◌, ℕ, String, ◌≡◌, refl, ap, Bool, true, false, ◌&&◌, Option, none, some, ◌==◌, str_eq,
  eq_iff, ==_iff, arith, if◌then◌else◌, inl, inr, Bool-cases,
}
use skillsphere_api.Errors.{Result, ok, err, foreign}
use skillsphere_api.World.{World, Env, Claims, SigningMethod, hmac, other_method}
use skillsphere_api.Auth.Tokens.{
  TokenPair, generate_token_pair, validate_access_token, validate_refresh_token,
}
use skillsphere_api.Auth.Tokens.Window.{
  JwtLaws, IsRounded, is_live, accepted, to_option, identity, token-window,
}
use skillsphere_api.Tests.{env, world, auth_service}

abbrev same_time : Option ℕ → Option ℕ → Bool
same_time (some a) (some b) = a == b
same_time _ _ = false

same_time-eq : (a b : Option ℕ) → same_time a b ≡ true → a ≡ b
same_time-eq none b h = ground arith
same_time-eq (some a) none h = ground arith
same_time-eq (some a) (some b) h = ap (λ n. some n) ((==_iff a b).0 h)

abbrev same_claims : Claims → Claims → Bool
same_claims c d =
    str_eq c.user_id d.user_id
    && (str_eq c.email d.email
        && (str_eq c.username d.username
            && (str_eq c.role d.role
                && (str_eq c.token_id d.token_id
                    && (same_time c.expires_at d.expires_at
                        && (same_time c.issued_at d.issued_at
                            && same_time c.not_before d.not_before))))))

both : (a b : Bool) → (a && b) ≡ true → (a ≡ true) × (b ≡ true)
both true b h = (refl, h)
both false b h = ground arith

same_claims-eq : (c d : Claims) → same_claims c d ≡ true → c ≡ d
same_claims-eq c d h =
    let (user, h1) = both _ _ h in
    let (email, h2) = both _ _ h1 in
    let (username, h3) = both _ _ h2 in
    let (role, h4) = both _ _ h3 in
    let (id, h5) = both _ _ h4 in
    let (expires, h6) = both _ _ h5 in
    let (issued, before) = both _ _ h6 in
    λ i. record {
      user_id = (eq_iff c.user_id d.user_id).0 user i;
      email = (eq_iff c.email d.email).0 email i;
      username = (eq_iff c.username d.username).0 username i;
      role = (eq_iff c.role d.role).0 role i;
      token_id = (eq_iff c.token_id d.token_id).0 id i;
      expires_at = same_time-eq c.expires_at d.expires_at expires i;
      issued_at = same_time-eq c.issued_at d.issued_at issued i;
      not_before = same_time-eq c.not_before d.not_before before i;
    }

abbrev claims_until : ℕ → String → Claims
claims_until t id = record {
  user_id = "##";
  email = "ann@x";
  username = "ann";
  role = "member";
  expires_at = some t;
  issued_at = some 100;
  not_before = some 100;
  token_id = id;
}

-- Of one token, its claims, its secret and its text.
abbrev for_access : Claims × String × String
for_access = (claims_until 1000 "##############", "a", "access")

abbrev for_refresh : Claims × String × String
for_refresh = (claims_until 9100 "###############", "r", "refresh")

abbrev sign_as : Claims × String × String → Claims → String → Bool
sign_as t c secret = same_claims c t.0 && str_eq secret t.1

abbrev sign : SigningMethod → Claims → String → Result String
sign other_method c secret = err (foreign 2)
sign hmac c secret =
    if sign_as for_access c secret
    then ok "access"
    else if sign_as for_refresh c secret
    then ok "refresh"
    else err (foreign 2)

abbrev check_key : ℕ → Claims × String × String → Result String → Result (Claims × Bool)
check_key now t (err e) = err e
check_key now t (ok secret) =
    if str_eq secret t.1 && is_live now t.0 then ok (t.0, true) else err (foreign 3)

abbrev parse : ℕ → String → (SigningMethod → Result String) → Result (Claims × Bool)
parse now text key =
    if str_eq text "access"
    then check_key now for_access (key hmac)
    else check_key now for_refresh (key hmac)

abbrev jwt_env : Env
jwt_env = record env {
  numeric_date = λ t. t - t % 10;
  signed_string = sign;
  parse_with_claims = parse;
}

sign-parses :
    (t : Claims × String × String) (now : ℕ) (c : Claims) (secret : String)
    → sign_as t c secret ≡ true
    → accepted (check_key now t (ok secret)) ≡ (if is_live now c then some c else none)
sign-parses t now c secret h =
    let (same, key) = both _ _ h in rw (same_claims-eq c t.0 same, key) (ground arith)

jwt-laws : JwtLaws jwt_env
jwt-laws = record { truncates = rounds; parses = law }
  where
    rounds : (t : ℕ) → (t - t % 10) - (t - t % 10) % 10 ≡ t - t % 10
    rounds t = omega arith

    law :
        (now : ℕ) (method : SigningMethod) (c : Claims) (secret text : String)
        (key : SigningMethod → Result String)
        → IsRounded jwt_env c.expires_at
        → IsRounded jwt_env c.issued_at
        → IsRounded jwt_env c.not_before
        → sign method c secret ≡ ok text
        → key method ≡ ok secret
        → accepted (parse now text key) ≡ (if is_live now c then some c else none)
    law now other_method c secret text key _ _ _ signed given = ground arith
    law now hmac c secret text key _ _ _ signed given =
        elim (Bool-cases (sign_as for_access c secret)) [
          | inl access ↦
              let named : text ≡ "access" = ground arith in
              rw (named, given) (sign-parses for_access now c secret access)
          | inr other ↦ elim (Bool-cases (sign_as for_refresh c secret)) [
            | inl refresh ↦
                let named : text ≡ "refresh" = ground arith in
                rw (named, given) (sign-parses for_refresh now c secret refresh)
            | inr neither ↦ ground arith
          ]
        ]

abbrev pair : TokenPair
pair = record {
  access_token = "access";
  refresh_token = "refresh";
  expires_at = 1003;
  token_type = "Bearer";
}

-- The state in which the pair was made, and a later one.
abbrev later : ℕ → World
later draws = record world { draws = draws }

token-window_example :
    (a r : Claims) × (identity a ≡ ("##", "ann@x", "ann", "member"))
    × (identity r ≡ ("##", "ann@x", "ann", "member"))
    × (to_option (validate_access_token jwt_env auth_service.token_manager "access" (later 900)).0
        ≡ none)
    × (to_option (validate_refresh_token jwt_env auth_service.token_manager "refresh" (later 900)).0
        ≡ some r)
unfolding generate_token_pair
token-window_example =
    token-window jwt_env jwt-laws auth_service.token_manager "##" "ann@x" "ann" "member" (later 3)
      (later 6) (later 900) pair refl
