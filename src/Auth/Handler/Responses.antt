-- ===== src/Auth/Handler/Responses.antt =====
-- What the handlers answer: their guards, their error codes, and what they do not reveal.
use skillsphere_api.Common.{
  String, ◌≡◌, refl, true, false, ◌||◌, some, none, arith, is_empty, select_first,
}
use skillsphere_api.Errors.{Error, Result, ok, err, invalid_argument, internal, errors_is, Sentinel}
use skillsphere_api.World.{World, Env, Claims}
use skillsphere_api.Interceptors.Context.{Context, Request}
use skillsphere_api.Auth.Repository.{has_email}
use skillsphere_api.Auth.Service.{AuthService}
use skillsphere_api.Auth.Passwords.Reset.{request-unknown}
use skillsphere_api.Auth.Handler.{
  RegisterRequest, StatusResponse, ChangePasswordRequest, connect_code, handle_register,
  handle_login, handle_logout, handle_refresh_token, handle_validate_token,
  handle_request_password_reset, handle_reset_password, handle_change_password, handle_verify_email,
  handle_resend_verification_email, refuse,
}

-- The error of a refused request is connect's "invalid argument", and nothing was done.
abbrev pub Refused : {A : Type 0} → Result A × World → World → Type 0
Refused (r, w') w = (text : String) × (r ≡ err (refuse invalid_argument text)) × (w' ≡ w)

-- toConnectError chooses "internal" for exactly the errors that are none of the sentinels.
connect_code-internal :
    (e : Error) → connect_code e ≡ internal → (t : Sentinel) → errors_is e t ≡ false
unfolding connect_code
connect_code-internal e h t = ground arith

module _ (env : Env) (s : AuthService) where
  -- A request that lacks a required text is refused as an invalid argument before the service is
  -- called, so nothing is drawn and nothing changes. This is so of all handlers that require one.
  pub handlers-guard :
      (req : Request) (ctx : Context) (msg : RegisterRequest) (change : ChangePasswordRequest)
      (a b : String) (w : World)
      → (is_empty msg.email || (is_empty msg.password || is_empty msg.username)) ≡ true
      → (is_empty change.current_password || is_empty change.new_password) ≡ true
      → (is_empty a || is_empty b) ≡ true
      → Refused (handle_register env s req msg w) w
        × Refused (handle_login env s req a b w) w
        × Refused (handle_logout env s "" w) w
        × Refused (handle_refresh_token env s req "" w) w
        × Refused (handle_validate_token env s "" w) w
        × Refused (handle_request_password_reset env s "" w) w
        × Refused (handle_reset_password env s a b w) w
        × Refused (handle_change_password env s ctx change w) w
        × Refused (handle_verify_email env s "" w) w
        × Refused (handle_resend_verification_email env s "" w) w
  unfolding handle_register handle_login handle_logout handle_refresh_token handle_validate_token
      handle_request_password_reset handle_reset_password handle_change_password handle_verify_email
      handle_resend_verification_email
  handlers-guard req ctx msg change a b w h1 h2 h3 = (
    rw h1 (_, refl, refl),
    rw h3 (_, refl, refl),
    (_, refl, refl),
    (_, refl, refl),
    (_, refl, refl),
    (_, refl, refl),
    rw h3 (_, refl, refl),
    rw h2 (_, refl, refl),
    (_, refl, refl),
    (_, refl, refl),
  )

  -- RequestPasswordReset does not tell which emails have accounts: for an email of no user, where
  -- the server runs the lookup, the response is that of any successful request, and no table changes.
  pub reset-request-reveals-nothing :
      (known unknown : String) (w v : World) (r : StatusResponse)
      → (handle_request_password_reset env s known v).0 ≡ ok r
      → is_empty unknown ≡ false
      → env.fault w.draws ≡ none
      → select_first (has_email unknown) w.db.users ≡ none
      → ((handle_request_password_reset env s unknown w).0 ≡ ok r)
        × ((handle_request_password_reset env s unknown w).1.db ≡ w.db)
  unfolding handle_request_password_reset
  reset-request-reveals-nothing known unknown w v r h present runs absent =
      ground (arith, request-unknown env s unknown w present runs absent)

  -- ChangePassword acts on the user of the claims whatever user the request names, where the
  -- context has claims with a user.
  change-ignores-request-user :
      (ctx : Context) (c : Claims) (msg : ChangePasswordRequest) (other : String) (w : World)
      → ctx.claims ≡ some c
      → is_empty c.user_id ≡ false
      → handle_change_password env s ctx msg w
        ≡ handle_change_password env s ctx (record msg { user_id = other }) w
  unfolding handle_change_password
  change-ignores-request-user ctx c msg other w has named = rw (has, named)
