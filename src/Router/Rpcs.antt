-- ===== src/Router/Rpcs.antt =====
-- gen/…/auth/v1/authv1connect/auth.connect.go: the RPCs of the auth service, their paths and the
-- switch on the path.
use skillsphere_api.Common.{
  select_first, select_first-holds, List, [], ◌∷◌, String, ◌≡◌, refl, Option, some, str_eq, eq_iff,
}
use skillsphere_api.Auth.Handler.{RegisterRequest, ChangePasswordRequest}

pub data Rpc : Type 0 where
  register_rpc : Rpc
  login_rpc : Rpc
  logout_rpc : Rpc
  refresh_token_rpc : Rpc
  validate_token_rpc : Rpc
  oauth_login_rpc : Rpc
  request_password_reset_rpc : Rpc
  reset_password_rpc : Rpc
  change_password_rpc : Rpc
  verify_email_rpc : Rpc
  resend_verification_email_rpc : Rpc

-- The message of a request.
pub data Message : Type 0 where
  register_request : RegisterRequest → Message
  login_request : String → String → Message
  logout_request : String → Message
  refresh_token_request : String → Message
  validate_token_request : String → Message
  oauth_login_request : Message
  request_password_reset_request : String → Message
  reset_password_request : String → String → Message
  change_password_request : ChangePasswordRequest → Message
  verify_email_request : String → Message
  resend_verification_email_request : String → Message

-- The constants AuthService…Procedure.
abbrev pub procedure : Rpc → String
procedure register_rpc = "/skillsphere.auth.v1.AuthService/Register"
procedure login_rpc = "/skillsphere.auth.v1.AuthService/Login"
procedure logout_rpc = "/skillsphere.auth.v1.AuthService/Logout"
procedure refresh_token_rpc = "/skillsphere.auth.v1.AuthService/RefreshToken"
procedure validate_token_rpc = "/skillsphere.auth.v1.AuthService/ValidateToken"
procedure oauth_login_rpc = "/skillsphere.auth.v1.AuthService/OAuthLogin"
procedure request_password_reset_rpc = "/skillsphere.auth.v1.AuthService/RequestPasswordReset"
procedure reset_password_rpc = "/skillsphere.auth.v1.AuthService/ResetPassword"
procedure change_password_rpc = "/skillsphere.auth.v1.AuthService/ChangePassword"
procedure verify_email_rpc = "/skillsphere.auth.v1.AuthService/VerifyEmail"
procedure resend_verification_email_rpc = "/skillsphere.auth.v1.AuthService/ResendVerificationEmail"

-- The cases of the switch, in order.
abbrev pub cases : List Rpc
cases =
    register_rpc ∷ login_rpc ∷ logout_rpc ∷ refresh_token_rpc ∷ validate_token_rpc ∷ oauth_login_rpc
    ∷ request_password_reset_rpc ∷ reset_password_rpc ∷ change_password_rpc ∷ verify_email_rpc
    ∷ resend_verification_email_rpc ∷ []

unfoldable pub find_rpc : String → Option Rpc
find_rpc path = select_first (λ rpc. str_eq path (procedure rpc)) cases

-- Each procedure's path leads to its own RPC.
find_rpc-procedure : (rpc : Rpc) → find_rpc (procedure rpc) ≡ some rpc
unfolding find_rpc
find_rpc-procedure register_rpc = refl
find_rpc-procedure login_rpc = refl
find_rpc-procedure logout_rpc = refl
find_rpc-procedure refresh_token_rpc = refl
find_rpc-procedure validate_token_rpc = refl
find_rpc-procedure oauth_login_rpc = refl
find_rpc-procedure request_password_reset_rpc = refl
find_rpc-procedure reset_password_rpc = refl
find_rpc-procedure change_password_rpc = refl
find_rpc-procedure verify_email_rpc = refl
find_rpc-procedure resend_verification_email_rpc = refl

-- The switch finds an RPC for a path exactly where the path is that of the RPC.
pub find_rpc-path :
    (path : String) (rpc : Rpc)
    → (find_rpc path ≡ some rpc → path ≡ procedure rpc)
      × (path ≡ procedure rpc → find_rpc path ≡ some rpc)
unfolding find_rpc
find_rpc-path path rpc = (
  λ h.
      (eq_iff path (procedure rpc)).0
        (select_first-holds (λ r. str_eq path (procedure r)) cases rpc h),
  λ e. rw e (find_rpc-procedure rpc),
)
