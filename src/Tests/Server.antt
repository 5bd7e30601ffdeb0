-- ===== src/Tests/Server.antt =====
-- The theorems on interceptors and handlers at concrete inputs.
use skillsphere_api.Auth.Repository.{insert_token, create_user_token, get_user_by_email}
use skillsphere_api.Auth.Tokens.{generate_password_reset_token}
use skillsphere_api.Auth.Passwords.{reset_for, request_password_reset}
use skillsphere_api.Common.{
  is_empty, ℕ, String, ◌≡◌, ◌⊎◌, refl, true, false, some, [], ◌∷◌, str_eq, if◌then◌else◌,
}
use skillsphere_api.Errors.{ok, unauthenticated}
use skillsphere_api.World.{Claims}
use skillsphere_api.Interceptors.Context.{Context, Request, background}
use skillsphere_api.Interceptors.Server.{Server, UnaryFunc, Interceptor, panics}
use skillsphere_api.Interceptors.Auth.{AuthInterceptor, unary_interceptor, with_claims}
use skillsphere_api.Interceptors.Auth.Guard.{
  IsRefused, Runs, Bears, private-procedure-guarded, public-procedure-guarded,
}
use skillsphere_api.Interceptors.Limits.{Limiter}
use skillsphere_api.Interceptors.Telemetry.{metrics_interceptor, inc}
use skillsphere_api.Interceptors.Telemetry.Metrics.{counted, metrics-balanced}
use skillsphere_api.Interceptors.Chain.{RateLimits, interceptor_chain}
use skillsphere_api.Interceptors.Chain.Outcomes.{Answers}
use skillsphere_api.Interceptors.Chain.Safety.{chain-Answers}
use skillsphere_api.Auth.Handler.{
  RegisterRequest, ChangePasswordRequest, StatusResponse, handle_request_password_reset,
}
use skillsphere_api.Auth.Handler.Responses.{reset-request-reveals-nothing}
use skillsphere_api.Tests.{env, world, auth_service, ann_claims}

abbrev pub server : Server
server = record { app = world; active = λ p. 0; requests = []; observed = []; log = []; spans = [] }

abbrev guard : AuthInterceptor
guard = record { jwt_secret = "a"; optional_procedures = "/auth/Login" ∷ [] }

abbrev pub bearer : String → String
bearer name = if str_eq name "Authorization" then "Bearer token" else ""

abbrev no_header : String → String
no_header name = ""

abbrev logout_call : Request
logout_call = record {
  is_client = false;
  procedure = "/auth/Logout";
  header = bearer;
  peer = "peer";
}

abbrev login_call : Request
login_call = record {
  is_client = false;
  procedure = "/auth/Login";
  header = no_header;
  peer = "peer";
}

private-procedure-guarded_example :
    IsRefused (unary_interceptor env guard) unauthenticated background logout_call server
    ⊎ ((c : Claims) × Bears env guard background logout_call c server
        × Runs
            (unary_interceptor env guard)
            (with_claims c background)
            background
            logout_call
            server)
private-procedure-guarded_example =
    private-procedure-guarded env guard background logout_call server refl refl

public-procedure-guarded_example :
    ((is_empty (login_call.header "Authorization") ≡ true)
      × Runs (unary_interceptor env guard) background background login_call server)
    ⊎ (IsRefused (unary_interceptor env guard) unauthenticated background login_call server
        ⊎ ((c : Claims) × Bears env guard background login_call c server
            × Runs
                (unary_interceptor env guard)
                (with_claims c background)
                background
                login_call
                server))
public-procedure-guarded_example =
    public-procedure-guarded env guard background login_call server refl refl

abbrev member : Context
member = record background { claims = some ann_claims }

abbrev crash : UnaryFunc
crash ctx req v = (panics "nil map", v)

abbrev pass : Interceptor
pass next = next

abbrev always : ℕ → ℕ → Limiter
always rate burst n = true

abbrev limits : RateLimits
limits = record { per_second = 10; burst = 5 }

chain-Answers_example :
    Answers (interceptor_chain env pass always limits "a" crash background login_call server).0
chain-Answers_example =
    chain-Answers env pass always limits "a" crash login_call (λ f h. h) (λ ctx v. tt) background
      server

metrics-balanced_example :
    let inner =
      crash background login_call (record server { active = inc "/auth/Login" server.active }) in
    let outer = metrics_interceptor crash background login_call server in
    (outer.1.active "/auth/Login" ≡ server.active "/auth/Login")
    × (outer.1.observed ≡ "/auth/Login" ∷ inner.1.observed)
    × (outer.1.requests ≡ counted "/auth/Login" inner.0 inner.1.requests)
    × (outer.0 ≡ inner.0)
metrics-balanced_example =
    metrics-balanced crash background login_call server "/auth/Login" (λ u. refl)

abbrev no_email : RegisterRequest
no_email = record { email = ""; username = "bob"; password = "N3w-Secret"; display_name = "Bob" }

abbrev no_new_password : ChangePasswordRequest
no_new_password = record { user_id = "##"; current_password = "Passw0rd!"; new_password = "" }

abbrev sent_reply : StatusResponse
sent_reply = record {
  success = true;
  text = "If an account exists for this email, a reset link has been sent";
}

reset-request-reveals-nothing_example :
    ((handle_request_password_reset env auth_service "bob@x" world).0 ≡ ok sent_reply)
    × ((handle_request_password_reset env auth_service "bob@x" world).1.db ≡ world.db)
unfolding handle_request_password_reset request_password_reset reset_for get_user_by_email
    generate_password_reset_token create_user_token insert_token
reset-request-reveals-nothing_example =
    reset-request-reveals-nothing env auth_service "ann@x" "bob@x" world world sent_reply refl refl
      refl refl
