-- ===== src/Tests/Requests.antt =====
-- The theorems on requests behind the router at concrete inputs.
use skillsphere_api.Common.{String, false, ◌⊎◌, ◌≡◌, refl, arith, ℕ, inr, true}
use skillsphere_api.Auth.Handler.{handle_login, ChangePasswordRequest}
use skillsphere_api.Router.Rpcs.{login_request, change_password_request, change_password_rpc}
use skillsphere_api.Router.{method, Codec, HttpRequest, incoming, serve_auth}
use skillsphere_api.Interceptors.Chain.Safety.{chain-Panics}
use skillsphere_api.Interceptors.Chain.Outcomes.{Panics, limit_exceeded}
use skillsphere_api.Interceptors.Chain.{interceptor_chain, RateLimits}
use skillsphere_api.Interceptors.Server.{UnaryFunc, Interceptor}
use skillsphere_api.Interceptors.Context.{Request, background}
use skillsphere_api.World.{Env}
use skillsphere_api.Errors.{ok}
use skillsphere_api.Interceptors.Limits.{Limiter}
use skillsphere_api.Interceptors.Chain.Passage.{Passes, tables}
use skillsphere_api.Interceptors.Chain.Authentication.{Authenticated, chain-Authenticated}
use skillsphere_api.Router.Calls.{OnBehalf, serve-change_password}
use skillsphere_api.Tests.{env, auth_service}
use skillsphere_api.Tests.Server.{server, bearer}

abbrev all_valid : Interceptor
all_valid next = next

all_valid-Passes : Passes all_valid
all_valid-Passes next ctx req v = inr (record {
  context = ctx;
  state = v;
  has_claims = refl;
  starts = refl;
  later = omega arith;
  ends = refl;
})

abbrev generous : ℕ → ℕ → Limiter
generous rate burst n = true

abbrev limits : RateLimits
limits = record { per_second = 5; burst = 5 }

abbrev change : ChangePasswordRequest
change = record { user_id = ""; current_password = "Passw0rd!"; new_password = "N3w-Secret" }

abbrev codec : Codec
codec = record {
  decode = λ rpc r. ok (change_password_request change);
  marshal = λ a. "{}";
  refusal = λ e. record { status = 400; text = "" };
  response = λ o. record { status = 200; text = "" };
}

abbrev post_change : HttpRequest
post_change = record {
  path = "/skillsphere.auth.v1.AuthService/ChangePassword";
  header = bearer;
  peer = "peer";
  body = "{}";
}

abbrev secret : String
secret = "a"

abbrev change_call : Request
change_call =
    incoming env auth_service codec all_valid generous limits secret change_password_rpc post_change

abbrev change_method : UnaryFunc
change_method = method env auth_service codec (change_password_request change)

chain-Authenticated_example :
    let out =
      (interceptor_chain env all_valid generous limits secret change_method background change_call
        server).1 in
    (tables out ≡ tables server)
    ⊎ Authenticated env all_valid generous secret change_method change_call server out
chain-Authenticated_example =
    chain-Authenticated env all_valid generous secret change_method change_call refl refl limits
      background server all_valid-Passes

serve-change_password_example :
    let out =
      (serve_auth env auth_service codec all_valid generous limits secret post_change server).1 in
    (tables out ≡ tables server)
    ⊎ OnBehalf env auth_service codec all_valid generous limits secret post_change change server out
serve-change_password_example =
    serve-change_password env auth_service codec all_valid generous limits secret post_change change
      server all_valid-Passes refl refl

abbrev printed_env : Env
printed_env = record env { uuid_string = λ n. "#" }

abbrev no_header : String → String
no_header name = ""

abbrev login_call : Request
login_call = record {
  is_client = false;
  procedure = "/skillsphere.auth.v1.AuthService/Login";
  header = no_header;
  peer = "peer";
}

-- A login without a password, which the handler refuses.
abbrev login_nobody : UnaryFunc
login_nobody = method printed_env auth_service codec (login_request "ann@x" "")

chain-Panics_example :
    let out =
      interceptor_chain printed_env all_valid generous limits "a" login_nobody background login_call
        server in
    Panics out.0 ⊎ (out.0 ≡ limit_exceeded)
unfolding method handle_login
chain-Panics_example =
    chain-Panics printed_env all_valid generous limits "a" login_nobody login_call (λ n. refl)
      (λ f ctx v. refl) refl refl (λ ctx v. tt) background server
