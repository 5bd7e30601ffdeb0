-- ===== src/Router.antt =====
-- cmd/api/router.go: the routes of SetupRouter, with the dispatch of NewAuthServiceHandler in
-- gen/…/auth/v1/authv1connect/auth.connect.go. The mux of net/http, the codecs of connect and the
-- handler of Prometheus are parameters.
pub mod Rpcs
pub mod Calls
pub mod Utility
pub mod History
use skillsphere_api.Common.{
  ◌≡◌, ◌≢◌, ◌⊎◌, refl, inl, inr, Option-cases, false, ℕ, String, Bool, Option, none, some, List, [],
  ◌∷◌, ◌++◌, if◌then◌else◌,
}
use skillsphere_api.Errors.{Error, Result, ok, err}
use skillsphere_api.World.{World, Env}
use skillsphere_api.Action.{Action}
use skillsphere_api.Strconv.{Bytes}
use skillsphere_api.Config.{Config}
use skillsphere_api.Database.{Driver, Process, health}
use skillsphere_api.Interceptors.Context.{Context, Request, background}
use skillsphere_api.Interceptors.Server.{
  Server, Outcome, Reply, nil_pointer, reply, UnaryFunc, Interceptor, returns,
}
use skillsphere_api.Interceptors.Limits.{Limiter}
use skillsphere_api.Interceptors.Chain.{RateLimits, interceptor_chain}
use skillsphere_api.Auth.Service.{AuthService}
use skillsphere_api.Auth.Presenter.{RegisterResponse, LoginResponse, RefreshTokenResponse}
use skillsphere_api.Auth.Handler.{
  RegisterRequest, ChangePasswordRequest, ValidateTokenResponse, StatusResponse,
  VerifyEmailResponse, handle_register, handle_login, handle_logout, handle_refresh_token,
  handle_validate_token, handle_oauth_login, handle_request_password_reset, handle_reset_password,
  handle_change_password, handle_verify_email, handle_resend_verification_email,
}
use skillsphere_api.Router.Rpcs.{
  Rpc, procedure, Message, register_request, login_request, logout_request, refresh_token_request,
  validate_token_request, oauth_login_request, request_password_reset_request,
  reset_password_request, change_password_request, verify_email_request,
  resend_verification_email_request, find_rpc,
}

-- The message of a response.
pub data Answer : Type 0 where
  register_answer : RegisterResponse → Answer
  login_answer : LoginResponse → Answer
  refresh_token_answer : RefreshTokenResponse → Answer
  validate_token_answer : ValidateTokenResponse → Answer
  status_answer : StatusResponse → Answer
  success_answer : Bool → Answer
  verify_email_answer : VerifyEmailResponse → Answer
  empty_answer : Answer

pub record HttpRequest : Type 0 where
  pub path : String
  pub header : String → String
  pub peer : String
  pub body : String

pub record HttpResponse : Type 0 where
  pub status : ℕ
  pub text : String

-- What connect's handlers do around the chain: the message of a body, the body of an answer, and
-- the HTTP response of an outcome.
pub record Codec : Type 0 where
  pub decode : Rpc → HttpRequest → Result Message
  pub marshal : Answer → String
  pub refusal : Error → HttpResponse
  pub response : Outcome → HttpResponse

-- The patterns that are registered, and what serves them.
pub data Route : Type 0 where
  auth_route health_route ready_route metrics_route : Route

-- registerUtilityRoutes, after registerConnectRoutes.
abbrev pub routes : Config → List (String × Route)
routes cfg =
    ("/skillsphere.auth.v1.AuthService/", auth_route)
    ∷ ("/health", health_route)
    ∷ ("/ready", ready_route)
    ∷ (if cfg.observability.metrics_enabled then ("/metrics", metrics_route) ∷ [] else [])

-- The state behind the router: that of the RPCs and that of the pool.
pub record Site : Type 0 where
  pub server : Server
  pub process : Process

-- A handler's result as the response and the error of the function that NewAuthServiceHandler makes
-- of it: connect returns the handler's *Response as an interface, so the nil that a handler returns
-- with an error is a nil pointer.
abbrev pub to_outcome {ℓ} : {A : Type ℓ} → Codec → (A → Answer) → Result A → Outcome
to_outcome codec answer (ok a) =
    returns (reply (record { headers = []; body = codec.marshal (answer a) })) none
to_outcome codec answer (err e) = returns nil_pointer (some e)

abbrev pub run : {A : Type 0} → Codec → (A → Answer) → Action World A → Server → Outcome × Server
run codec answer m v = let (r, w) = m v.app in (to_outcome codec answer r, record v { app = w })

module _ (env : Env) (s : AuthService) (codec : Codec) where
  -- The method of the handler for a message.
  unfoldable pub method : Message → UnaryFunc
  method (register_request m) ctx req v = run codec register_answer (handle_register env s req m) v
  method (login_request email password) ctx req v =
      run codec login_answer (handle_login env s req email password) v
  method (logout_request token) ctx req v = run codec success_answer (handle_logout env s token) v
  method (refresh_token_request token) ctx req v =
      run codec refresh_token_answer (handle_refresh_token env s req token) v
  method (validate_token_request token) ctx req v =
      run codec validate_token_answer (handle_validate_token env s token) v
  method oauth_login_request ctx req v = run codec (λ a. empty_answer) (handle_oauth_login env s) v
  method (request_password_reset_request email) ctx req v =
      run codec status_answer (handle_request_password_reset env s email) v
  method (reset_password_request token password) ctx req v =
      run codec status_answer (handle_reset_password env s token password) v
  method (change_password_request m) ctx req v =
      run codec success_answer (handle_change_password env s ctx m) v
  method (verify_email_request token) ctx req v =
      run codec verify_email_answer (handle_verify_email env s token) v
  method (resend_verification_email_request email) ctx req v =
      run codec status_answer (handle_resend_verification_email env s email) v

  module _ (validate : Interceptor) (new_limiter : ℕ → ℕ → Limiter) (limits : RateLimits)
      (secret : String) where
    -- The request that the chain sees of a call over HTTP.
    abbrev pub incoming : Rpc → HttpRequest → Request
    incoming rpc r = record {
      is_client = false;
      procedure = procedure rpc;
      header = r.header;
      peer = r.peer;
    }

    abbrev pub call : Rpc → Result Message → HttpRequest → Server → HttpResponse × Server
    call rpc (err e) r v = (codec.refusal e, v)
    call rpc (ok m) r v =
        let (out, v') =
          interceptor_chain env validate new_limiter limits secret (method m) background
            (incoming rpc r) v in
        (codec.response out, v')

    -- The cases of the switch of NewAuthServiceHandler, with http.NotFound as the default.
    abbrev pub dispatch : Option Rpc → HttpRequest → Server → HttpResponse × Server
    dispatch none r v = (record { status = 404; text = "404 page not found\n" }, v)
    dispatch (some rpc) r v = call rpc (codec.decode rpc r) r v

    unfoldable pub serve_auth : HttpRequest → Server → HttpResponse × Server
    unfolding find_rpc method
    serve_auth r v = dispatch (find_rpc r.path) r v

-- The handlers of the utility routes.
abbrev pub health_response : Result (Unit {0}) → HttpResponse
health_response (err e) = record { status = 503; text = "database unhealthy" }
health_response (ok a) = record { status = 200; text = "ok" }

unfoldable pub serve_health : Driver → Process → HttpResponse × Process
serve_health driver p = let (r, p') = health driver p in (health_response r, p')

abbrev pub ready_response : HttpResponse
ready_response = record { status = 200; text = "ready" }

-- What a registered pattern serves; `scrape` is the handler of promhttp.
module _ (env : Env) (s : AuthService) (codec : Codec) (validate : Interceptor)
    (new_limiter : ℕ → ℕ → Limiter) (limits : RateLimits) (secret : String) (driver : Driver)
    (scrape : Server → HttpResponse) where
  unfoldable pub serve : Route → HttpRequest → Site → HttpResponse × Site
  unfolding serve_auth serve_health
  serve auth_route r site =
      let (out, v) = serve_auth env s codec validate new_limiter limits secret r site.server in
      (out, record site { server = v })
  serve health_route r site =
      let (out, p) = serve_health driver site.process in (out, record site { process = p })
  serve ready_route r site = (ready_response, site)
  serve metrics_route r site = (scrape site.server, site)
