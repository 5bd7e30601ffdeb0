-- ===== src/Router/History.antt =====
-- Any sequence of HTTP requests and of batches of the outbox worker, and the tables.
use skillsphere_api.Common.{ℕ, String, Option, none, some, List, [], ◌∷◌}
use skillsphere_api.Errors.{Result, ok, err}
use skillsphere_api.World.{Db, Env}
use skillsphere_api.Database.{Driver}
use skillsphere_api.Interceptors.Context.{background}
use skillsphere_api.Interceptors.Server.{Server, Interceptor}
use skillsphere_api.Interceptors.Limits.{Limiter}
use skillsphere_api.Interceptors.Chain.{RateLimits}
use skillsphere_api.Interceptors.Chain.Passage.{Passes, tables}
use skillsphere_api.Interceptors.Chain.Invariant.{Preserves, chain-Preserves}
use skillsphere_api.Ontology.Processor.{OutboxProcessor, process_batch}
use skillsphere_api.Auth.Service.{AuthService}
use skillsphere_api.Auth.Integrity.{IsValid}
use skillsphere_api.Auth.Integrity.Keeps.Batch.{process_batch-Keeps}
use skillsphere_api.Auth.Integrity.Keeps.History.{
  step-IsValid, registers, logs_in, logs_out, refreshes, validates, asks_reset, resets, changes,
  verifies, resends,
}
use skillsphere_api.Auth.Handler.{handle_oauth_login}
use skillsphere_api.Router.Rpcs.{
  Rpc, Message, register_request, login_request, logout_request, refresh_token_request,
  validate_token_request, oauth_login_request, request_password_reset_request,
  reset_password_request, change_password_request, verify_email_request,
  resend_verification_email_request, find_rpc,
}
use skillsphere_api.Router.{
  Codec, HttpRequest, HttpResponse, Route, auth_route, health_route, ready_route, metrics_route,
  Site, method, incoming, call, dispatch, serve_auth, serve,
}

-- What happens to a site: a request to one of its routes, or a batch of the outbox worker.
pub data Visit : Type 0 where
  request : Route → HttpRequest → Visit
  batch : OutboxProcessor → Visit

module _ (env : Env) (s : AuthService) (codec : Codec) (validate : Interceptor)
    (new_limiter : ℕ → ℕ → Limiter) (limits : RateLimits) (secret : String) (driver : Driver)
    (scrape : Server → HttpResponse) where
  abbrev pub site_tables : Site → Db
  site_tables site = tables site.server

  abbrev pub visit : Visit → Site → Site
  visit (request route r) site =
      (serve env s codec validate new_limiter limits secret driver scrape route r site).1
  visit (batch p) site = record site {
    server = record site.server { app = (process_batch env p site.server.app).1 };
  }

  abbrev pub visit_all : List Visit → Site → Site
  visit_all [] site = site
  visit_all (x ∷ xs) site = visit_all xs (visit x site)

  method-Preserves : (m : Message) → Preserves IsValid (method env s codec m)
  unfolding method handle_oauth_login
  method-Preserves (register_request m) ctx req v h = step-IsValid env s (registers req m v.app) h
  method-Preserves (login_request email password) ctx req v h =
      step-IsValid env s (logs_in req email password v.app) h
  method-Preserves (logout_request token) ctx req v h = step-IsValid env s (logs_out token v.app) h
  method-Preserves (refresh_token_request token) ctx req v h =
      step-IsValid env s (refreshes req token v.app) h
  method-Preserves (validate_token_request token) ctx req v h =
      step-IsValid env s (validates token v.app) h
  method-Preserves oauth_login_request ctx req v h = h
  method-Preserves (request_password_reset_request email) ctx req v h =
      step-IsValid env s (asks_reset email v.app) h
  method-Preserves (reset_password_request token password) ctx req v h =
      step-IsValid env s (resets token password v.app) h
  method-Preserves (change_password_request m) ctx req v h =
      step-IsValid env s (changes ctx m v.app) h
  method-Preserves (verify_email_request token) ctx req v h =
      step-IsValid env s (verifies token v.app) h
  method-Preserves (resend_verification_email_request email) ctx req v h =
      step-IsValid env s (resends email v.app) h

  module _ (valid : Passes validate) where
    call-IsValid :
        (rpc : Rpc) (m : Result Message) (r : HttpRequest) (v : Server)
        → IsValid (tables v)
        → IsValid (tables (call env s codec validate new_limiter limits secret rpc m r v).1)
    call-IsValid rpc (err e) r v h = h
    call-IsValid rpc (ok m) r v h =
        chain-Preserves IsValid env validate new_limiter limits secret (method env s codec m) valid
          (method-Preserves m) background
          (incoming env s codec validate new_limiter limits secret rpc r) v h

    dispatch-IsValid :
        (rpc : Option Rpc) (r : HttpRequest) (v : Server)
        → IsValid (tables v)
        → IsValid (tables (dispatch env s codec validate new_limiter limits secret rpc r v).1)
    dispatch-IsValid none r v h = h
    dispatch-IsValid (some rpc) r v h = call-IsValid rpc (codec.decode rpc r) r v h

    visit-IsValid :
        (x : Visit) (site : Site)
        → IsValid (site_tables site)
        → IsValid (site_tables (visit x site))
    unfolding serve serve_auth
    visit-IsValid (request auth_route r) site h = dispatch-IsValid (find_rpc r.path) r site.server h
    visit-IsValid (request health_route r) site h = h
    visit-IsValid (request ready_route r) site h = h
    visit-IsValid (request metrics_route r) site h = h
    visit-IsValid (batch p) site h = (process_batch-Keeps env p).keeps site.server.app h

    -- Where the validation interceptor lets a call through or changes no table: after any sequence
    -- of HTTP requests to the routes, with whatever paths, headers and bodies, and of batches of
    -- the outbox worker, valid tables are still valid.
    pub visit_all-IsValid :
        (l : List Visit) (site : Site)
        → IsValid (site_tables site)
        → IsValid (site_tables (visit_all l site))
    visit_all-IsValid [] site h = h
    visit_all-IsValid (x ∷ l) site h = visit_all-IsValid l (visit x site) (visit-IsValid x site h)
