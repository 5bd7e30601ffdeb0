-- ===== src/Router/Utility.antt =====
-- The routes beside the auth service.
use skillsphere_api.Common.{◌≡◌, ◌≢◌, ◌⊎◌, refl, inl, inr, Option-cases, ℕ, String}
use skillsphere_api.World.{Env}
use skillsphere_api.Database.{Driver, health}
use skillsphere_api.Interceptors.Server.{Server, Interceptor}
use skillsphere_api.Interceptors.Limits.{Limiter}
use skillsphere_api.Interceptors.Chain.{RateLimits}
use skillsphere_api.Auth.Service.{AuthService}
use skillsphere_api.Router.{
  Codec, HttpRequest, HttpResponse, Route, auth_route, health_route, ready_route, metrics_route,
  Site, serve, serve_health,
}

module _ (env : Env) (s : AuthService) (codec : Codec) (validate : Interceptor)
    (new_limiter : ℕ → ℕ → Limiter) (limits : RateLimits) (secret : String) (driver : Driver)
    (scrape : Server → HttpResponse) where
  abbrev run : Route → HttpRequest → Site → HttpResponse × Site
  run = serve env s codec validate new_limiter limits secret driver scrape

  -- A route that is not that of the auth service changes no state of the RPCs, and answers with 200
  -- or 503 unless it is that of the metrics.
  pub utility-quiet :
      (route : Route) (r : HttpRequest) (site : Site)
      → route ≢ auth_route
      → ((run route r site).1.server ≡ site.server)
        × ((route ≡ metrics_route)
            ⊎ (((run route r site).0.status ≡ 200) ⊎ ((run route r site).0.status ≡ 503)))
  unfolding serve serve_health health
  utility-quiet auth_route r site other = absurd (other refl)
  utility-quiet health_route r site other = (
    refl,
    elim (Option-cases (driver.ping site.process.pings)) [
      | inl answered ↦ inr (inl (rw answered refl))
      | inr (e, failed) ↦ inr (inr (rw failed refl))
    ],
  )
  utility-quiet ready_route r site other = (refl, inr (inl refl))
  utility-quiet metrics_route r site other = (refl, inl refl)
