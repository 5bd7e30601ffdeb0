-- ===== src/Startup/Registration.antt =====
-- A registration at the server that InitDependencies has put together.
use skillsphere_api.Common.{
  ℕ, String, ◌≡◌, sym, ap, ◌∙◌, some, none, Option, ◌∷◌, ◌==◌, select_first,
}
use skillsphere_api.Errors.{ok}
use skillsphere_api.Records.{OutboxRow}
use skillsphere_api.World.{World, Env}
use skillsphere_api.Config.{Config}
use skillsphere_api.Database.{Process}
use skillsphere_api.Ontology.Event.{Document, document}
use skillsphere_api.Ontology.AuthEvents.{new_user_registered_event}
use skillsphere_api.Ontology.Emitter.{Emitter, outbox_then_log}
use skillsphere_api.Auth.Service.{AuthService, new_auth_service}
use skillsphere_api.Auth.Registration.{RegisterParams, RegisterResult, register_user}
use skillsphere_api.Auth.Registration.Announcement.{register-announces}
use skillsphere_api.Startup.{Dependencies, Platform, init_dependencies}
use skillsphere_api.Startup.Composition.{IsReady, init_dependencies-IsReady}

abbrev emitter_of : Option AuthService → Option Emitter
emitter_of none = none
emitter_of (some s) = s.ontology

module _ (platform : Platform) where
  -- The service behind the handler emits to the outbox and to the log.
  wired :
      (cfg : Config) (d : Dependencies) (p q : Process) (s : AuthService)
      → IsReady platform cfg p d q
      → d.auth_handler ≡ some s
      → s.ontology ≡ some outbox_then_log
  unfolding new_auth_service
  wired cfg d p q s ready handler = ap emitter_of (sym handler ∙ ready.handles ∙ ready.service)

  -- For the service that InitDependencies gives to the handler: where the server runs every
  -- statement, every document can be encoded and no row of the outbox has an identifier that a new
  -- UUID will be, a registration that succeeds has added one row to the outbox, which is pending
  -- and holds the encoded event of the user it returns.
  pub init_dependencies-register_user :
      (cfg : Config) (d : Dependencies) (p q : Process) (s : AuthService) (env : Env)
      (params : RegisterParams) (w : World) {w' : World} {r : RegisterResult}
      → init_dependencies platform cfg p ≡ (ok d, q)
      → d.auth_handler ≡ some s
      → ((n : ℕ) → env.fault n ≡ none)
      → ((t : Document) → (payload : String) × (env.json_marshal t ≡ ok payload))
      → ((n : ℕ) → select_first (λ x. x.id == env.new_uuid n) w.db.outbox ≡ none)
      → register_user env s params w ≡ (ok r, w')
      → (row : OutboxRow) × (w'.db.outbox ≡ row ∷ w.db.outbox)
        × (row.event_type ≡ (new_user_registered_event env (some r.user)).type)
        × (row.delivered_at ≡ none)
        × (env.json_marshal (document env.format_time (new_user_registered_event env (some r.user)))
            ≡ ok row.payload)
  init_dependencies-register_user cfg d p q s env params w started handler runs marshals fresh h =
      register-announces env s params
        (wired cfg d p q s (init_dependencies-IsReady platform cfg d p q started) handler) runs
        marshals w h fresh
