-- ===== src/Startup.antt =====
-- cmd/api/dependencies.go: what the server is made of, and in which order it is started. The
-- repository and the handler of auth are the database of the model and the functions of
-- Auth/Handler, so of them the model keeps that they are set.
pub mod Composition
pub mod Registration
use skillsphere_api.Common.{ℕ, ◌*◌, ◌-◌, String, Bool, true, false, Option, none, some, is_some}
use skillsphere_api.Errors.{Error, Result, ok, err}
use skillsphere_api.Action.{Action, pure, lift, ◌>>=◌, ◌>>◌}
use skillsphere_api.Strconv.{Bytes}
use skillsphere_api.Config.{Config, dsn}
use skillsphere_api.Database.{
  Db, DbConfig, Driver, Process, new, run_migrations, close, fail_if, modify, wrapping, open_handle,
  close_handle,
}
use skillsphere_api.Ontology.Emitter.{
  outbox_then_log, Emitter, Emitters, nop_emitter, outbox_emitter, json_emitter, fanout_emitter,
  emitter_then, end, log_sender,
}
use skillsphere_api.Auth.Tokens.{TokenManager, init_token_manager}
use skillsphere_api.Auth.Service.{AuthService, new_auth_service}

pub record Dependencies : Type 0 where
  pub config : Config
  pub db : Option Db
  pub ontology_emitter : Emitter
  pub has_sql_db : Bool
  pub has_auth_repo : Bool
  pub token_manager : Option TokenManager
  pub auth_service : Option AuthService
  pub auth_handler : Option AuthService

-- The driver; sql.Open("pgx", …) and Ping on what it opens; and the text of the bytes of a secret.
pub record Platform : Type 0 where
  pub driver : Driver
  pub sql_open : Bytes → Option Error
  pub sql_ping : Option Error
  pub text : Bytes → String

abbrev pub minute : ℕ
minute = 60 * 1000000000

-- The settings that initDatabase gives the pool.
abbrev pub pool_settings : Config → DbConfig
pool_settings cfg = record {
  dsn = dsn cfg.database;
  max_conns = 25;
  min_conns = 5;
  max_conn_lifetime = 5 * minute;
  max_conn_idle_time = 10 * minute;
}

-- The struct before the first step.
abbrev pub no_dependencies : Config → Dependencies
no_dependencies cfg = record {
  config = cfg;
  db = none;
  ontology_emitter = nop_emitter;
  has_sql_db = false;
  has_auth_repo = false;
  token_manager = none;
  auth_service = none;
  auth_handler = none;
}

-- The error of a step, with its context; what the step did to the process stays.
abbrev pub in_step : String → Action Process Dependencies → Action Process Dependencies
in_step context m p = let (r, p') = m p in wrapping context r p'

module _ (platform : Platform) where
  unfoldable pub init_database : Dependencies → Action Process Dependencies
  init_database d = do
    database ← new platform.driver (pool_settings d.config)
    λ p.
        wrapping "failed to run migrations" (run_migrations platform.driver database p).0
          (run_migrations platform.driver database p).1
    pure (record d { db = some database })

  unfoldable pub init_repositories : Dependencies → Action Process Dependencies
  init_repositories d = do
    fail_if "failed to open sql DB" (platform.sql_open (dsn d.config.database))
    modify open_handle
    fail_if "failed to ping sql DB" platform.sql_ping
    pure (record d { has_sql_db = true; has_auth_repo = true })

  unfoldable pub init_ontology_emitter : Dependencies → Dependencies
  init_ontology_emitter d = elim d.has_sql_db [
    | false ↦ d
    | true ↦ record d { ontology_emitter = outbox_then_log }
  ]

  -- With the token manager that init_token_manager makes, and an email service.
  abbrev pub with_services : Dependencies → TokenManager → Dependencies
  with_services d tm = record d {
    token_manager = some tm;
    auth_service =
        some (new_auth_service tm true (some d.ontology_emitter) (30 * (24 * (60 * minute))));
  }

  unfoldable pub init_services : Dependencies → Action Process Dependencies
  init_services d = do
    tm ← lift (init_token_manager (platform.text d.config.auth.jwt_secret))
    pure (with_services d tm)

  unfoldable pub init_handlers : Dependencies → Action Process Dependencies
  init_handlers d = pure (record d { auth_handler = d.auth_service })

  -- What follows initDatabase.
  abbrev pub finish_init : Dependencies → Action Process Dependencies
  finish_init stored = do
    kept ← in_step "failed to init repositories" (init_repositories stored)
    served ← in_step "failed to init services" (init_services (init_ontology_emitter kept))
    in_step "failed to init handlers" (init_handlers served)

  unfoldable pub init_dependencies : Config → Action Process Dependencies
  init_dependencies cfg =
      in_step "failed to init database" (init_database (no_dependencies cfg)) >>= finish_init

-- `if d.sqlDB != nil { d.sqlDB.Close() }`
abbrev pub close_sql : Bool → Process → Process
close_sql true p = close_handle p
close_sql false p = p

unfoldable pub cleanup : Dependencies → Process → Process
unfolding close
cleanup d p = close_sql d.has_sql_db (close d.db p)
