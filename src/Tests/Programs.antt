-- ===== src/Tests/Programs.antt =====
-- The theorems on the server's process at concrete inputs.
use skillsphere_api.Common.{◌≡◌, refl, none}
use skillsphere_api.Strconv.{itoa, digits}
use skillsphere_api.Config.{dsn}
use skillsphere_api.Config.Environment.{environment, load-environment}
use skillsphere_api.Database.{new, wait_for_db, attempts_from, run_migrations, mask_dsn}
use skillsphere_api.Auth.Tokens.{init_token_manager, new_token_manager}
use skillsphere_api.Startup.{
  init_dependencies, init_database, init_repositories, init_services, init_ontology_emitter,
  init_handlers,
}
use skillsphere_api.Command.{Machine, Outside, not_started, signalled, main, run_server}
use skillsphere_api.Command.Exit.{Graceful, main-Graceful}
use skillsphere_api.Tests.Setup.{config, config-IsComplete, platform, start}

abbrev outside : Outside
outside = record {
  load_dotenv = none;
  getenv = environment config;
  platform = platform;
  event = signalled;
  shutdown = none;
}

abbrev machine : Machine
machine = record { process = start; listener = not_started; pprof = none }

exits : (main outside machine).0 ≡ 0
unfolding main run_server init_dependencies init_database init_repositories init_services
    init_ontology_emitter init_handlers new wait_for_db attempts_from run_migrations mask_dsn dsn
    itoa digits init_token_manager new_token_manager
exits = rw (load-environment config config-IsComplete) refl

main-Graceful_example : Graceful outside machine (main outside machine).1
main-Graceful_example = main-Graceful outside machine exits
