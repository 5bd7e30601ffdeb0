-- ===== src/Tests/Setup.antt =====
-- The theorems on the configuration, the start and the names of the generator at concrete inputs.
use skillsphere_api.Common.{
  arith, ℕ, suc, zero, ◌≡◌, ◌≤◌, refl, true, false, none, some, Option, [], ◌∷◌, map,
}
use skillsphere_api.Records.{OutboxRow}
use skillsphere_api.World.{World}
use skillsphere_api.Ontology.Event.{document}
use skillsphere_api.Ontology.AuthEvents.{new_user_registered_event}
use skillsphere_api.Ontology.Emitter.{
  emit, emit_all, emit_outbox, emit_json, send, marshal_event, insert_outbox,
}
use skillsphere_api.Auth.Repository.{
  get_user_by_email, create_user, insert_user, create_user_session, insert_session,
  create_user_token, insert_token,
}
use skillsphere_api.Auth.Service.{
  AuthService, new_auth_service, create_session, send_email_verification, emit_ontology_event,
}
use skillsphere_api.Auth.Sessions.{generate_tokens_for}
use skillsphere_api.Auth.Tokens.{
  generate_token_pair, generate_verification_token, init_token_manager, new_token_manager,
}
use skillsphere_api.Auth.Registration.{RegisterParams, RegisterResult, admit, enroll, register_user}
use skillsphere_api.Password.{validate_password, see_chars, see_char, require_strength}
use skillsphere_api.Startup.Registration.{init_dependencies-register_user}
use skillsphere_api.Tests.{env, world, ann, auth_service, metadata, or_default}
use skillsphere_api.Errors.{Error, foreign, ok}
use skillsphere_api.Strconv.{ascii, pos, negsuc, itoa, digits}
use skillsphere_api.Config.{Config, load, dsn}
use skillsphere_api.Config.Environment.{environment, IsComplete, load-environment}
use skillsphere_api.Database.{
  Driver, Process, mask_dsn, wait_for_db, new, attempts_from, run_migrations,
}
use skillsphere_api.Database.Masking.{mask_dsn-dsn}
use skillsphere_api.Database.Waiting.{wait_for_db-bounds}
use skillsphere_api.Startup.{
  Dependencies, Platform, init_dependencies, no_dependencies, init_database, init_repositories,
  init_services, init_ontology_emitter, init_handlers,
}
use skillsphere_api.Startup.Composition.{IsReady, init_dependencies-IsReady}
use skillsphere_api.Generator.{
  screaming_from, split, join, camel_to_screaming_snake, snake_to_pascal, to_title, build_enum_info,
}
use skillsphere_api.Generator.Concepts.{
  value_of, notation_of, label_of, concept_of, build_enum_info-concepts,
}

abbrev pub config : Config
config = record {
  server = record {
    host = ascii "0.0.0.0";
    port = pos 80;
    rate_limit_per_second = negsuc 0;
    rate_limit_burst = pos 0;
  };
  database = record {
    host = ascii "db";
    port = pos 5432;
    user = ascii "app";
    password = ascii "s3cret";
    database = ascii "skillsphere";
    ssl_mode = ascii "require";
  };
  auth = record { jwt_secret = ascii "k" };
  observability = record { metrics_enabled = false; metrics_port = pos 9091 };
  profiling = record { enabled = true; port = pos 6061 };
}

abbrev pub config-IsComplete : IsComplete config
config-IsComplete = record {
  server_host = refl;
  server_port = refl;
  rate = refl;
  burst = refl;
  db_host = refl;
  db_port = refl;
  db_user = refl;
  db_password = refl;
  db_name = refl;
  db_ssl_mode = refl;
  jwt_secret = refl;
  metrics_port = refl;
  profiling_port = refl;
}

load-environment_example : load (environment config) ≡ ok config
load-environment_example = load-environment config config-IsComplete

mask_dsn-dsn_example :
    mask_dsn (dsn (record config.database { password = ascii "other" }))
    ≡ mask_dsn (dsn config.database)
mask_dsn-dsn_example =
    mask_dsn-dsn (environment config) config (ascii "other")
      (load-environment config config-IsComplete)

-- The second ping is answered.
abbrev second_ping : ℕ → Option Error
second_ping zero = some (foreign 1)
second_ping (suc n) = none

abbrev pub driver : Driver
driver = record {
  parse_config = λ s. ok (record {
    conn_string = s;
    max_conns = 4;
    min_conns = 0;
    max_conn_lifetime = 0;
    max_conn_idle_time = 0;
  });
  new_with_config = λ c. none;
  ping = second_ping;
  set_dialect = none;
  sql_open = λ s. none;
  read_dir = ok ("001_users.sql" ∷ []);
  goose_up = none;
}

abbrev pub start : Process
start = record { pools = 0; handles = 0; pings = 0; slept = 0; migrated = 0; dsn_hosts = [] }

wait_for_db-bounds_example :
    let (ready, q) = wait_for_db driver start in
    (q.pings ≤ 5) × (q.slept ≤ 2000000000) × (ready ≡ true)
wait_for_db-bounds_example = wait_for_db-bounds driver start

abbrev pub platform : Platform
platform = record { driver = driver; sql_open = λ s. none; sql_ping = none; text = λ s. "k" }

abbrev no_server : Dependencies
no_server = no_dependencies config

-- What a start comes to.
abbrev started : Dependencies × Process
started = let (r, q) = init_dependencies platform config start in (or_default no_server r, q)

init_dependencies-IsReady_example : IsReady platform config start started.0 started.1
unfolding init_dependencies init_database init_repositories init_services init_ontology_emitter
    init_handlers new wait_for_db attempts_from run_migrations mask_dsn dsn itoa digits
    init_token_manager new_token_manager
init_dependencies-IsReady_example =
    init_dependencies-IsReady platform config started.0 start started.1 refl

abbrev bob : RegisterParams
bob = record {
  email = "bob@x";
  username = "bob";
  password = "N3w-Secret";
  display_name = "Bob";
  metadata = metadata;
}

-- The service that the handler of the started server has.
abbrev service : AuthService
service = elim started.0.auth_handler [ none ↦ auth_service | some s ↦ s ]

abbrev no_result : RegisterResult
no_result = record {
  user = ann;
  tokens = record { access_token = ""; refresh_token = ""; expires_at = 0; token_type = "" };
  email_verification_required = false;
}

abbrev registered : RegisterResult × World
registered = let (r, w) = register_user env service bob world in (or_default no_result r, w)

init_dependencies-register_user_example :
    (row : OutboxRow) × (registered.1.db.outbox ≡ row ∷ world.db.outbox)
    × (row.event_type ≡ (new_user_registered_event env (some registered.0.user)).type)
    × (row.delivered_at ≡ none)
    × (env.json_marshal
          (document env.format_time (new_user_registered_event env (some registered.0.user)))
        ≡ ok row.payload)
unfolding init_dependencies init_database init_repositories init_services init_ontology_emitter
    init_handlers new wait_for_db attempts_from run_migrations mask_dsn dsn itoa digits
    init_token_manager new_token_manager new_auth_service register_user admit enroll
    get_user_by_email create_user insert_user emit_ontology_event emit emit_all emit_outbox
    emit_json send marshal_event insert_outbox generate_tokens_for generate_token_pair
    create_session create_user_session insert_session validate_password see_chars see_char
    require_strength send_email_verification generate_verification_token create_user_token
    insert_token
init_dependencies-register_user_example =
    init_dependencies-register_user platform config started.0 start started.1 service env bob world
      {w' = registered.1} {r = registered.0} refl refl (λ n. refl) (λ t. ("{}", refl))
      (λ n. ground arith) refl

build_enum_info-concepts_example :
    let info = build_enum_info (ascii "skill.proto") (record {
      name = ascii "Level";
      values = map (value_of (ascii "Level")) (ascii "UNSPECIFIED" ∷ ascii "VERY_HIGH" ∷ []);
    }) in
    (map notation_of info.values ≡ ascii "LEVEL_VERY_HIGH" ∷ [])
    × (map label_of info.values ≡ ascii "Very High" ∷ [])
    × (map concept_of info.values ≡ ascii "sk:LevelVeryHigh" ∷ [])
unfolding camel_to_screaming_snake screaming_from snake_to_pascal split join to_title
build_enum_info-concepts_example =
    build_enum_info-concepts (ascii "skill.proto") (ascii "Level")
      (ascii "UNSPECIFIED" ∷ ascii "VERY_HIGH" ∷ [])
