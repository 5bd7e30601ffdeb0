-- ===== src/Config/Environment.antt =====
-- Which configuration Load reads from an environment.
use skillsphere_api.Common.{
  String, ◌≡◌, refl, Bool, true, false, List, [], ◌∷◌, str_eq, if◌then◌else◌, arith,
}
use skillsphere_api.Errors.{ok}
use skillsphere_api.Strconv.{Bytes, ascii, is_nil, ℤ, pos, itoa, in_int64, parse_bool}
use skillsphere_api.Strconv.Decimal.{atoi-itoa}
use skillsphere_api.Config.{Config, get_env, get_env_as_int, get_env_as_bool, load}

abbrev pub variable : List (String × Bytes) → String → Bytes
variable [] key = []
variable ((k, v) ∷ l) key = if str_eq k key then v else variable l key

abbrev pub show_bool : Bool → Bytes
show_bool true = ascii "true"
show_bool false = ascii "false"

-- The environment that a configuration is written into.
unfoldable pub environment : Config → String → Bytes
environment c = variable (
    ("SERVER_HOST", c.server.host)
    ∷ ("SERVER_PORT", itoa c.server.port)
    ∷ ("SERVER_RATE_LIMIT_PER_SECOND", itoa c.server.rate_limit_per_second)
    ∷ ("SERVER_RATE_LIMIT_BURST", itoa c.server.rate_limit_burst)
    ∷ ("DB_HOST", c.database.host)
    ∷ ("DB_PORT", itoa c.database.port)
    ∷ ("DB_USER", c.database.user)
    ∷ ("DB_PASSWORD", c.database.password)
    ∷ ("DB_NAME", c.database.database)
    ∷ ("DB_SSLMODE", c.database.ssl_mode)
    ∷ ("JWT_SECRET", c.auth.jwt_secret)
    ∷ ("METRICS_ENABLED", show_bool c.observability.metrics_enabled)
    ∷ ("METRICS_PORT", itoa c.observability.metrics_port)
    ∷ ("PPROF_ENABLED", show_bool c.profiling.enabled)
    ∷ ("PPROF_PORT", itoa c.profiling.port)
    ∷ [])

-- Every text is set, and every number is an int.
pub record IsComplete (c : Config) : Type 0 where
  pub server_host : is_nil c.server.host ≡ false
  pub server_port : in_int64 c.server.port ≡ true
  pub rate : in_int64 c.server.rate_limit_per_second ≡ true
  pub burst : in_int64 c.server.rate_limit_burst ≡ true
  pub db_host : is_nil c.database.host ≡ false
  pub db_port : in_int64 c.database.port ≡ true
  pub db_user : is_nil c.database.user ≡ false
  pub db_password : is_nil c.database.password ≡ false
  pub db_name : is_nil c.database.database ≡ false
  pub db_ssl_mode : is_nil c.database.ssl_mode ≡ false
  pub jwt_secret : is_nil c.auth.jwt_secret ≡ false
  pub metrics_port : in_int64 c.observability.metrics_port ≡ true
  pub profiling_port : in_int64 c.profiling.port ≡ true

module _ (getenv : String → Bytes) (key : String) where
  get_env-set :
      (default : String) (v : Bytes)
      → getenv key ≡ v
      → is_nil v ≡ false
      → get_env getenv key default ≡ v
  unfolding get_env
  get_env-set default v e set = ground arith

  get_env_as_int-set :
      (default i : ℤ)
      → getenv key ≡ itoa i
      → in_int64 i ≡ true
      → get_env_as_int getenv key default ≡ i
  unfolding get_env_as_int
  get_env_as_int-set default i e h = rw e (ground (arith, atoi-itoa i h))

  get_env_as_bool-set :
      (default b : Bool) → getenv key ≡ show_bool b → get_env_as_bool getenv key default ≡ b
  unfolding get_env_as_bool parse_bool
  get_env_as_bool-set default true e = rw e refl
  get_env_as_bool-set default false e = rw e refl

-- A configuration that is written into the environment, with every text set and every number in
-- the range of an int, is the one that Load reads back: no default replaces a value.
pub load-environment : (c : Config) → IsComplete c → load (environment c) ≡ ok c
unfolding load environment
load-environment c h =
    let text = get_env-set (environment c) in
    let int = get_env_as_int-set (environment c) in
    let flag = get_env_as_bool-set (environment c) in
    simp (
      text "SERVER_HOST" "localhost" c.server.host refl h.server_host,
      text "DB_HOST" "localhost" c.database.host refl h.db_host,
      text "DB_USER" "postgres" c.database.user refl h.db_user,
      text "DB_PASSWORD" "postgres" c.database.password refl h.db_password,
      text "DB_NAME" "skillsphere" c.database.database refl h.db_name,
      text "DB_SSLMODE" "disable" c.database.ssl_mode refl h.db_ssl_mode,
      text "JWT_SECRET" "changeme" c.auth.jwt_secret refl h.jwt_secret,
      int "SERVER_PORT" (pos 8080) c.server.port refl h.server_port,
      int "SERVER_RATE_LIMIT_PER_SECOND" (pos 100) c.server.rate_limit_per_second refl h.rate,
      int "SERVER_RATE_LIMIT_BURST" (pos 200) c.server.rate_limit_burst refl h.burst,
      int "DB_PORT" (pos 5438) c.database.port refl h.db_port,
      int "METRICS_PORT" (pos 9090) c.observability.metrics_port refl h.metrics_port,
      int "PPROF_PORT" (pos 6060) c.profiling.port refl h.profiling_port,
      flag "METRICS_ENABLED" true c.observability.metrics_enabled refl,
      flag "PPROF_ENABLED" false c.profiling.enabled refl,
    )
