-- ===== src/Config.antt =====
-- pkg/config/config.go. The environment is a function from the names of variables to their bytes,
-- with no bytes for a variable that is not set, as os.Getenv answers.
pub mod Environment
pub mod Dsn
use skillsphere_api.Common.{
  ℕ, String, Bool, true, false, Option, none, some, List, [], ◌∷◌, ◌++◌, if◌then◌else◌,
}
use skillsphere_api.Errors.{Result, ok}
use skillsphere_api.Strconv.{Bytes, ascii, is_nil, ℤ, pos, atoi, parse_bool, itoa}

pub record ServerConfig : Type 0 where
  pub host : Bytes
  pub port : ℤ
  pub rate_limit_per_second : ℤ
  pub rate_limit_burst : ℤ

pub record DatabaseConfig : Type 0 where
  pub host : Bytes
  pub port : ℤ
  pub user : Bytes
  pub password : Bytes
  pub database : Bytes
  pub ssl_mode : Bytes

pub record AuthConfig : Type 0 where
  pub jwt_secret : Bytes

pub record ObservabilityConfig : Type 0 where
  pub metrics_enabled : Bool
  pub metrics_port : ℤ

pub record ProfilingConfig : Type 0 where
  pub enabled : Bool
  pub port : ℤ

pub record Config : Type 0 where
  pub server : ServerConfig
  pub database : DatabaseConfig
  pub auth : AuthConfig
  pub observability : ObservabilityConfig
  pub profiling : ProfilingConfig

abbrev pub or_default : {A : Type 0} → A → Option A → A
or_default d none = d
or_default d (some a) = a

module _ (getenv : String → Bytes) where
  unfoldable pub get_env : String → String → Bytes
  get_env key default = if is_nil (getenv key) then ascii default else getenv key

  unfoldable pub get_env_as_int : String → ℤ → ℤ
  get_env_as_int key default = or_default default (atoi (getenv key))

  unfoldable pub get_env_as_bool : String → Bool → Bool
  get_env_as_bool key default = or_default default (parse_bool (getenv key))

  unfoldable pub load : Result Config
  load = ok (record {
    server = record {
      host = get_env "SERVER_HOST" "localhost";
      port = get_env_as_int "SERVER_PORT" (pos 8080);
      rate_limit_per_second = get_env_as_int "SERVER_RATE_LIMIT_PER_SECOND" (pos 100);
      rate_limit_burst = get_env_as_int "SERVER_RATE_LIMIT_BURST" (pos 200);
    };
    database = record {
      host = get_env "DB_HOST" "localhost";
      port = get_env_as_int "DB_PORT" (pos 5438);
      user = get_env "DB_USER" "postgres";
      password = get_env "DB_PASSWORD" "postgres";
      database = get_env "DB_NAME" "skillsphere";
      ssl_mode = get_env "DB_SSLMODE" "disable";
    };
    auth = record { jwt_secret = get_env "JWT_SECRET" "changeme" };
    observability = record {
      metrics_enabled = get_env_as_bool "METRICS_ENABLED" true;
      metrics_port = get_env_as_int "METRICS_PORT" (pos 9090);
    };
    profiling = record {
      enabled = get_env_as_bool "PPROF_ENABLED" false;
      port = get_env_as_int "PPROF_PORT" (pos 6060);
    };
  })

-- The connection string: fmt.Sprintf with %s and %d.
unfoldable pub dsn : DatabaseConfig → Bytes
dsn c =
    ascii "host="
    ++ (c.host
        ++ (ascii " port="
            ++ (itoa c.port
                ++ (ascii " user="
                    ++ (c.user
                        ++ (ascii " password="
                            ++ (c.password
                                ++ (ascii " dbname="
                                    ++ (c.database ++ (ascii " sslmode=" ++ c.ssl_mode))))))))))
