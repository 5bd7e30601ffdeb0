-- ===== src/Database.antt =====
-- pkg/db/postgres.go. The connection pool of pgx, database/sql and goose are parameters; a text of
-- bytes is a connection string.
pub mod Masking
pub mod Waiting
use skillsphere_api.Common.{
  ◌+◌, ◌-◌, ◌*◌, ℕ, zero, suc, String, Bool, true, false, Option, none, some, List, [], ◌∷◌, ◌++◌,
  take, length, ltb, if◌then◌else◌,
}
use skillsphere_api.Errors.{Error, Result, ok, err, message, wrapped}
use skillsphere_api.Action.{Action, pure, raise, lift, ◌>>=◌, ◌>>◌}
use skillsphere_api.Strconv.{Bytes, ascii}

-- Durations are in nanoseconds.
pub record PoolConfig : Type 0 where
  pub conn_string : Bytes
  pub max_conns : ℕ
  pub min_conns : ℕ
  pub max_conn_lifetime : ℕ
  pub max_conn_idle_time : ℕ

-- Config of pkg/db.
pub record DbConfig : Type 0 where
  pub dsn : Bytes
  pub max_conns : ℕ
  pub min_conns : ℕ
  pub max_conn_lifetime : ℕ
  pub max_conn_idle_time : ℕ

-- What the process holds and has done: the pools and the database/sql handles that are open, the
-- pings sent, the nanoseconds slept, the runs of the migrations, and the values logged as
-- dsn_host, the newest first.
pub record Process : Type 0 where
  pub pools : ℕ
  pub handles : ℕ
  pub pings : ℕ
  pub slept : ℕ
  pub migrated : ℕ
  pub dsn_hosts : List Bytes

-- pgxpool, database/sql, the embedded files and goose; a ping is answered at its number.
pub record Driver : Type 0 where
  pub parse_config : Bytes → Result PoolConfig
  pub new_with_config : PoolConfig → Option Error
  pub ping : ℕ → Option Error
  pub set_dialect : Option Error
  pub sql_open : Bytes → Option Error
  pub read_dir : Result (List String)
  pub goose_up : Option Error

-- The pool that New has opened, by its configuration.
pub record Db : Type 0 where
  pub pool : PoolConfig

unfoldable pub mask_dsn : Bytes → Bytes
mask_dsn dsn = if ltb 30 (length dsn) then take 30 dsn ++ ascii "..." else ascii "***"

-- `if err != nil { return fmt.Errorf("…: %w", err) }`
abbrev pub fail_if {ℓ} : {S : Type ℓ} → String → Option Error → Action S (Unit {ℓ})
fail_if context none = pure tt
fail_if context (some e) = raise (wrapped context e)

abbrev pub wrapping {ℓ} : {S A : Type ℓ} → String → Result A → Action S A
wrapping context (ok a) = pure a
wrapping context (err e) = raise (wrapped context e)

-- A change of what the process holds.
abbrev pub modify {ℓ} : {S : Type ℓ} → (S → S) → Action S (Unit {ℓ})
modify f s = (ok tt, f s)

abbrev pub default_retries : ℕ
default_retries = 5

abbrev pub sleep : ℕ → Process → Process
sleep d p = record p { slept = p.slept + d }

abbrev pub open_pool : Process → Process
open_pool p = record p { pools = suc p.pools }

abbrev pub close_pool : Process → Process
close_pool p = record p { pools = p.pools - 1 }

abbrev pub open_handle : Process → Process
open_handle p = record p { handles = suc p.handles }

abbrev pub close_handle : Process → Process
close_handle p = record p { handles = p.handles - 1 }

-- `defer db.Close()`: the handle is closed whatever the rest of the function does.
abbrev pub closing {ℓ} : {S A : Type ℓ} → (S → S) → Action S A → Action S A
closing close m s = let (r, s') = m s in (r, close s')

module _ (driver : Driver) where
  -- Pool.Ping
  abbrev pub ping : Process → Option Error × Process
  ping p = (driver.ping p.pings, record p { pings = suc p.pings })

  -- What the loop does with the answer to the ping of an attempt.
  abbrev pub after_ping : ℕ → Option Error → (Process → Bool × Process) → Process → Bool × Process
  after_ping attempt none again p = (true, p)
  after_ping attempt (some e) again p =
      again (sleep (if ltb attempt default_retries then attempt * 200 * 1000000 else 0) p)

  -- The loop, with so many attempts left from an attempt on.
  unfoldable pub attempts_from : ℕ → ℕ → Process → Bool × Process
  attempts_from zero attempt p = (false, p)
  attempts_from (suc left) attempt p =
      let (answer, p') = ping p in after_ping attempt answer (attempts_from left (suc attempt)) p'

  unfoldable pub wait_for_db : Process → Bool × Process
  unfolding attempts_from
  wait_for_db = attempts_from default_retries 1

  -- The end of New: the pool is given up when no ping is answered.
  abbrev pub or_give_up : PoolConfig → Bool × Process → Result Db × Process
  or_give_up pool (true, p) = (ok (record { pool = pool }), p)
  or_give_up pool (false, p) =
      (err (message "database connection failed after retries"), close_pool p)

  unfoldable pub new : DbConfig → Action Process Db
  unfolding wait_for_db mask_dsn
  new cfg = do
    modify (λ p. record p { dsn_hosts = mask_dsn cfg.dsn ∷ p.dsn_hosts })
    parsed ← wrapping "failed to parse database config" (driver.parse_config cfg.dsn)
    let pool = record parsed {
      max_conns = cfg.max_conns;
      min_conns = cfg.min_conns;
      max_conn_lifetime = cfg.max_conn_lifetime;
      max_conn_idle_time = cfg.max_conn_idle_time;
    }
    fail_if "failed to create database pool" (driver.new_with_config pool)
    modify open_pool
    λ p. or_give_up pool (wait_for_db p)

  -- The end of RunMigrations, once the files are read.
  abbrev pub migrate_up : List String → Action Process (Unit {0})
  migrate_up [] = pure tt
  migrate_up (entry ∷ entries) = do
    fail_if "goose.Up failed" driver.goose_up
    modify (λ p. record p { migrated = suc p.migrated })

  unfoldable pub run_migrations : Db → Action Process (Unit {0})
  run_migrations db = do
    fail_if "failed to set goose dialect" driver.set_dialect
    fail_if "failed to open database for migrations" (driver.sql_open db.pool.conn_string)
    modify open_handle
    closing close_handle (do
      entries ← wrapping "failed to read embedded migrations" driver.read_dir
      migrate_up entries)

  unfoldable pub health : Action Process (Unit {0})
  health p = let (answer, p') = ping p in fail_if "database health check failed" answer p'

-- The method on a Db, or on one whose pool is nil.
unfoldable pub close : Option Db → Process → Process
close none p = p
close (some db) p = close_pool p
