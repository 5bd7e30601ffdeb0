-- ===== src/Worker.antt =====
-- cmd/ontologyworker/main.go: the process that drains the outbox. The error of a step goes to the
-- log and to the exit status.
pub mod Progress
use skillsphere_api.Common.{ℕ, String, Bool, true, Option, none, some, if◌then◌else◌}
use skillsphere_api.Errors.{Error, Result, ok, err}
use skillsphere_api.Action.{Action, raise, lift, ◌>>=◌, ◌>>◌}
use skillsphere_api.Strconv.{Bytes, ascii, is_nil}
use skillsphere_api.Config.{load, dsn}
use skillsphere_api.World.{World, Env}
use skillsphere_api.Ontology.Sinks.{log_producer, http_store}
use skillsphere_api.Ontology.Processor.{OutboxProcessor, new_outbox_processor, run_processor}

-- os.Getenv, sql.Open, and the text of the bytes of a variable.
pub record Host : Type 0 where
  pub getenv : String → Bytes
  pub sql_open : Bytes → Option Error
  pub text : Bytes → String

abbrev pub open_or_raise : Option Error → Action World (Unit {0})
open_or_raise none w = (ok tt, w)
open_or_raise (some e) w = (err e, w)

module _ (host : Host) where
  unfoldable pub getenv : String → String → Bytes
  getenv key fallback = if is_nil (host.getenv key) then ascii fallback else host.getenv key

  unfoldable pub worker_processor : OutboxProcessor
  unfolding getenv new_outbox_processor
  worker_processor =
      new_outbox_processor true (host.text (getenv "ONTOLOGY_KAFKA_TOPIC" "skillsphere.ontology"))
        (some (log_producer true))
        (some (http_store (host.text (host.getenv "ONTOLOGY_TRIPLESTORE_ENDPOINT"))))

  -- main, where the interrupt comes after so many ticks.
  unfoldable pub run_worker : Env → Error → ℕ → Action World (Unit {0})
  unfolding worker_processor
  run_worker env cancelled ticks = do
    cfg ← lift (load host.getenv)
    open_or_raise (host.sql_open (dsn cfg.database))
    run_processor env worker_processor cancelled ticks
