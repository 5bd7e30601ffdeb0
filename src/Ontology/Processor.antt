-- ===== src/Ontology/Processor.antt =====
-- internal/ontology/outbox_processor.go: batches of the outbox, each in a transaction.
pub mod Batches
pub mod Delivery
pub mod Drain
pub mod Marking
pub mod Order
pub mod Progress
use skillsphere_api.Common.{
  ℕ, zero, suc, String, Bool, not, Option, none, some, List, [], ◌∷◌, leb, ◌==◌, is_empty, is_some,
  if◌then◌else◌, take, select_all, update_where,
}
use skillsphere_api.Errors.{Error, Result, ok, err, message}
use skillsphere_api.Action.{Action, pure, raise, raise_if, ◌>>=◌, ◌>>◌}
use skillsphere_api.Records.{OutboxRow}
use skillsphere_api.World.{Db, World, Env, draw, statement, tx_statement, begin_tx, commit}
use skillsphere_api.Ontology.Emitter.{wrapping}
use skillsphere_api.Ontology.Sinks.{Producer, TripleStore, publish, insert_triples}

pub record OutboxProcessor : Type 0 where
  pub has_db : Bool
  pub topic : String
  pub kafka : Option Producer
  pub triple : Option TripleStore
  pub batch_size : ℕ

unfoldable pub new_outbox_processor :
    Bool → String → Option Producer → Option TripleStore → OutboxProcessor
new_outbox_processor has_db topic kafka triple = record {
  has_db = has_db;
  topic = topic;
  kafka = kafka;
  triple = triple;
  batch_size = 100;
}

-- `delivered_at IS NULL`
abbrev pub is_pending : OutboxRow → Bool
is_pending r = not (is_some r.delivered_at)

-- ORDER BY created_at.
unfoldable pub insert_by_time : OutboxRow → List OutboxRow → List OutboxRow
insert_by_time r [] = r ∷ []
insert_by_time r (x ∷ l) =
    let later = insert_by_time r l in if leb r.created_at x.created_at then r ∷ x ∷ l else x ∷ later

unfoldable pub order_by_time : List OutboxRow → List OutboxRow
order_by_time [] = []
order_by_time (r ∷ l) = insert_by_time r (order_by_time l)

-- The rows of the query of a batch; rows that another transaction has locked are skipped.
unfoldable pub next_rows : (ℕ → Bool) → ℕ → List OutboxRow → List OutboxRow
unfolding insert_by_time order_by_time
next_rows locked size rows =
    take size (select_all (λ r. not (locked r.id)) (order_by_time (select_all is_pending rows)))

-- UPDATE ontology_outbox SET delivered_at = NOW() WHERE id = …
unfoldable pub mark_row : ℕ → ℕ → Db → Result (Unit {0}) × Db
mark_row now id db = (
  ok tt,
  record db {
    outbox = update_where (λ r. r.id == id) (λ r. record r { delivered_at = some now }) db.outbox;
  },
)

-- A call to the server that changes nothing by itself: Scan, Err.
abbrev pub server_call : Env → Action World (Unit {0})
server_call env = statement env (λ db. (ok tt, db))

module _ (env : Env) (p : OutboxProcessor) where
  abbrev pub publish_if_set : String → Action World (Unit {0})
  publish_if_set payload = elim p.kafka [
    | none ↦ pure tt
    | some k ↦
        if is_empty p.topic then pure tt else wrapping "publish kafka" (publish k p.topic payload)
  ]

  abbrev pub insert_if_set : String → Action World (Unit {0})
  insert_if_set payload = elim p.triple [
    | none ↦ pure tt
    | some t ↦ wrapping "insert triple store" (insert_triples env t payload)
  ]

  unfoldable pub dispatch : String → Action World (Unit {0})
  dispatch payload =
      if is_empty payload then pure tt else (do publish_if_set payload; insert_if_set payload)

  -- The loop over the batch; `now` is the time of the transaction.
  unfoldable pub deliver_all : ℕ → List OutboxRow → Action World (Unit {0})
  deliver_all now [] = pure tt
  deliver_all now (r ∷ l) = do
    dispatch r.payload
    wrapping "mark delivered" (tx_statement env (mark_row now r.id))
    deliver_all now l

  -- The query of the batch.
  unfoldable pub read_batch : Action World (List OutboxRow)
  unfolding next_rows
  read_batch w =
      wrapping "select outbox rows"
        (tx_statement env (λ db. (ok (next_rows (env.locked w.draws) p.batch_size db.outbox), db)))
        w

  -- What follows BeginTx, at the time of the transaction; a batch with no rows commits at once.
  unfoldable pub deliver_at : ℕ → Action World (Unit {0})
  deliver_at now = do
    batch ← read_batch
    wrapping "scan outbox row" (server_call env)
    wrapping "iterate outbox rows" (server_call env)
    deliver_all now batch
    commit env

  unfoldable pub deliver_batch : Action World (Unit {0})
  deliver_batch = do now ← draw env.now; deliver_at now

  unfoldable pub process_batch : Action World (Unit {0})
  process_batch = do
    raise_if (not p.has_db) (message "outbox processor uninitialized")
    wrapping "begin tx" (begin_tx env)
    deliver_batch

  -- Run, where the context is cancelled after so many ticks; `ctx.Err()` is then returned.
  unfoldable pub run_processor : Error → ℕ → Action World (Unit {0})
  run_processor cancelled zero = do process_batch; raise cancelled
  run_processor cancelled (suc ticks) = do process_batch; run_processor cancelled ticks
