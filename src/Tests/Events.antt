-- ===== src/Tests/Events.antt =====
-- The theorems on events, their emitters and the outbox at concrete inputs.
use mathlib.Core.List.{Perm}
use skillsphere_api.Ontology.Processor.Order.{Ordered, next_rows-oldest}
use skillsphere_api.Common.{
  ◌++◌, ◌≤◌, ◌⊎◌, length, ℕ, String, ◌≡◌, refl, true, false, none, some, Option, List, [], ◌∷◌, map,
  All, select_first,
}
use skillsphere_api.Ontology.Sinks.{publish, bus_producer, http_store, insert_triples}
use skillsphere_api.Ontology.Processor.{
  mark_row, order_by_time, insert_by_time, read_batch, dispatch, deliver_all, deliver_at,
  deliver_batch, OutboxProcessor, next_rows, process_batch,
}
use skillsphere_api.Errors.{Error, foreign, wrapped}
use skillsphere_api.Records.{OutboxRow}
use skillsphere_api.World.{World}
use skillsphere_api.Ontology.Event.{Event}
use skillsphere_api.Ontology.AuthEvents.{text_value}
use skillsphere_api.Ontology.Processor.Batches.{batch-rolls-back, batch-delivers}
use skillsphere_api.Ontology.Processor.Marking.{deliveries, pending_id, row_id}
use skillsphere_api.Tests.{env, world}

abbrev named : Event
named = record {
  context = "";
  id = "sk:User/##";
  type = "sk:User";
  timestamp = 0;
  props = ("@id", text_value "other") ∷ [];
}

abbrev accepts : ℕ → String → String → Option Error
accepts n topic payload = none

abbrev refuses : ℕ → String → String → Option Error
refuses n topic payload = some (foreign 9)

abbrev processor : OutboxProcessor
processor = record {
  has_db = true;
  topic = "events";
  kafka = some (bus_producer accepts);
  triple = some (http_store "store");
  batch_size = 100;
}

abbrev broken : OutboxProcessor
broken = record processor { kafka = some (bus_producer refuses) }

batch-rolls-back_example : (process_batch env broken world).1.db ≡ world.db
unfolding process_batch deliver_batch deliver_at deliver_all dispatch read_batch next_rows
    insert_by_time order_by_time mark_row publish insert_triples
batch-rolls-back_example =
    batch-rolls-back env broken world (wrapped "publish kafka" (foreign 9)) refl

abbrev after_batch : World
after_batch = (process_batch env processor world).1

batch-delivers_example :
    (n : ℕ) × (batch : List OutboxRow) × (batch
      ≡ next_rows (env.locked n) processor.batch_size world.db.outbox)
    × (after_batch.published ≡ deliveries "events" batch world.published)
    × All (λ r. select_first (pending_id r.id) after_batch.db.outbox ≡ none) batch
    × (map row_id after_batch.db.outbox ≡ map row_id world.db.outbox)
    × (after_batch.db ≡ record world.db { outbox = after_batch.db.outbox })
unfolding process_batch deliver_batch deliver_at deliver_all dispatch read_batch next_rows
    insert_by_time order_by_time mark_row publish insert_triples
batch-delivers_example =
    batch-delivers env processor (bus_producer accepts) refl refl refl world {w' = after_batch} refl

abbrev late_row : OutboxRow
late_row = record {
  id = 6;
  event_type = "sk:User";
  payload = "{}";
  created_at = 5;
  delivered_at = none;
}

abbrev early_row : OutboxRow
early_row = record late_row { id = 7; created_at = 3 }

next_rows-oldest_example :
    (rest : List OutboxRow) × Perm
      (next_rows (λ id. false) 1 (late_row ∷ early_row ∷ []) ++ rest)
      (late_row ∷ early_row ∷ [])
    × Ordered (next_rows (λ id. false) 1 (late_row ∷ early_row ∷ []) ++ rest)
    × (length (next_rows (λ id. false) 1 (late_row ∷ early_row ∷ [])) ≤ 1)
    × ((length (next_rows (λ id. false) 1 (late_row ∷ early_row ∷ [])) ≡ 1) ⊎ (rest ≡ []))
next_rows-oldest_example = next_rows-oldest (λ id. false) 1 (late_row ∷ early_row ∷ [])
