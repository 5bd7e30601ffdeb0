-- ===== src/Ontology/Sinks.antt =====
-- internal/ontology/sinks.go: where the outbox worker delivers.
pub mod Delivery
use skillsphere_api.Common.{
  ℕ, String, Bool, true, false, Option, none, some, ◌∷◌, is_empty, if◌then◌else◌,
}
use skillsphere_api.Errors.{Error, Result, ok, err}
use skillsphere_api.Action.{Action, pure, ◌>>=◌, ◌>>◌}
use skillsphere_api.World.{World, Env, draw_result}

-- KafkaProducer: LogProducer, with or without a logger, or a client of a stream bus by its
-- answers.
pub data Producer : Type 0 where
  log_producer : Bool → Producer
  bus_producer : (ℕ → String → String → Option Error) → Producer

-- A LogProducer without a logger drops what it is given.
abbrev pub has_output : Producer → Bool
has_output (log_producer b) = b
has_output (bus_producer answer) = true

-- TripleStoreClient: HTTPTripleStoreClient with its endpoint, or another client by its answers.
pub data TripleStore : Type 0 where
  http_store : String → TripleStore
  graph_store : (ℕ → String → Option Error) → TripleStore

abbrev pub as_result : Option Error → Result (Unit {0})
as_result none = ok tt
as_result (some e) = err e

abbrev pub record_published : String → String → Action World (Unit {0})
record_published topic payload w = (ok tt, record w { published = (topic, payload) ∷ w.published })

abbrev pub record_inserted : String → Action World (Unit {0})
record_inserted payload w = (ok tt, record w { inserted = payload ∷ w.inserted })

-- A payload counts as published once the producer accepted it.
unfoldable pub publish : Producer → String → String → Action World (Unit {0})
publish (log_producer false) topic payload = pure tt
publish (log_producer true) topic payload = record_published topic payload
publish (bus_producer answer) topic payload = do
  draw_result (λ n. as_result (answer n topic payload))
  record_published topic payload

module _ (env : Env) where
  -- A payload counts as inserted once the store's client returned no error.
  unfoldable pub insert_triples : TripleStore → String → Action World (Unit {0})
  insert_triples (http_store endpoint) payload = if is_empty endpoint then pure tt else (do
    status ← draw_result (λ n. env.http_post n endpoint payload)
    record_inserted payload)
  insert_triples (graph_store answer) payload = do
    draw_result (λ n. as_result (answer n payload))
    record_inserted payload
