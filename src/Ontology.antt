-- ===== src/Ontology.antt =====
-- internal/ontology: the JSON-LD events, the emitters that publish them, and the outbox.
pub mod Event
pub mod AuthEvents
pub mod Emitter
pub mod SessionEvents
pub mod Sinks
pub mod Processor
