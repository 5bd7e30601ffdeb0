-- ===== src/Ontology/Emitter.antt =====
-- internal/ontology/emitter.go and outbox_emitter.go: the implementations of the interface
-- Emitter as one data type. Debug lines of the logger are not modelled.
pub mod Effects
use skillsphere_api.Common.{
  String, Bool, true, false, Option, none, some, ◌∷◌, ◌==◌, is_some, if◌then◌else◌, select_first,
}
use skillsphere_api.Errors.{Error, Result, ok, err, wrapped, foreign}
use skillsphere_api.Action.{Action, pure, lift, ◌>>=◌, ◌>>◌}
use skillsphere_api.Records.{OutboxRow}
use skillsphere_api.World.{Db, World, Env, draw, statement}
use skillsphere_api.Ontology.Event.{Event, document}

-- LogSender, with or without a logger, and SenderFunc.
pub data Sender : Type 0 where
  log_sender : Bool → Sender
  sender_func : (String → Option Error) → Sender

-- The emitters. A JSONEmitter may have no sender and an OutboxEmitter no database; a
-- FanoutEmitter may hold nil in a place.
mutual
  pub data Emitter : Type 0 where
    nop_emitter : Emitter
    json_emitter : Option Sender → Emitter
    outbox_emitter : Bool → Emitter
    fanout_emitter : Emitters → Emitter

  pub data Emitters : Type 0 where
    end : Emitters
    nil_then : Emitters → Emitters
    emitter_then : Emitter → Emitters → Emitters

-- The fan-out of cmd/api/dependencies.go: the outbox, then the log.
abbrev pub outbox_then_log : Emitter
outbox_then_log =
    fanout_emitter (
      emitter_then (outbox_emitter true) (emitter_then (json_emitter (some (log_sender true))) end))

-- `fmt.Errorf("…: %w", err)` round the error of a call.
abbrev pub wrap_error {ℓ} : {A : Type ℓ} → String → Result A → Result A
wrap_error context (ok a) = ok a
wrap_error context (err e) = err (wrapped context e)

abbrev pub wrapping : {A : Type 0} → String → Action World A → Action World A
wrapping context m w = let (r, w') = m w in (wrap_error context r, w')

abbrev pub record_sent : String → World → World
record_sent payload w = record w { sent = payload ∷ w.sent }

abbrev pub or_error : Option Error → Result (Unit {0})
or_error none = ok tt
or_error (some e) = err e

unfoldable pub send : Sender → String → Action World (Unit {0})
send (log_sender true) payload w = (ok tt, record_sent payload w)
send (log_sender false) payload w = (ok tt, w)
send (sender_func f) payload w = (or_error (f payload), record_sent payload w)

-- INSERT INTO ontology_outbox.
unfoldable pub insert_outbox : OutboxRow → Db → Result (Unit {0}) × Db
insert_outbox row db =
    if is_some (select_first (λ r. r.id == row.id) db.outbox)
    then (err (foreign 23505), db)
    else (ok tt, record db { outbox = row ∷ db.outbox })

module _ (env : Env) where
  -- json.Marshal(event), which calls MarshalJSON.
  unfoldable pub marshal_event : Event → Result String
  unfolding document
  marshal_event e =
      wrap_error "marshal ontology event" (env.json_marshal (document env.format_time e))

  unfoldable pub emit_json : Option Sender → Event → Action World (Unit {0})
  unfolding marshal_event send
  emit_json none e = pure tt
  emit_json (some sender) e = do payload ← lift (marshal_event e); send sender payload

  unfoldable pub emit_outbox : Bool → Event → Action World (Unit {0})
  unfolding marshal_event insert_outbox
  emit_outbox false e = pure tt
  emit_outbox true e = do
    payload ← lift (marshal_event e)
    id ← draw env.new_uuid
    created_at ← draw env.now
    wrapping "insert ontology outbox event" (
        statement env (
          insert_outbox (record {
            id = id;
            event_type = e.type;
            payload = payload;
            created_at = created_at;
            delivered_at = none;
          })))

  unfoldable mutual
    unfolding emit_json emit_outbox

    pub emit : Emitter → Event → Action World (Unit {0})
    emit nop_emitter e = pure tt
    emit (json_emitter sender) e = emit_json sender e
    emit (outbox_emitter has_db) e = emit_outbox has_db e
    emit (fanout_emitter es) e = emit_all es e

    -- The loop of FanoutEmitter.Emit.
    pub emit_all : Emitters → Event → Action World (Unit {0})
    emit_all end e = pure tt
    emit_all (nil_then es) e = emit_all es e
    emit_all (emitter_then m es) e = emit m e >> emit_all es e
