-- ===== src/Ontology/Processor/Delivery.antt =====
-- What the steps of a batch of the outbox leave.
use skillsphere_api.Common.{
  true, ℕ, String, ◌≡◌, ap, false, some, List, [], ◌∷◌, arith, ◌==◌, is_empty, if◌then◌else◌,
  update_where,
}
use skillsphere_api.Errors.{ok}
use skillsphere_api.Action.{>>=-eq-ok}
use skillsphere_api.Records.{OutboxRow}
use skillsphere_api.World.{World, Env, tx_statement, begin_tx, commit}
use skillsphere_api.Ontology.Emitter.{wrapping}
use skillsphere_api.Ontology.Sinks.{
  Producer, log_producer, bus_producer, has_output, publish, insert_triples,
}
use skillsphere_api.Ontology.Processor.{
  OutboxProcessor, next_rows, mark_row, server_call, dispatch, deliver_all, read_batch,
}
use skillsphere_api.Ontology.Processor.Marking.{mark_all, deliveries}

module _ (env : Env) (p : OutboxProcessor) where
  dispatch-ok :
      (k : Producer) (payload : String) (w : World)
      → p.kafka ≡ some k
      → has_output k ≡ true
      → is_empty p.topic ≡ false
      → (dispatch env p payload w).0 ≡ ok tt
      → ((dispatch env p payload w).1.tx ≡ w.tx)
        × ((dispatch env p payload w).1.published
            ≡ (if is_empty payload then w.published else (p.topic, payload) ∷ w.published))
  unfolding dispatch publish insert_triples
  dispatch-ok (log_producer b) payload w set out topic h = ground arith
  dispatch-ok (bus_producer answer) payload w set out topic h = ground arith

  mark-ok :
      (now id : ℕ) (w w' : World)
      → wrapping "mark delivered" (tx_statement env (mark_row now id)) w ≡ (ok tt, w')
      → (w'.tx ≡ record w.tx {
        outbox =
            update_where (λ x. x.id == id) (λ x. record x { delivered_at = some now }) w.tx.outbox;
      })
        × (w'.published ≡ w.published)
  unfolding mark_row
  mark-ok now id w w' h = ground arith

  pub call-ok :
      (context : String) (w w' : World)
      → wrapping context (server_call env) w ≡ (ok tt, w')
      → (w'.tx ≡ w.tx) × (w'.published ≡ w.published)
  call-ok context w w' h = ground arith

  pub begin-ok :
      (w w' : World)
      → wrapping "begin tx" (begin_tx env) w ≡ (ok tt, w')
      → (w'.tx ≡ w.db) × (w'.published ≡ w.published)
  begin-ok w w' h = ground arith

  pub read-ok :
      (w w' : World) (batch : List OutboxRow)
      → read_batch env p w ≡ (ok batch, w')
      → (w'.tx ≡ w.tx)
        × (w'.published ≡ w.published)
        × (batch ≡ next_rows (env.locked w.draws) p.batch_size w.tx.outbox)
  unfolding read_batch
  read-ok w w' batch h = ground arith

  pub commit-ok :
      (w w' : World) → commit env w ≡ (ok tt, w') → (w'.db ≡ w.tx) × (w'.published ≡ w.published)
  commit-ok w w' h = ground arith

  -- What a delivered batch leaves.
  pub record Delivered (now : ℕ) (batch : List OutboxRow) (w w' : World) : Type 0 where
    pub marked : w'.tx ≡ record w.tx { outbox = mark_all now batch w.tx.outbox }
    pub published : w'.published ≡ deliveries p.topic batch w.published

  module _ (k : Producer) (set : p.kafka ≡ some k) (out : has_output k ≡ true)
      (topic : is_empty p.topic ≡ false) where
    pub deliver_all-Delivered :
        (now : ℕ) (batch : List OutboxRow) (w w' : World)
        → deliver_all env p now batch w ≡ (ok tt, w')
        → Delivered now batch w w'
    unfolding deliver_all
    deliver_all-Delivered now [] w w' h = ground arith
    deliver_all-Delivered now (r ∷ l) w w' h =
        let m1 = dispatch env p r.payload in
        let (_, p1, h1) = >>=-eq-ok m1 _ w h in
        let m2 = wrapping "mark delivered" (tx_statement env (mark_row now r.id)) in
        let (_, p2, h2) = >>=-eq-ok m2 _ (m1 w).1 h1 in
        let d = dispatch-ok k r.payload w set out topic (ap (λ q. q.0) p1) in
        let m = mark-ok now r.id (m1 w).1 (m2 (m1 w).1).1 p2 in
        let rest = deliver_all-Delivered now l (m2 (m1 w).1).1 w' h2 in
        chain now r l w (m1 w).1 (m2 (m1 w).1).1 w' d.0 d.1 m.0 m.1 rest.marked rest.published
      where
        chain :
            (now : ℕ) (r : OutboxRow) (l : List OutboxRow) (w w1 w2 w' : World)
            → w1.tx ≡ w.tx
            → w1.published
              ≡ (if is_empty r.payload then w.published else (p.topic, r.payload) ∷ w.published)
            → w2.tx ≡ record w1.tx {
              outbox =
                  update_where
                    (λ x. x.id == r.id)
                    (λ x. record x { delivered_at = some now })
                    w1.tx.outbox;
            }
            → w2.published ≡ w1.published
            → w'.tx ≡ record w2.tx { outbox = mark_all now l w2.tx.outbox }
            → w'.published ≡ deliveries p.topic l w2.published
            → Delivered now (r ∷ l) w w'
        chain now r l w w1 w2 w' a b c d e f = record { marked = cc; published = cc }
