-- ===== src/Ontology/Processor/Batches.antt =====
-- What a batch of the outbox does, and what it leaves when it fails.
use skillsphere_api.Errors.{message, Result, Error, ok, err}
use skillsphere_api.Action.{raise_if, ◌>>=◌, continue, Action, >>=-eq-ok}
use skillsphere_api.World.{draw, tx_statement, begin_tx, commit, Db, World, Env, advance}
use skillsphere_api.Common.{
  Bool, true, false, not, String, ◌∷◌, [], refl, ℕ, suc, ◌≡◌, sym, ap, ◌∙◌, some, none, List, map,
  arith, is_empty, select_first, All,
}
use skillsphere_api.Ontology.Processor.{
  dispatch, mark_row, OutboxProcessor, next_rows, server_call, deliver_all, read_batch, deliver_at,
  deliver_batch, process_batch,
}
use skillsphere_api.Records.{OutboxRow}
use skillsphere_api.Ontology.Emitter.{wrapping}
use skillsphere_api.Ontology.Sinks.{Producer, has_output, publish, insert_triples}
use skillsphere_api.Ontology.Processor.Marking.{
  mark_all, mark_all-delivers, mark_all-ids, pending_id, row_id, deliveries,
}
use skillsphere_api.Ontology.Processor.Delivery.{
  begin-ok, call-ok, read-ok, commit-ok, deliver_all-Delivered,
}

-- No table changes, whatever the method returns.
record KeepsDb {A : Type 0} (m : Action World A) : Type 0 where
  keeps : (w : World) → (m w).1.db ≡ w.db

-- No table changes if the method fails.
record RollsBack {A : Type 0} (m : Action World A) : Type 0 where
  undone : (w : World) (e : Error) → (m w).0 ≡ err e → (m w).1.db ≡ w.db

>>=-KeepsDb :
    {A B : Type 0} {m : Action World A} {f : A → Action World B}
    → KeepsDb m
    → ((a : A) → KeepsDb (f a))
    → KeepsDb (m >>= f)
>>=-KeepsDb {m = m} {f = f} k next = record { keeps = λ w. go (m w).0 (m w).1 ∙ k.keeps w }
  where
    go : (r : Result _) (w : World) → (continue r f w).1.db ≡ w.db
    go (ok a) w = (next a).keeps w
    go (err e) w = refl

>>=-RollsBack :
    {A B : Type 0} {m : Action World A} {f : A → Action World B}
    → KeepsDb m
    → ((a : A) → RollsBack (f a))
    → RollsBack (m >>= f)
>>=-RollsBack {m = m} {f = f} k next = record {
  undone = λ w e h. go (m w).0 (m w).1 e h ∙ k.keeps w;
}
  where
    go :
        (r : Result _) (w : World) (e : Error)
        → (continue r f w).0 ≡ err e
        → (continue r f w).1.db ≡ w.db
    go (ok a) w e h = (next a).undone w e h
    go (err x) w e h = refl

module _ (env : Env) (p : OutboxProcessor) where
  call-KeepsDb : (context : String) → KeepsDb (wrapping context (server_call env))
  call-KeepsDb context = record { keeps = λ w. ground arith }

  dispatch-KeepsDb : (payload : String) → KeepsDb (dispatch env p payload)
  unfolding dispatch publish insert_triples
  dispatch-KeepsDb payload = record { keeps = λ w. ground arith }

  mark-KeepsDb :
      (now id : ℕ) → KeepsDb (wrapping "mark delivered" (tx_statement env (mark_row now id)))
  unfolding mark_row
  mark-KeepsDb now id = record { keeps = λ w. ground arith }

  deliver_all-KeepsDb : (now : ℕ) (batch : List OutboxRow) → KeepsDb (deliver_all env p now batch)
  unfolding deliver_all
  deliver_all-KeepsDb now [] = record { keeps = λ w. refl }
  deliver_all-KeepsDb now (r ∷ l) =
      >>=-KeepsDb (dispatch-KeepsDb r.payload)
        (λ _. >>=-KeepsDb (mark-KeepsDb now r.id) (λ _. deliver_all-KeepsDb now l))

  read-KeepsDb : KeepsDb (read_batch env p)
  unfolding read_batch
  read-KeepsDb = record { keeps = λ w. ground arith }

  commit-RollsBack : RollsBack (commit env)
  commit-RollsBack = record { undone = λ w e h. ground arith }

  deliver_at-RollsBack : (now : ℕ) → RollsBack (deliver_at env p now)
  unfolding deliver_at
  deliver_at-RollsBack now = >>=-RollsBack read-KeepsDb (λ batch.
      >>=-RollsBack (call-KeepsDb "scan outbox row") (λ _.
        >>=-RollsBack (call-KeepsDb "iterate outbox rows")
          (λ _. >>=-RollsBack (deliver_all-KeepsDb now batch) (λ _. commit-RollsBack))))

  guard-KeepsDb : (c : Bool) (e : Error) → KeepsDb (raise_if c e)
  guard-KeepsDb true e = record { keeps = λ w. refl }
  guard-KeepsDb false e = record { keeps = λ w. refl }

  begin-KeepsDb : KeepsDb (wrapping "begin tx" (begin_tx env))
  begin-KeepsDb = record { keeps = λ w. ground arith }

  now-KeepsDb : KeepsDb (draw env.now)
  now-KeepsDb = record { keeps = λ w. refl }

  process_batch-RollsBack : RollsBack (process_batch env p)
  unfolding process_batch deliver_batch
  process_batch-RollsBack =
      >>=-RollsBack (guard-KeepsDb (not p.has_db) (message "outbox processor uninitialized")) (λ _.
        >>=-RollsBack begin-KeepsDb
          (λ _. >>=-RollsBack now-KeepsDb (λ now. deliver_at-RollsBack now)))

  -- If a batch fails, at whatever point, every table is as it was: rows that were marked before
  -- the failure are pending again.
  pub batch-rolls-back :
      (w : World) (e : Error)
      → (process_batch env p w).0 ≡ err e
      → (process_batch env p w).1.db ≡ w.db
  batch-rolls-back w e h = process_batch-RollsBack.undone w e h

  module _ (k : Producer) (set : p.kafka ≡ some k) (out : has_output k ≡ true)
      (topic : is_empty p.topic ≡ false) where
    -- The steps of a batch, one by one.
    record Steps (w w' : World) : Type 0 where
      batch : List OutboxRow
      w2 : World
      w3 : World
      w4 : World
      w5 : World
      selected : read_batch env p (advance w) ≡ (ok batch, w2)
      scanned : wrapping "scan outbox row" (server_call env) w2 ≡ (ok tt, w3)
      iterated : wrapping "iterate outbox rows" (server_call env) w3 ≡ (ok tt, w4)
      delivered : deliver_all env p (env.now w.draws) batch w4 ≡ (ok tt, w5)
      committed : commit env w5 ≡ (ok tt, w')

    deliver_batch-Steps : (w w' : World) → deliver_batch env p w ≡ (ok tt, w') → Steps w w'
    unfolding deliver_at deliver_batch
    deliver_batch-Steps w w' h =
        let m2 = read_batch env p in
        let (batch, p2, h2) = >>=-eq-ok m2 _ (advance w) h in
        let m3 = wrapping "scan outbox row" (server_call env) in
        let (_, p3, h3) = >>=-eq-ok m3 _ (m2 (advance w)).1 h2 in
        let m4 = wrapping "iterate outbox rows" (server_call env) in
        let (_, p4, h4) = >>=-eq-ok m4 _ (m3 (m2 (advance w)).1).1 h3 in
        let m5 = deliver_all env p (env.now w.draws) batch in
        let (_, p5, h5) = >>=-eq-ok m5 _ (m4 (m3 (m2 (advance w)).1).1).1 h4 in
        record {
          batch = batch;
          w2 = (m2 (advance w)).1;
          w3 = (m3 (m2 (advance w)).1).1;
          w4 = (m4 (m3 (m2 (advance w)).1).1).1;
          w5 = (m5 (m4 (m3 (m2 (advance w)).1).1).1).1;
          selected = p2;
          scanned = p3;
          iterated = p4;
          delivered = p5;
          committed = h5;
        }

    -- A batch whose steps succeeded has delivered the rows of its query.
    pub record Batch (w w' : World) : Type 0 where
      pub draws : ℕ
      pub batch : List OutboxRow
      pub now : ℕ
      pub selected : batch ≡ next_rows (env.locked draws) p.batch_size w.db.outbox
      pub marked : w'.db ≡ record w.db { outbox = mark_all now batch w.db.outbox }
      pub published : w'.published ≡ deliveries p.topic batch w.published

    -- The same of a transaction that has begun.
    record Committed (w w' : World) : Type 0 where
      draws : ℕ
      batch : List OutboxRow
      now : ℕ
      selected : batch ≡ next_rows (env.locked draws) p.batch_size w.tx.outbox
      marked : w'.db ≡ record w.tx { outbox = mark_all now batch w.tx.outbox }
      published : w'.published ≡ deliveries p.topic batch w.published

    Steps-Committed : (w w' : World) → Steps w w' → Committed w w'
    Steps-Committed w w' t =
        let read = read-ok env p (advance w) t.w2 t.batch t.selected in
        let scanned = call-ok env p "scan outbox row" t.w2 t.w3 t.scanned in
        let iterated = call-ok env p "iterate outbox rows" t.w3 t.w4 t.iterated in
        let d =
          deliver_all-Delivered env p k set out topic (env.now w.draws) t.batch t.w4 t.w5
            t.delivered in
        let committed = commit-ok env p t.w5 w' t.committed in
        let db4 : t.w4.tx ≡ w.tx = iterated.0 ∙ scanned.0 ∙ read.0 in
        let pub4 : t.w4.published ≡ w.published = iterated.1 ∙ scanned.1 ∙ read.1 in
        record {
          draws = suc w.draws;
          batch = t.batch;
          now = env.now w.draws;
          selected = read.2;
          marked =
              committed.0
              ∙ d.marked
              ∙ ap
                  (λ (db : Db). record db { outbox = mark_all (env.now w.draws) t.batch db.outbox })
                  db4;
          published = committed.1 ∙ d.published ∙ ap (deliveries p.topic t.batch) pub4;
        }

    begun-ok :
        (w w1 w' : World) → w1.tx ≡ w.db → w1.published ≡ w.published → Committed w1 w' → Batch w w'
    begun-ok w w1 w' same kept b = record {
      draws = b.draws;
      batch = b.batch;
      now = b.now;
      selected =
          b.selected ∙ ap (λ (db : Db). next_rows (env.locked b.draws) p.batch_size db.outbox) same;
      marked =
          b.marked ∙ ap (λ (db : Db). record db { outbox = mark_all b.now b.batch db.outbox }) same;
      published = b.published ∙ ap (deliveries p.topic b.batch) kept;
    }

    pub process_batch-Batch : (w w' : World) → process_batch env p w ≡ (ok tt, w') → Batch w w'
    unfolding process_batch
    process_batch-Batch w w' h =
        let m1 = raise_if (not p.has_db) (message "outbox processor uninitialized") in
        let (_, p1, h1) = >>=-eq-ok m1 _ w h in
        let m2 = wrapping "begin tx" (begin_tx env) in
        let (_, p2, h2) = >>=-eq-ok m2 _ (m1 w).1 h1 in
        let w2 = (m2 (m1 w).1).1 in
        let began = begin-ok env p (m1 w).1 w2 p2 in
        let b = Steps-Committed w2 w' (deliver_batch-Steps w2 w' h2) in
        begun-ok w w2 w' (began.0 ∙ raised w) (began.1 ∙ raised_published w) b
      where
        raised :
            (w : World)
            → (raise_if (not p.has_db) (message "outbox processor uninitialized") w).1.db ≡ w.db
        raised w = ground arith

        raised_published :
            (w : World)
            → (raise_if (not p.has_db) (message "outbox processor uninitialized") w).1.published
              ≡ w.published
        raised_published w = ground arith

    -- If a batch succeeds, with a producer that has somewhere to publish to and a topic that is not "", then its rows are the ones
    -- that the query selects at some draw. Afterwards each of them has been published in their
    -- order, but for empty payloads, and no row with the identifier of one is pending; the outbox
    -- has the same rows by identifier, and no other table has changed.
    pub batch-delivers :
        (w : World) {w' : World}
        → process_batch env p w ≡ (ok tt, w')
        → (n : ℕ) × (batch : List OutboxRow) × (batch
            ≡ next_rows (env.locked n) p.batch_size w.db.outbox)
          × (w'.published ≡ deliveries p.topic batch w.published)
          × All (λ r. select_first (pending_id r.id) w'.db.outbox ≡ none) batch
          × (map row_id w'.db.outbox ≡ map row_id w.db.outbox)
          × (w'.db ≡ record w.db { outbox = w'.db.outbox })
    batch-delivers w {w' = w'} h =
        let b = process_batch-Batch w w' h in
        let outbox : w'.db.outbox ≡ mark_all b.now b.batch w.db.outbox =
          ap (λ (db : Db). db.outbox) b.marked in
        (
          b.draws,
          b.batch,
          b.selected,
          b.published,
          rw outbox (mark_all-delivers b.now b.batch w.db.outbox),
          ap (map row_id) outbox ∙ mark_all-ids b.now b.batch w.db.outbox,
          b.marked ∙ ap (λ (rows : List OutboxRow). record w.db { outbox = rows }) (sym outbox),
        )
