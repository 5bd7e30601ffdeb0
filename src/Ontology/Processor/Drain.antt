-- ===== src/Ontology/Processor/Drain.antt =====
-- How many rows are left pending by the batches of the outbox, when nothing is in their way.
use skillsphere_api.Ontology.Processor.Progress.{batch-succeeds}
use skillsphere_api.Ontology.Processor.Batches.{process_batch-Batch}
use skillsphere_api.Ontology.Processor.Marking.{mark_all}
use skillsphere_api.Common.{
  ℕ, zero, suc, ◌+◌, ◌-◌, ◌*◌, ◌≤◌, String, ◌≡◌, refl, sym, ap, ◌∙◌, Bool, true, false, not, ◌&&◌,
  ◌||◌, some, none, List, [], ◌∷◌, arith, ◌==◌, is_empty, if◌then◌else◌, select_all, update_where,
  take, length,
}
use skillsphere_api.Errors.{Error, ok}
use skillsphere_api.Records.{OutboxRow}
use skillsphere_api.World.{Db, World, Env}
use skillsphere_api.Ontology.Sinks.{Producer, has_output}
use skillsphere_api.Ontology.Processor.{
  OutboxProcessor, is_pending, next_rows, insert_by_time, order_by_time, process_batch,
  run_processor, dispatch,
}

-- The number of rows that pass a test.
abbrev pub count : (OutboxRow → Bool) → List OutboxRow → ℕ
count q [] = 0
count q (r ∷ l) = (if q r then 1 else 0) + count q l

abbrev pub among : ℕ → List OutboxRow → Bool
among k [] = false
among k (r ∷ l) = (r.id == k) || among k l

-- The rows that a batch marks.
abbrev hit : List OutboxRow → OutboxRow → Bool
hit batch r = among r.id batch

count-insert_by_time :
    (q : OutboxRow → Bool) (r : OutboxRow) (l : List OutboxRow)
    → count q (insert_by_time r l) ≡ count q (r ∷ l)
unfolding insert_by_time
count-insert_by_time q r [] = refl
count-insert_by_time q r (x ∷ l) = ground (arith, count-insert_by_time q r l)

count-order_by_time :
    (q : OutboxRow → Bool) (l : List OutboxRow) → count q (order_by_time l) ≡ count q l
unfolding order_by_time
count-order_by_time q [] = refl
count-order_by_time q (r ∷ l) =
    count-insert_by_time q r (order_by_time l)
    ∙ ap (λ n. (if q r then 1 else 0) + n) (count-order_by_time q l)

count-take : (q : OutboxRow → Bool) (n : ℕ) (l : List OutboxRow) → count q (take n l) ≤ count q l
count-take q zero l = ground arith
count-take q (suc n) [] = ground arith
count-take q (suc n) (r ∷ l) = ground (arith, count-take q n l)

count-select_all :
    (q t : OutboxRow → Bool) (l : List OutboxRow)
    → count q (select_all t l) ≡ count (λ r. t r && q r) l
count-select_all q t [] = refl
count-select_all q t (r ∷ l) = ground (arith, count-select_all q t l)

-- The rows that pass a test are those that pass a second one too, and those that do not.
count-split :
    (q t : OutboxRow → Bool) (l : List OutboxRow)
    → count q l ≡ count (λ r. q r && t r) l + count (λ r. q r && not (t r)) l
count-split q t [] = refl
count-split q t (r ∷ l) = ground (arith, count-split q t l)

count_all : (q : OutboxRow → Bool) (l : List OutboxRow) → count q l ≤ length l
count_all q [] = ground arith
count_all q (r ∷ l) = ground (arith, count_all q l)

-- Every row of a batch is among it.
count-among_more : (x : OutboxRow) (b l : List OutboxRow) → count (hit b) l ≤ count (hit (x ∷ b)) l
count-among_more x b [] = ground arith
count-among_more x b (r ∷ l) = ground (arith, count-among_more x b l)

count-hit : (batch : List OutboxRow) → count (hit batch) batch ≡ length batch
count-hit [] = refl
count-hit (r ∷ l) = ground (arith, count-hit l, count-among_more r l l, count_all (hit (r ∷ l)) l)

count-mark :
    (now : ℕ) (r : OutboxRow) (batch rows : List OutboxRow)
    → count
        (λ x. is_pending x && not (hit batch x))
        (update_where (λ x. x.id == r.id) (λ x. record x { delivered_at = some now }) rows)
      ≡ count (λ x. is_pending x && not (hit (r ∷ batch) x)) rows
count-mark now r batch [] = refl
count-mark now r batch (x ∷ rows) = ground (arith, count-mark now r batch rows)

-- What is pending after the marking of a batch.
count-mark_all :
    (now : ℕ) (batch rows : List OutboxRow)
    → count is_pending (mark_all now batch rows)
      ≡ count (λ r. is_pending r && not (hit batch r)) rows
count-mark_all now [] rows = unmarked rows
  where
    unmarked :
        (l : List OutboxRow) → count is_pending l ≡ count (λ x. is_pending x && not (hit [] x)) l
    unmarked [] = refl
    unmarked (x ∷ l) = ground (arith, unmarked l)
count-mark_all now (r ∷ batch) rows = count-mark_all now batch _ ∙ count-mark now r batch rows

length-take : (n : ℕ) (l : List OutboxRow) → length l - length (take n l) ≤ length l - n
length-take zero l = ground arith
length-take (suc n) [] = ground arith
length-take (suc n) (r ∷ l) = ground (arith, length-take n l)

length-select_all-none :
    (locked : ℕ → Bool) (l : List OutboxRow)
    → ((n : ℕ) → locked n ≡ false)
    → select_all (λ r. not (locked r.id)) l ≡ l
length-select_all-none locked [] free = refl
length-select_all-none locked (r ∷ l) free =
    rw (free r.id) (ap (λ x. r ∷ x) (length-select_all-none locked l free))

length-select_all :
    (q : OutboxRow → Bool) (l : List OutboxRow) → length (select_all q l) ≡ count q l
length-select_all q [] = refl
length-select_all q (r ∷ l) = ground (arith, length-select_all q l)

-- The count of the test that always holds.
count_every : (l : List OutboxRow) → count (λ r. true) l ≡ length l
count_every [] = refl
count_every (r ∷ l) = ground (arith, count_every l)

length-order_by_time : (l : List OutboxRow) → length (order_by_time l) ≡ length l
length-order_by_time l =
    sym (count_every (order_by_time l)) ∙ count-order_by_time (λ r. true) l ∙ count_every l

-- A batch of an outbox without locked rows leaves all but so many rows of the pending ones.
pub next_rows-drains :
    (locked : ℕ → Bool) (size now : ℕ) (rows : List OutboxRow)
    → ((n : ℕ) → locked n ≡ false)
    → count is_pending (mark_all now (next_rows locked size rows) rows)
      ≤ count is_pending rows - size
unfolding next_rows
next_rows-drains locked size now rows free =
    let queue = order_by_time (select_all is_pending rows) in
    let batch = take size queue in
    rw (length-select_all-none locked queue free, count-mark_all now batch rows)
      (omega (
        arith,
        count-split is_pending (hit batch) rows,
        count-hit batch,
        count-take (hit batch) size queue,
        count-order_by_time (hit batch) (select_all is_pending rows),
        count-select_all (hit batch) is_pending rows,
        length-order_by_time (select_all is_pending rows),
        length-select_all is_pending rows,
        length-take size queue,
      ))

module _ (env : Env) (p : OutboxProcessor) (k : Producer) (set : p.kafka ≡ some k)
    (out : has_output k ≡ true) (topic : is_empty p.topic ≡ false)
    (runs : (n : ℕ) → env.fault n ≡ none) (free : (n id : ℕ) → env.locked n id ≡ false)
    (sinks : (payload : String) (w : World) → (dispatch env p payload w).0 ≡ ok tt)
    (has : p.has_db ≡ true) where
  batch-drains :
      (w : World)
      → count is_pending (process_batch env p w).1.db.outbox
        ≤ count is_pending w.db.outbox - p.batch_size
  batch-drains w =
      let w' = (process_batch env p w).1 in
      let success = batch-succeeds env p runs sinks w has in
      let b = process_batch-Batch env p k set out topic w w' (λ i. (success i, w')) in
      rw (ap (λ (db : Db). db.outbox) b.marked, b.selected)
        (next_rows-drains (env.locked b.draws) p.batch_size b.now w.db.outbox (free b.draws))

  -- Where the server runs every statement, no row is locked, the sinks accept every payload and
  -- the producer has a topic, each tick of the loop takes a batch's size off the number of rows
  -- that are pending, until none is: so many rows are left when the loop is cancelled.
  pub run_processor-drains :
      (cancelled : Error) (ticks : ℕ) (w : World)
      → count is_pending (run_processor env p cancelled ticks w).1.db.outbox
        ≤ count is_pending w.db.outbox - suc ticks * p.batch_size
  unfolding run_processor
  run_processor-drains cancelled zero w =
      rw (batch-succeeds env p runs sinks w has) (omega (arith, batch-drains w))
  run_processor-drains cancelled (suc ticks) w = rw (batch-succeeds env p runs sinks w has) (
      omega (arith, batch-drains w, run_processor-drains cancelled ticks (process_batch env p w).1))
