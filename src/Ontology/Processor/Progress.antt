-- ===== src/Ontology/Processor/Progress.antt =====
-- When a batch of the outbox succeeds.
use skillsphere_api.Common.{ℕ, String, ◌≡◌, true, none, List, [], ◌∷◌, arith}
use skillsphere_api.Errors.{ok}
use skillsphere_api.Action.{Action, ◌>>=◌, ◌>>◌}
use skillsphere_api.Records.{OutboxRow}
use skillsphere_api.World.{World, Env, advance, tx_statement, begin_tx, commit}
use skillsphere_api.Ontology.Emitter.{wrapping}
use skillsphere_api.Ontology.Processor.{
  OutboxProcessor, next_rows, mark_row, server_call, dispatch, deliver_all, read_batch, deliver_at,
  deliver_batch, process_batch,
}

then-ok :
    {A B : Type 0} (m : Action World A) (f : A → Action World B) (w : World) (a : A) (b : B)
    → (m w).0 ≡ ok a
    → (f a (m w).1).0 ≡ ok b
    → ((m >>= f) w).0 ≡ ok b
then-ok m f w a b h k = ground arith

module _ (env : Env) (p : OutboxProcessor) (runs : (n : ℕ) → env.fault n ≡ none) where
  mark-succeeds :
      (now id : ℕ) (w : World)
      → (wrapping "mark delivered" (tx_statement env (mark_row now id)) w).0 ≡ ok tt
  unfolding mark_row
  mark-succeeds now id w = ground (arith, runs w.draws)

  begin-succeeds : (w : World) → (wrapping "begin tx" (begin_tx env) w).0 ≡ ok tt
  begin-succeeds w = ground (arith, runs w.draws)

  commit-succeeds : (w : World) → (commit env w).0 ≡ ok tt
  commit-succeeds w = ground (arith, runs w.draws)

  wrapped-succeeds :
      (context : String) (w : World) → (wrapping context (server_call env) w).0 ≡ ok tt
  wrapped-succeeds context w = ground (arith, runs w.draws)

  read-succeeds :
      (w : World)
      → (read_batch env p w).0 ≡ ok (next_rows (env.locked w.draws) p.batch_size w.tx.outbox)
  unfolding read_batch
  read-succeeds w = ground (arith, runs w.draws)

  module _ (sinks : (payload : String) (w : World) → (dispatch env p payload w).0 ≡ ok tt) where
    deliver_all-succeeds :
        (now : ℕ) (batch : List OutboxRow) (w : World) → (deliver_all env p now batch w).0 ≡ ok tt
    unfolding deliver_all
    deliver_all-succeeds now [] w = ground arith
    deliver_all-succeeds now (r ∷ l) w =
        let m1 = dispatch env p r.payload in
        let m2 = wrapping "mark delivered" (tx_statement env (mark_row now r.id)) in
        then-ok m1 _ w tt tt (sinks r.payload w) (
          then-ok m2 (λ _. deliver_all env p now l) (m1 w).1 tt tt (mark-succeeds now r.id (m1 w).1)
            (deliver_all-succeeds now l (m2 (m1 w).1).1))

    deliver_at-succeeds : (now : ℕ) (w : World) → (deliver_at env p now w).0 ≡ ok tt
    unfolding deliver_at
    deliver_at-succeeds now w =
        let m1 = read_batch env p in
        let m2 = wrapping "scan outbox row" (server_call env) in
        let m3 = wrapping "iterate outbox rows" (server_call env) in
        let batch = next_rows (env.locked w.draws) p.batch_size w.tx.outbox in
        let m4 = deliver_all env p now batch in
        let w1 = (m1 w).1 in
        let w2 = (m2 w1).1 in
        let w3 = (m3 w2).1 in
        then-ok m1 _ w batch tt (read-succeeds w) (
          then-ok m2 _ w1 tt tt (wrapped-succeeds "scan outbox row" w1) (
            then-ok m3 (λ _. m4 >> commit env) w2 tt tt (wrapped-succeeds "iterate outbox rows" w2)
              (then-ok m4 (λ _. commit env) w3 tt tt (deliver_all-succeeds now batch w3)
                (commit-succeeds (m4 w3).1))))

    -- Where the server runs every statement and the sinks accept every payload, a batch of a
    -- processor with a database succeeds.
    pub batch-succeeds : (w : World) → p.has_db ≡ true → (process_batch env p w).0 ≡ ok tt
    unfolding process_batch deliver_batch
    batch-succeeds w has =
        let m2 = wrapping "begin tx" (begin_tx env) in
        let w1 = (m2 w).1 in
        simp has (
          then-ok m2 (λ _. deliver_batch env p) w tt tt (begin-succeeds w)
            (deliver_at-succeeds (env.now w1.draws) (advance w1)))
