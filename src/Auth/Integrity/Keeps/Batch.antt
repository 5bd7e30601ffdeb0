-- ===== src/Auth/Integrity/Keeps/Batch.antt =====
-- The batches of the outbox worker, which share the database with the service.
use skillsphere_api.Errors.{Result, ok, err, message}
use skillsphere_api.Common.{Option, none, some, refl, ◌≡◌, String, arith, ℕ, not, List, [], ◌∷◌}
use skillsphere_api.Action.{◌>>=◌, ◌>>◌, continue, Action}
use skillsphere_api.World.{
  tx_statement, run_in_tx, begin_tx, begin_on, commit, commit_on, World, Env, advance,
}
use skillsphere_api.Records.{OutboxRow}
use skillsphere_api.Ontology.Emitter.{wrapping}
use skillsphere_api.Ontology.Sinks.{publish, insert_triples}
use skillsphere_api.Ontology.Processor.{
  OutboxProcessor, server_call, mark_row, dispatch, deliver_all, read_batch, deliver_at,
  deliver_batch, process_batch,
}
use skillsphere_api.Auth.Integrity.{IsValid, outbox-IsValid}
use skillsphere_api.Auth.Integrity.Keeps.{Keeps, >>=-Keeps, raise_if-Keeps}

-- The tables and what the open transaction sees stay valid.
record KeepsBoth {A : Type 0} (m : Action World A) : Type 0 where
  keeps : (w : World) → IsValid w.db → IsValid w.tx → IsValid (m w).1.db × IsValid (m w).1.tx

>>=-KeepsBoth :
    {A B : Type 0} {m : Action World A} {f : A → Action World B}
    → KeepsBoth m
    → ((a : A) → KeepsBoth (f a))
    → KeepsBoth (m >>= f)
>>=-KeepsBoth {m = m} {f = f} k next = record {
  keeps = λ w v t. let (v', t') = k.keeps w v t in go (m w).0 (m w).1 v' t';
}
  where
    go :
        (r : Result _) (w : World)
        → IsValid w.db
        → IsValid w.tx
        → IsValid (continue r f w).1.db × IsValid (continue r f w).1.tx
    go (ok a) w v t = (next a).keeps w v t
    go (err e) w v t = (v, t)

-- A method that changes neither.
quiet :
    {A : Type 0} {m : Action World A}
    → ((w : World) → (m w).1.db ≡ w.db)
    → ((w : World) → (m w).1.tx ≡ w.tx)
    → KeepsBoth m
quiet same same' = record { keeps = λ w v t. (rw (same w) v, rw (same' w) t) }

module _ (env : Env) (p : OutboxProcessor) where
  call-KeepsBoth : (context : String) → KeepsBoth (wrapping context (server_call env))
  call-KeepsBoth context = quiet (λ w. ground arith) (λ w. ground arith)

  mark-KeepsBoth :
      (now id : ℕ) → KeepsBoth (wrapping "mark delivered" (tx_statement env (mark_row now id)))
  unfolding mark_row
  mark-KeepsBoth now id = record { keeps = λ w v t. go (env.fault w.draws) w v t }
    where
      go :
          (o : Option ℕ) (w : World)
          → IsValid w.db
          → IsValid w.tx
          → let out = (wrapping "mark delivered" (run_in_tx o (mark_row now id)) w).1 in
            IsValid out.db × IsValid out.tx
      go (some e) w v t = (v, t)
      go none w v t = (v, outbox-IsValid w.tx (mark_row now id w.tx).1 refl refl refl refl t)

  dispatch-KeepsBoth : (payload : String) → KeepsBoth (dispatch env p payload)
  unfolding dispatch publish insert_triples
  dispatch-KeepsBoth payload = quiet (λ w. ground arith) (λ w. ground arith)

  deliver_all-KeepsBoth :
      (now : ℕ) (batch : List OutboxRow) → KeepsBoth (deliver_all env p now batch)
  unfolding deliver_all
  deliver_all-KeepsBoth now [] = record { keeps = λ w v t. (v, t) }
  deliver_all-KeepsBoth now (r ∷ l) =
      >>=-KeepsBoth (dispatch-KeepsBoth r.payload)
        (λ _. >>=-KeepsBoth (mark-KeepsBoth now r.id) (λ _. deliver_all-KeepsBoth now l))

  read-KeepsBoth : KeepsBoth (read_batch env p)
  unfolding read_batch
  read-KeepsBoth = quiet (λ w. ground arith) (λ w. ground arith)

  commit-KeepsBoth : KeepsBoth (commit env)
  commit-KeepsBoth = record { keeps = λ w v t. go (env.fault w.draws) w v t }
    where
      go :
          (o : Option ℕ) (w : World)
          → IsValid w.db
          → IsValid w.tx
          → IsValid (commit_on o w).1.db × IsValid (commit_on o w).1.tx
      go (some e) w v t = (v, t)
      go none w v t = (t, t)

  deliver_at-KeepsBoth : (now : ℕ) → KeepsBoth (deliver_at env p now)
  unfolding deliver_at
  deliver_at-KeepsBoth now = >>=-KeepsBoth read-KeepsBoth (λ batch.
      >>=-KeepsBoth (call-KeepsBoth "scan outbox row") (λ _.
        >>=-KeepsBoth (call-KeepsBoth "iterate outbox rows")
          (λ _. >>=-KeepsBoth (deliver_all-KeepsBoth now batch) (λ _. commit-KeepsBoth))))

  -- A batch on the transaction that it begins.
  begun-Keeps : Keeps (do wrapping "begin tx" (begin_tx env); deliver_batch env p)
  unfolding deliver_batch
  begun-Keeps = record { keeps = λ w v. go (env.fault w.draws) w v }
    where
      go :
          (o : Option ℕ) (w : World)
          → IsValid w.db
          → IsValid ((do wrapping "begin tx" (begin_on o); deliver_batch env p) w).1.db
      go (some e) w v = v
      go none w v =
          let w1 = advance (record (advance w) { tx = w.db }) in
          ((deliver_at-KeepsBoth (env.now (advance w).draws)).keeps w1 v v).0

  pub process_batch-Keeps : Keeps (process_batch env p)
  unfolding process_batch
  process_batch-Keeps =
      >>=-Keeps (raise_if-Keeps (not p.has_db) (message "outbox processor uninitialized"))
        (λ _. begun-Keeps)
