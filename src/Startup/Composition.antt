-- ===== src/Startup/Composition.antt =====
-- What InitDependencies puts together, and what it holds open.
use skillsphere_api.Common.{
  subst, ◌*◌, String, ℕ, zero, suc, ◌-◌, ◌≡◌, refl, sym, ap, ◌∙◌, Bool, true, false, some, arith,
  inl, inr, Option-cases, ◌∷◌,
}
use skillsphere_api.Startup.{
  finish_init, no_dependencies, minute, pool_settings, with_services, in_step, Dependencies,
  Platform, init_database, init_repositories, init_services, init_ontology_emitter, init_handlers,
  init_dependencies, cleanup,
}
use skillsphere_api.Errors.{Result, ok, err}
use skillsphere_api.Action.{Action, lift, ◌>>=◌, continue, >>=-eq-ok}
use skillsphere_api.Config.{Config}
use skillsphere_api.Database.{
  Db, DbConfig, Driver, Process, new, run_migrations, close, attempts_from, wait_for_db, wrapping,
  open_pool, mask_dsn,
}
use skillsphere_api.Auth.Tokens.{TokenManager, init_token_manager}
use skillsphere_api.Auth.Service.{new_auth_service}
use skillsphere_api.Ontology.Emitter.{outbox_then_log}

-- The pools and the database/sql handles that are open.
abbrev pub opened : Process → ℕ × ℕ
opened p = (p.pools, p.handles)

abbrev pub is_ok {ℓ} : {A : Type ℓ} → Result A → Bool
is_ok (ok a) = true
is_ok (err e) = false

abbrev pub one_more_if : Bool → ℕ → ℕ
one_more_if true n = suc n
one_more_if false n = n

pair-eq : {a b c d : ℕ} → Path (ℕ × ℕ) (a, b) (c, d) → (a ≡ c) × (b ≡ d)
pair-eq e = (ap (λ x. x.0) e, ap (λ x. x.1) e)

module _ (driver : Driver) where
  attempts_from-opened :
      (left attempt : ℕ) (p : Process) → opened (attempts_from driver left attempt p).1 ≡ opened p
  unfolding attempts_from
  attempts_from-opened zero attempt p = refl
  attempts_from-opened (suc left) attempt p = elim (Option-cases (driver.ping p.pings)) [
    | inl answered ↦ rw answered refl
    | inr (e, failed) ↦ rw failed (attempts_from-opened left (suc attempt) _)
  ]

  -- New leaves a pool open exactly where it returns one.
  pub new-opened :
      (cfg : DbConfig) (p : Process)
      → let (r, q) = new driver cfg p in opened q ≡ (one_more_if (is_ok r) p.pools, p.handles)
  unfolding new wait_for_db
  new-opened cfg p =
      let started = open_pool (record p { dsn_hosts = mask_dsn cfg.dsn ∷ p.dsn_hosts }) in
      let (same_pools, same_handles) = pair-eq (attempts_from-opened 5 1 started) in ground arith

  run_migrations-opened : (db : Db) (p : Process) → opened (run_migrations driver db p).1 ≡ opened p
  unfolding run_migrations
  run_migrations-opened db p = ground arith

module _ (platform : Platform) where
  init_database-ok :
      (d d' : Dependencies) (p q : Process)
      → init_database platform d p ≡ (ok d', q)
      → (database : Db) × (d' ≡ record d { db = some database })
        × (opened q ≡ (suc p.pools, p.handles))
  unfolding init_database
  init_database-ok d d' p q h =
      let cfg = pool_settings d.config in
      let (database, made, rest) = >>=-eq-ok (new platform.driver cfg) _ p h in
      let (pools, handles) = pair-eq (new-opened platform.driver cfg p) in
      let (pools', handles') =
        pair-eq (run_migrations-opened platform.driver database (new platform.driver cfg p).1) in
      (database, ground arith, ground arith)

  init_repositories-ok :
      (d d' : Dependencies) (p q : Process)
      → init_repositories platform d p ≡ (ok d', q)
      → (d' ≡ record d { has_sql_db = true; has_auth_repo = true })
        × (opened q ≡ (p.pools, suc p.handles))
  unfolding init_repositories
  init_repositories-ok d d' p q h = ground arith

  init_services-ok :
      (d d' : Dependencies) (p q : Process)
      → init_services platform d p ≡ (ok d', q)
      → (tm : TokenManager) × (init_token_manager (platform.text d.config.auth.jwt_secret) ≡ ok tm)
        × (d' ≡ with_services platform d tm)
        × (q ≡ p)
  unfolding init_services
  init_services-ok d d' p q h =
      let (tm, made, rest) =
        >>=-eq-ok (lift (init_token_manager (platform.text d.config.auth.jwt_secret))) _ p h in
      (tm, ground arith, ground arith, ground arith)

  in_step-ok :
      (context : String) (m : Action Process Dependencies)
      (f : Dependencies → Action Process Dependencies) (p q : Process) (d : Dependencies)
      → (in_step context m >>= f) p ≡ (ok d, q)
      → (a : Dependencies) × (p' : Process) × (m p ≡ (ok a, p')) × (f a p' ≡ (ok d, q))
  in_step-ok context m f p q d h = unwrap (m p) h
    where
      unwrap :
          (x : Result Dependencies × Process)
          → continue
              (wrapping {S = Process} context x.0 x.1).0
              f
              (wrapping {S = Process} context x.0 x.1).1
            ≡ (ok d, q)
          → (a : Dependencies) × (p' : Process) × (x ≡ (ok a, p')) × (f a p' ≡ (ok d, q))
      unwrap (ok a, p') e = (a, p', refl, e)
      unwrap (err e', p') e = ground arith

  last-ok :
      (d d' : Dependencies) (p q : Process)
      → in_step "failed to init handlers" (init_handlers platform d) p ≡ (ok d', q)
      → (d' ≡ record d { auth_handler = d.auth_service }) × (q ≡ p)
  unfolding init_handlers
  last-ok d d' p q h = ground arith

  -- What the process holds, and what the handler works with.
  pub record IsReady (cfg : Config) (p : Process) (d : Dependencies) (q : Process) : Type 0 where
    pub opens : opened q ≡ (suc p.pools, suc p.handles)
    pub closes : opened (cleanup d q) ≡ opened p
    pub handles : d.auth_handler ≡ d.auth_service
    pub token_manager : TokenManager
    pub made : init_token_manager (platform.text cfg.auth.jwt_secret) ≡ ok token_manager
    pub service :
        d.auth_service
        ≡ some
            (new_auth_service token_manager true (some outbox_then_log) (30 * (24 * (60 * minute))))

  init_ontology_emitter-sql :
      (d : Dependencies)
      → d.has_sql_db ≡ true
      → init_ontology_emitter platform d ≡ record d { ontology_emitter = outbox_then_log }
  unfolding init_ontology_emitter
  init_ontology_emitter-sql d h = rw h refl

  assembled :
      (cfg : Config) (d1 d2 d3 d : Dependencies) (p p1 p2 p3 q : Process) (database : Db)
      (tm : TokenManager)
      → d1 ≡ record (no_dependencies cfg) { db = some database }
      → opened p1 ≡ (suc p.pools, p.handles)
      → d2 ≡ record d1 { has_sql_db = true; has_auth_repo = true }
      → opened p2 ≡ (p1.pools, suc p1.handles)
      → init_token_manager
          (platform.text (init_ontology_emitter platform d2).config.auth.jwt_secret)
        ≡ ok tm
      → d3 ≡ with_services platform (init_ontology_emitter platform d2) tm
      → p3 ≡ p2
      → d ≡ record d3 { auth_handler = d3.auth_service }
      → q ≡ p3
      → IsReady cfg p d q
  unfolding cleanup close
  assembled cfg d1 d2 d3 d p p1 p2 p3 q database tm is1 open1 is2 open2 made is3 same3 is same =
      let emits = init_ontology_emitter-sql d2 (ap (λ x. x.has_sql_db) is2) in
      let served = is3 ∙ ap (λ x. with_services platform x tm) emits in
      let held : d.db ≡ some database =
        ap (λ x. x.db) is ∙ ap (λ x. x.db) served ∙ ap (λ x. x.db) is2 ∙ ap (λ x. x.db) is1 in
      let sql : d.has_sql_db ≡ true =
        ap (λ x. x.has_sql_db) is ∙ ap (λ x. x.has_sql_db) served ∙ ap (λ x. x.has_sql_db) is2 in
      let config : (init_ontology_emitter platform d2).config ≡ cfg =
        ap (λ x. x.config) emits ∙ ap (λ x. x.config) is2 ∙ ap (λ x. x.config) is1 in
      let (pools1, handles1) = pair-eq open1 in
      let (pools, handles) = pair-eq (ap opened (same ∙ same3) ∙ open2) in
      let fewer : q.pools - 1 ≡ p.pools = omega (arith, pools ∙ pools1) in
      let released : q.handles - 1 ≡ p.handles = omega (arith, handles ∙ ap suc handles1) in
      record {
        opens = λ i. ((pools ∙ pools1) i, (handles ∙ ap suc handles1) i);
        closes = rw (held, sql) (λ i. (fewer i, released i));
        handles = ap (λ x. x.auth_handler) is ∙ sym (ap (λ x. x.auth_service) is);
        token_manager = tm;
        made =
            subst (λ c. init_token_manager (platform.text c.auth.jwt_secret) ≡ ok tm) config made;
        service = ap (λ x. x.auth_service) is ∙ ap (λ x. x.auth_service) served;
      }

  -- Where InitDependencies succeeds, one pool and one database/sql handle more are open than
  -- before, and Cleanup closes both; the handler works with the auth service, which issues its
  -- tokens with the configured secret and emits its events to the outbox and to the log.
  pub init_dependencies-IsReady :
      (cfg : Config) (d : Dependencies) (p q : Process)
      → init_dependencies platform cfg p ≡ (ok d, q)
      → IsReady cfg p d q
  unfolding init_dependencies init_handlers
  init_dependencies-IsReady cfg d p q h =
      let (d1, p1, run1, rest1) =
        in_step-ok _ (init_database platform (no_dependencies cfg)) (finish_init platform) p q d
          h in
      let (database, is1, open1) = init_database-ok (no_dependencies cfg) d1 p p1 run1 in
      let (d2, p2, run2, rest2) = in_step-ok _ (init_repositories platform d1) _ p1 q d rest1 in
      let (is2, open2) = init_repositories-ok d1 d2 p1 p2 run2 in
      let (d3, p3, run3, rest3) =
        in_step-ok _ (init_services platform (init_ontology_emitter platform d2)) _ p2 q d rest2 in
      let (tm, made, is3, same) =
        init_services-ok (init_ontology_emitter platform d2) d3 p2 p3 run3 in
      let (is, last) = last-ok d3 d p3 q rest3 in
      assembled cfg d1 d2 d3 d p p1 p2 p3 q database tm is1 open1 is2 open2 made is3 same is last
