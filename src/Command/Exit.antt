-- ===== src/Command/Exit.antt =====
-- What the exit status of the server says.
use skillsphere_api.Command.{
  on_event, finish, serve, serving, server_addr, set_listener, stopped, Machine, Event,
  server_failed, signalled, Outside, run_server, start_pprof, main,
}
use skillsphere_api.Common.{
  ◌≡◌, refl, subst, Option, none, some, inl, inr, Option-cases, arith, ap, ◌∙◌, sym,
}
use skillsphere_api.Errors.{Error, Result, ok, err, Result-cases}
use skillsphere_api.Database.{Process}
use skillsphere_api.Config.{Config, load}
use skillsphere_api.Startup.{Dependencies, init_dependencies, cleanup}
use skillsphere_api.Startup.Composition.{opened, init_dependencies-IsReady}

-- A start that ends with status 0: what it read and what it left.
pub record Graceful (o : Outside) (m m' : Machine) : Type 0 where
  pub dotenv : o.load_dotenv ≡ none
  pub config : Config
  pub loaded : load o.getenv ≡ ok config
  pub asked : o.event ≡ signalled
  pub answered : o.shutdown ≡ none
  pub listener : m'.listener ≡ stopped
  pub released : opened m'.process ≡ opened m.process

on_event-ok :
    (e : Event) (answer : Option Error) (m : Machine)
    → (on_event e answer m).0 ≡ ok tt
    → (e ≡ signalled) × (answer ≡ none) × ((on_event e answer m).1 ≡ set_listener stopped m)
on_event-ok (server_failed e) answer m h = ground arith
on_event-ok signalled none m h = (refl, refl, refl)
on_event-ok signalled (some e) m h = ground arith

finish-zero :
    (d : Dependencies) (r : Result (Unit {0})) (m : Machine)
    → (finish d (r, m)).0 ≡ 0
    → (r ≡ ok tt) × ((finish d (r, m)).1 ≡ record m { process = cleanup d m.process })
finish-zero d (ok a) m h = (refl, refl)
finish-zero d (err e) m h = ground arith

serve-Graceful :
    (o : Outside) (cfg : Config) (m : Machine) (d : Dependencies) (q : Process)
    → o.load_dotenv ≡ none
    → load o.getenv ≡ ok cfg
    → init_dependencies o.platform cfg m.process ≡ (ok d, q)
    → (serve o cfg (ok d, q) m).0 ≡ 0
    → Graceful o m (serve o cfg (ok d, q) m).1
unfolding run_server
serve-Graceful o cfg m d q dotenv loaded started h =
    let ready = init_dependencies-IsReady o.platform cfg d m.process q started in
    let begun =
      set_listener (serving (server_addr cfg)) (start_pprof cfg (record m { process = q })) in
    let x = run_server o cfg (start_pprof cfg (record m { process = q })) in
    let (ran, done) = finish-zero d x.0 x.1 h in
    let (asked, answered, left) = on_event-ok o.event o.shutdown begun ran in
    record {
      dotenv = dotenv;
      config = cfg;
      loaded = loaded;
      asked = asked;
      answered = answered;
      listener = ap (λ (n : Machine). n.listener) done ∙ ap (λ (n : Machine). n.listener) left;
      released =
          ap (λ (n : Machine). opened n.process) done
          ∙ ap (λ (n : Machine). opened (cleanup d n.process)) left
          ∙ ready.closes;
    }

-- If the server exits with status 0, the .env file and the configuration were read, a signal came
-- before the HTTP server failed, and the shutdown succeeded; the HTTP server is stopped, and as many
-- pools and database/sql handles are open as at the start.
pub main-Graceful : (o : Outside) (m : Machine) → (main o m).0 ≡ 0 → Graceful o m (main o m).1
unfolding main
main-Graceful o m h = elim (Option-cases o.load_dotenv) [
  | inr (e, missing) ↦ absurd (ground arith)
  | inl read ↦ elim (Result-cases (load o.getenv)) [
    | inr (e, bad) ↦ absurd (ground arith)
    | inl (cfg, loaded) ↦
        let began = init_dependencies o.platform cfg m.process in
        elim (Result-cases began.0) [
          | inr (e, failed) ↦ absurd (ground arith)
          | inl (d, started) ↦
              let pair : began ≡ (ok d, began.1) = λ i. (started i, began.1) in
              let same : main o m ≡ serve o cfg (ok d, began.1) m = rw (read, loaded, pair) refl in
              subst (λ r. Graceful o m r.1) (sym same)
                (serve-Graceful o cfg m d began.1 read loaded pair (subst (λ r. r.0 ≡ 0) same h))
        ]
  ]
]
