-- ===== src/Command.antt =====
-- cmd/server/main.go: the process of the server, from the .env file to its exit status. net/http
-- and the signals are parameters, and so is the router. The server of pprof is only started.
pub mod Exit
use skillsphere_api.Common.{
  if◌then◌else◌, ℕ, String, ◌++◌, Bool, true, false, Option, none, some, List, [],
}
use skillsphere_api.Errors.{Error, Result, ok, err, wrapped}
use skillsphere_api.Action.{Action, pure, ◌>>=◌, ◌>>◌}
use skillsphere_api.Strconv.{Bytes, ascii, itoa}
use skillsphere_api.Config.{Config, load}
use skillsphere_api.Database.{Process, fail_if, modify}
use skillsphere_api.Startup.{Dependencies, Platform, init_dependencies, cleanup}

-- The state of the HTTP server: its address while it serves.
pub data Listener : Type 0 where
  not_started stopped closed : Listener
  serving : Bytes → Listener

-- What the process holds, the HTTP server, and the address of the pprof server if it was started.
pub record Machine : Type 0 where
  pub process : Process
  pub listener : Listener
  pub pprof : Option Bytes

-- What the select of runServer receives first.
pub data Event : Type 0 where
  server_failed : Error → Event
  signalled : Event

-- godotenv.Load, the variables, what InitDependencies uses, the event of the select, and the answer
-- of srv.Shutdown within its 30 seconds.
pub record Outside : Type 0 where
  pub load_dotenv : Option Error
  pub getenv : String → Bytes
  pub platform : Platform
  pub event : Event
  pub shutdown : Option Error

abbrev pub server_addr : Config → Bytes
server_addr cfg = cfg.server.host ++ ascii ":" ++ itoa cfg.server.port

abbrev pub pprof_addr : Config → Bytes
pprof_addr cfg = ascii "localhost:" ++ itoa cfg.profiling.port

abbrev pub set_listener : Listener → Machine → Machine
set_listener l m = record m { listener = l }

-- `if err := srv.Shutdown(ctx); err != nil { srv.Close(); return … }`
abbrev pub shut_down : Option Error → Action Machine (Unit {0})
shut_down none = modify (set_listener stopped)
shut_down (some e) = do modify (set_listener closed); fail_if "graceful shutdown failed" (some e)

-- The cases of the select. A server that fails has returned from ListenAndServe.
abbrev pub on_event : Event → Option Error → Action Machine (Unit {0})
on_event (server_failed e) answer = do modify (set_listener closed); fail_if "server error" (some e)
on_event signalled answer = shut_down answer

unfoldable pub run_server : Outside → Config → Action Machine (Unit {0})
run_server o cfg = do modify (set_listener (serving (server_addr cfg))); on_event o.event o.shutdown

-- `if cfg.Profiling.Enabled { go startPprofServer(cfg, logger) }`
abbrev pub start_pprof : Config → Machine → Machine
start_pprof cfg m = record m {
  pprof = if cfg.profiling.enabled then some (pprof_addr cfg) else m.pprof;
}

-- An error of runServer ends main by os.Exit(1), which runs no deferred call; else main returns and
-- the deferred Cleanup runs.
abbrev pub finish : Dependencies → Result (Unit {0}) × Machine → ℕ × Machine
finish d (err e, m) = (1, m)
finish d (ok a, m) = (0, record m { process = cleanup d m.process })

-- main from InitDependencies on.
abbrev pub serve : Outside → Config → Result Dependencies × Process → Machine → ℕ × Machine
serve o cfg (err e, p) m = (1, record m { process = p })
serve o cfg (ok d, p) m = finish d (run_server o cfg (start_pprof cfg (record m { process = p })))

abbrev pub configured : Outside → Result Config → Machine → ℕ × Machine
configured o (err e) m = (1, m)
configured o (ok cfg) m = serve o cfg (init_dependencies o.platform cfg m.process) m

abbrev pub after_dotenv : Outside → Option Error → Machine → ℕ × Machine
after_dotenv o (some e) m = (1, m)
after_dotenv o none m = configured o (load o.getenv) m

-- main, with the exit status.
unfoldable pub main : Outside → Machine → ℕ × Machine
unfolding run_server
main o m = after_dotenv o o.load_dotenv m
