-- ===== src/Lib.antt =====
-- A verification library for the Go code of skillsphere-api: accounts and sessions behind Connect
-- RPCs, and the events that leave through an outbox.
--
-- Parts and files
--
-- - A request passes the chain of interceptors of cmd/api/router.go (Interceptors/Chain): request
--   id, tracing, validation (of a library, a parameter), rate limit, recovery, logging,
--   authentication (Interceptors/Auth), metrics. Interceptors/Limits models
--   pkg/interceptors/rate_limit.go, recovery.go and request_id.go; Interceptors/Telemetry models
--   logging.go, tracing.go and pkg/observability/metrics.go. A unary call is a function over the
--   state of a server; it returns a response and an error, or it panics (Interceptors/Server). A response may be the nil
--   interface or, as of a handler that fails, a nil pointer in an interface.
--   Interceptors/Streams has the wrappers of streaming calls. Interceptors/Chain/Passage and
--   Authentication follow a call through the whole chain to its handler.
-- - cmd/api/router.go is Router: the routes and their handlers, with the switch of
--   gen/…/authv1connect/auth.connect.go (Router/Rpcs), which leads a path to the method of the
--   handler, behind the chain. Router/Calls follows ChangePassword from the request to the tables.
-- - The handlers of internal/domain/auth/handler (Auth/Handler) check the request, call the
--   service and turn its result into a response (Auth/Presenter) or a Connect error.
-- - internal/domain/auth/service/auth_service.go is split by what its methods serve:
--   Auth/Registration (RegisterUser as register_user, VerifyEmail as confirm_email,
--   ResendVerificationEmail), Auth/Sessions (Login, Logout, RefreshTokens, ValidateAccessToken as
--   check_access_token) and Auth/Passwords (RequestPasswordReset, ResetPassword, ChangePassword),
--   over the shared Auth/Service. token_manager.go is Auth/Tokens, password.go is Password,
--   oauth.go is Auth/Oauth and email_service.go is Auth/Email, which sends the mails that the
--   service starts. Sequences of calls are in Auth/Registration/Journey, Auth/Passwords/Journey,
--   Auth/Passwords/Revocation and Auth/Email/Activation.
-- - internal/domain/auth/repository is Auth/Repository over the rows of Records. A method is a
--   statement on tables that are lists of rows, with the constraints of pkg/db/migrations.
-- - Auth/Integrity states what the migrations ask of the tables (keys that are unique, owners that
--   exist), under the insertions, and Auth/Integrity/Changes under the updates and deletions;
--   Auth/Integrity/Keeps goes through the methods that write, and History through any
--   sequence of calls of the handlers and of the worker. Auth/Integrity/SessionStore gives the
--   abstract view of the sessions, a map from the hash of a refresh token.
-- - internal/ontology: event.go is Ontology/Event, auth_events.go Ontology/AuthEvents,
--   session_events.go Ontology/SessionEvents, emitter.go and outbox_emitter.go Ontology/Emitter,
--   sinks.go Ontology/Sinks and outbox_processor.go Ontology/Processor.
--   A batch of the outbox is taken apart in Processor/Marking (the rows), Processor/Delivery (the
--   steps) and Processor/Batches, the loop of the worker in Processor/Drain and Progress.
-- - internal/domain/matching/service is Matching, internal/domain/session/service is Scheduling.
--   They save through a repository, a parameter, and emit an event.
-- - pkg/config/config.go is Config, pkg/db/postgres.go is Database and cmd/api/dependencies.go is
--   Startup, which puts the parts together: it opens the pool with the connection string of the
--   configuration, wires the emitters and makes the auth service. Strconv has what they use of
--   strconv and fmt. Here a text is its bytes.
-- - cmd/server/main.go is Command: the start of the process, the HTTP server's life as an event and
--   the answer to a shutdown, and the exit status.
-- - cmd/ontologyworker/main.go is Worker: the configuration, the outbox processor and its loop.
-- - ontology/cmd/generate/main.go is Generator: the names and labels of the concepts that the enums
--   of the protobuf files become, and in Generator/Document the Turtle text, the reading of
--   the descriptor set and the writing of the file.
-- - Common, Errors, Action and World hold what all share: Boolean tests and lists, Go's error
--   values with errors.Is, methods over a state that may fail, and the state with its environment.
--   Tests holds one concrete environment and the theorems applied on it.
--
-- State and environment
--
-- The state (World) is the tables, the mails for which a goroutine was started, what was sent,
-- published and inserted, and the number of draws from outside so far. Each reading of the clock,
-- new UUID, random text and statement of the database is one draw; the environment (Env) answers
-- by the number of the draw, so every sequence of answers is covered, failures of the server
-- included. Hashes, bcrypt, JWT, JSON and the tables of unicode are fields of the environment. A
-- method returns its result and the state, so what was written before an error stays written; only
-- the outbox processor has a transaction, whose statements read and write what it sees (tx), which
-- becomes the tables by Commit. Beside the World, the
-- interceptors keep their log, their spans and their collectors (Server), the sender of mails its
-- printed lines and its calls of SMTP (Post), and a process its pools and handles (Process). A write
-- of a file that fails may leave another text in it.
--
-- Bounds and fuel
--
-- Times and durations are natural numbers of nanoseconds. UUIDs and errors of libraries are
-- numbers. A batch is at most 100 rows, as in the code. Every loop is structural but for Run,
-- which is a recursion on the number of ticks before its context is cancelled. An int has 64 bits; it
-- is printed with a fuel of 20 digits, and an int has at most 19. WaitForDB makes 5 attempts.
--
-- Not modelled
--
-- The mux of net/http, the codecs of connect, the pages of pprof and of Prometheus, and the clients
-- in gen, which are parameters or are not used; the other services in gen, which the server does not
-- register; the SQL of pkg/db/migrations but for its constraints. Requests run one at a time:
-- between the statements of one call no other call writes. Debug lines of the logger and durations
-- are left out. Of the span of a trace its name, its service and its failure are kept.
pub mod Common
pub mod Errors
pub mod Action
pub mod Password
pub mod Records
pub mod World
pub mod Ontology
pub mod Interceptors
pub mod Auth
pub mod Matching
pub mod Scheduling
pub mod Strconv
pub mod Config
pub mod Database
pub mod Startup
pub mod Router
pub mod Command
pub mod Worker
pub mod Generator
pub mod Tests
