-- ===== src/Interceptors/Telemetry.antt =====
-- pkg/interceptors/logging.go and tracing.go, and pkg/observability/metrics.go. Durations are
-- not modelled: what counts is that one is observed.
pub mod Metrics
use Prim.Native.Char.{code}
use skillsphere_api.Common.{
  ℕ, String, ◌+◌, ◌-◌, true, false, Option, none, some, List, [], ◌∷◌, ◌==◌, str_eq, is_empty,
  if◌then◌else◌,
}
use skillsphere_api.Errors.{
  Error, Code, connect_error, invalid_argument, unauthenticated, permission_denied, not_found,
  already_exists, resource_exhausted, unimplemented, internal,
}
use skillsphere_api.Interceptors.Context.{Context, Request}
use skillsphere_api.Interceptors.Server.{
  Server, Outcome, Interceptor, LogLine, rpc_started, rpc_completed, rpc_failed, returns, panics,
}

abbrev pub log_line : LogLine → Server → Server
log_line l v = record v { log = l ∷ v.log }

-- appendLoggerFields: the request id, if it is there and not "".
abbrev pub logged_id : Option String → Option String
logged_id none = none
logged_id (some id) = if is_empty id then none else some id

-- The line after the call; a panic leaves none.
abbrev pub log_outcome : Context → Request → Outcome × Server → Outcome × Server
log_outcome ctx req (panics r, v) = (panics r, v)
log_outcome ctx req (returns resp none, v) =
    (returns resp none, log_line (rpc_completed req.procedure (logged_id ctx.request_id)) v)
log_outcome ctx req (returns resp (some e), v) =
    (returns resp (some e), log_line (rpc_failed req.procedure (logged_id ctx.request_id)) v)

unfoldable pub logging_interceptor : Interceptor
logging_interceptor next ctx req v =
    log_outcome ctx req
      (next ctx req (log_line (rpc_started req.procedure (logged_id ctx.request_id)) v))

-- The text before the last "/", if there is one.
unfoldable pub before_last_slash : String → Option String
before_last_slash String.[] = none
before_last_slash (String.◌∷◌ c s) = elim (before_last_slash s) [
  | some p ↦ some (String.◌∷◌ c p)
  | none ↦ if code c == b'/' then some String.[] else none
]

-- `lastSlash <= 0` where there is no slash, or only the first character is one.
unfoldable pub service_from_procedure : String → String
unfolding before_last_slash
service_from_procedure procedure = elim (before_last_slash procedure) [
  | none ↦ procedure
  | some p ↦ if is_empty p then procedure else p
]

-- The span that ends after the call; that of a call that panics is never ended.
abbrev pub end_span : Request → Outcome × Server → Outcome × Server
end_span req (panics r, v) = (panics r, v)
end_span req (returns resp e, v) = (
  returns resp e,
  record v {
    spans =
        record {
          name = req.procedure;
          service = service_from_procedure req.procedure;
          failed = elim e [ none ↦ false | some _ ↦ true ];
        }
        ∷ v.spans;
  },
)

-- NewTracingInterceptor, by the name of the tracer; `none` for nil.
unfoldable pub new_tracing_interceptor : Option String → String
new_tracing_interceptor none = "skillsphere/interceptors"
new_tracing_interceptor (some tracer) = tracer

unfoldable pub tracing_interceptor : Interceptor
tracing_interceptor next ctx req v = end_span req (next ctx req v)

-- connect's Code.String.
abbrev pub code_string : Code → String
code_string invalid_argument = "invalid_argument"
code_string unauthenticated = "unauthenticated"
code_string permission_denied = "permission_denied"
code_string not_found = "not_found"
code_string already_exists = "already_exists"
code_string resource_exhausted = "resource_exhausted"
code_string unimplemented = "unimplemented"
code_string internal = "internal"

abbrev pub error_label : Error → String
error_label (connect_error c e) = code_string c
error_label _ = "unknown"

unfoldable pub status_label : Option Error → String
status_label none = "ok"
status_label (some e) = error_label e

-- A collector that promauto registers: its name, its help and its labels.
pub record Collector : Type 0 where
  pub name : String
  pub help : String
  pub labels : List String

abbrev pub requests_total : Collector
requests_total = record {
  name = "skillsphere_rpc_requests_total";
  help = "Total number of RPC requests";
  labels = "procedure" ∷ "code" ∷ [];
}

abbrev pub request_duration : Collector
request_duration = record {
  name = "skillsphere_rpc_duration_seconds";
  help = "RPC request duration in seconds";
  labels = "procedure" ∷ [];
}

abbrev pub active_requests : Collector
active_requests = record {
  name = "skillsphere_rpc_active_requests";
  help = "Number of active RPC requests";
  labels = "procedure" ∷ [];
}

abbrev pub inc : String → (String → ℕ) → String → ℕ
inc p gauge q = if str_eq p q then gauge q + 1 else gauge q

-- A gauge is decremented only after it was incremented, so it stays a natural number.
abbrev pub dec : String → (String → ℕ) → String → ℕ
dec p gauge q = if str_eq p q then gauge q - 1 else gauge q

-- The two deferred functions, which run after a panic too.
abbrev pub finish : String → Server → Server
finish p v = record v { observed = p ∷ v.observed; active = dec p v.active }

abbrev pub count_request : String → String → Server → Server
count_request p label v = record v { requests = (p, label) ∷ v.requests }

abbrev pub measure : Request → Outcome × Server → Outcome × Server
measure req (panics r, v) = (panics r, finish req.procedure v)
measure req (returns resp e, v) =
    (returns resp e, finish req.procedure (count_request req.procedure (status_label e) v))

unfoldable pub metrics_interceptor : Interceptor
unfolding status_label
metrics_interceptor next ctx req v =
    measure req (next ctx req (record v { active = inc req.procedure v.active }))
