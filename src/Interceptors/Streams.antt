-- ===== src/Interceptors/Streams.antt =====
-- The streaming wrappers of pkg/interceptors (auth.go, rate_limit.go, request_id.go and
-- tracing.go), and the chain of cmd/api/router.go for a streaming RPC. The recovery, the logging and
-- the metrics are of connect's type UnaryInterceptorFunc, which leaves streams as they are.
pub mod Reach
use skillsphere_api.Common.{
  ℕ, String, Bool, true, false, not, Option, none, some, List, [], ◌∷◌, is_empty, if◌then◌else◌,
}
use skillsphere_api.Errors.{Error, connect_error, resource_exhausted, message}
use skillsphere_api.World.{Env}
use skillsphere_api.Interceptors.Context.{Context, Request}
use skillsphere_api.Interceptors.Server.{Server, Interceptor, step}
use skillsphere_api.Interceptors.Limits.{Limiter, ensure_request_id, new_request_id_interceptor}
use skillsphere_api.Interceptors.Telemetry.{service_from_procedure}
use skillsphere_api.Interceptors.Chain.{RateLimits}

-- The state behind a stream, and the headers that were set on its response, the newest first.
pub record Stream : Type 0 where
  pub server : Server
  pub response_header : List (String × String)

-- How a handler of a stream comes back.
pub data Ending : Type 0 where
  ends : Option Error → Ending
  breaks : String → Ending

-- The connection gives what the request of a unary call gives: Spec, RequestHeader and Peer.
abbrev pub StreamingHandlerFunc : Type 0
StreamingHandlerFunc = Context → Request → Stream → Ending × Stream

abbrev pub StreamInterceptor : Type 0
StreamInterceptor = StreamingHandlerFunc → StreamingHandlerFunc

-- WrapStreamingClient of all four.
abbrev pub wrap_streaming_client :
    {Conn : Type 0} → (Context → Request → Conn) → Context → Request → Conn
wrap_streaming_client next ctx spec = next ctx spec

abbrev pub step_stream : Stream → Stream
step_stream c = record c { server = step c.server }

unfoldable pub rate_limit_stream : Option Limiter → StreamInterceptor
rate_limit_stream none next ctx conn c = next ctx conn c
rate_limit_stream (some allow) next ctx conn c =
    if allow c.server.app.draws then next ctx conn (step_stream c) else (
      ends (some (connect_error resource_exhausted (message "rate limit exceeded"))),
      step_stream c,
    )

-- conn.ResponseHeader().Set(i.headerName, requestID), for an identifier that is not "".
abbrev pub set_id : String → String → Stream → Stream
set_id name id c =
    if not (is_empty id) then record c { response_header = (name, id) ∷ c.response_header } else c

unfoldable pub request_id_stream : Env → String → StreamInterceptor
unfolding ensure_request_id
request_id_stream env name next ctx conn c =
    let (id, v) = ensure_request_id env name conn c.server in
    next (record ctx { request_id = some id }) conn (set_id name id (record c { server = v }))

-- The span that ends after the stream; that of a stream that panics is never ended.
abbrev pub end_stream_span : Request → Ending × Stream → Ending × Stream
end_stream_span conn (breaks r, c) = (breaks r, c)
end_stream_span conn (ends e, c) = (
  ends e,
  record c {
    server = record c.server {
      spans =
          record {
            name = conn.procedure;
            service = service_from_procedure conn.procedure;
            failed = elim e [ none ↦ false | some _ ↦ true ];
          }
          ∷ c.server.spans;
    };
  },
)

unfoldable pub tracing_stream : StreamInterceptor
tracing_stream next ctx conn c = end_stream_span conn (next ctx conn c)

-- WrapStreamingHandler of a UnaryInterceptorFunc: recovery, logging and metrics.
abbrev pub unary_only : StreamInterceptor
unary_only next = next

-- WrapStreamingHandler of AuthInterceptor, which checks nothing yet.
abbrev pub auth_stream : StreamInterceptor
auth_stream next = next

-- The chain of SetupRouter on a stream, where `validate` is what connectrpc.com/validate does on
-- one, and `limiter` is the rate limiter if it is configured.
unfoldable pub stream_chain : Env → StreamInterceptor → Option Limiter → StreamInterceptor
unfolding request_id_stream tracing_stream rate_limit_stream
stream_chain env validate limiter next =
    request_id_stream env (new_request_id_interceptor "X-Request-ID") (
      tracing_stream (
        validate
          (rate_limit_stream limiter (unary_only (unary_only (auth_stream (unary_only next)))))))
