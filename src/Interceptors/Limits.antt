-- ===== src/Interceptors/Limits.antt =====
-- pkg/interceptors/rate_limit.go, recovery.go and request_id.go.
use skillsphere_api.Common.{
  ℕ, String, ◌<>◌, Bool, true, not, ◌||◌, ◌&&◌, Option, none, some, List, [], ◌∷◌, leb, ◌==◌,
  is_empty, if◌then◌else◌,
}
use skillsphere_api.Errors.{Error, resource_exhausted, internal, connect_error, message}
use skillsphere_api.Password.{runes}
use skillsphere_api.World.{Env}
use skillsphere_api.Interceptors.Context.{Request}
use skillsphere_api.Interceptors.Server.{
  Server, Outcome, Reply, no_reply, nil_pointer, reply, Interceptor, panic_recovered, returns,
  panics, step, refused,
}

-- The limiter of golang.org/x/time/rate: the answer of Allow at each draw; `none` for nil.
abbrev pub Limiter : Type 0
Limiter = ℕ → Bool

unfoldable pub rate_limit_interceptor : Option Limiter → Interceptor
rate_limit_interceptor none next ctx req v = next ctx req v
rate_limit_interceptor (some allow) next ctx req v =
    if allow v.app.draws
    then next ctx req (step v)
    else (refused resource_exhausted "rate limit exceeded", step v)

-- The deferred function: a panic becomes an internal error and a line of the log.
unfoldable pub recover : Request → Outcome × Server → Outcome × Server
recover req (returns resp e, v) = (returns resp e, v)
recover req (panics r, v) = (
  returns no_reply (some (connect_error internal (message ("internal server error: " <> r)))),
  record v { log = panic_recovered req.procedure none ∷ v.log },
)

unfoldable pub recovery_interceptor : Interceptor
unfolding recover
recovery_interceptor next ctx req v = recover req (next ctx req v)

-- unicode.IsSpace.
abbrev pub is_space : ℕ → Bool
is_space c =
    (leb 9 c && leb c 13)
    || (c == 0x20
        || (c == 0x85
            || (c == 0xa0
                || (c == 0x1680
                    || ((leb 0x2000 c && leb c 0x200a)
                        || (c == 0x2028
                            || (c == 0x2029 || (c == 0x202f || (c == 0x205f || c == 0x3000)))))))))

abbrev pub all_spaces : List ℕ → Bool
all_spaces [] = true
all_spaces (c ∷ cs) = is_space c && all_spaces cs

-- `strings.TrimSpace(s) == ""`
abbrev pub is_blank : String → Bool
is_blank s = all_spaces (runes s)

unfoldable pub new_request_id_interceptor : String → String
new_request_id_interceptor header_name =
    if is_blank header_name then "X-Request-ID" else header_name

-- `if resp != nil { resp.Header().Set(name, id) }` before `return resp, err`. A nil pointer is not
-- nil as an interface, and Header reads a field of it.
unfoldable pub set_header : String → String → Reply → Option Error → Outcome
set_header name id no_reply e = returns no_reply e
set_header name id nil_pointer e =
    panics "runtime error: invalid memory address or nil pointer dereference"
set_header name id (reply r) e = returns (reply (record r { headers = (name, id) ∷ r.headers })) e

module _ (env : Env) where
  -- ensureRequestID: the identifier, and the state after it was drawn.
  unfoldable pub ensure_request_id : String → Request → Server → String × Server
  ensure_request_id header_name req v =
      let sent = req.header header_name in
      if is_empty sent then (env.uuid_string (env.new_uuid v.app.draws), step v) else (sent, v)

  unfoldable pub label_response : String → String → Outcome × Server → Outcome × Server
  unfolding set_header
  label_response name id (panics r, v) = (panics r, v)
  label_response name id (returns resp e, v) =
      (if not (is_empty id) then set_header name id resp e else returns resp e, v)

  -- WrapUnary; the argument is the name of the header.
  unfoldable pub request_id_interceptor : String → Interceptor
  unfolding ensure_request_id label_response
  request_id_interceptor header_name next ctx req v =
      let (id, v') = ensure_request_id header_name req v in
      label_response header_name id (next (record ctx { request_id = some id }) req v')
