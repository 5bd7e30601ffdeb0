-- ===== src/Interceptors/Chain/Passage.antt =====
-- What a call that goes through the chain of interceptors does to the tables.
use skillsphere_api.Common.{
  ◌≤◌, arith, String, ◌≡◌, refl, ◌⊎◌, inl, inr, some, none, Option, is_empty, Bool-cases,
}
use skillsphere_api.World.{Db, Env, Claims}
use skillsphere_api.Interceptors.Context.{Context, Request}
use skillsphere_api.Interceptors.Server.{
  Server, Outcome, UnaryFunc, Interceptor, returns, panics, step,
}
use skillsphere_api.Interceptors.Limits.{
  Limiter, rate_limit_interceptor, recover, recovery_interceptor, request_id_interceptor,
  label_response, ensure_request_id,
}
use skillsphere_api.Interceptors.Telemetry.{
  tracing_interceptor, end_span, logging_interceptor, log_outcome, metrics_interceptor, measure,
}

abbrev pub tables : Server → Db
tables v = v.app.db

-- The tables after a call are those after a call of the wrapped function, which starts with the
-- tables as they were and no fewer draws, in a context with given claims.
pub record Inner (next : UnaryFunc) (claims : Option Claims) (req : Request) (v out : Server)
    : Type 0 where
  pub context : Context
  pub state : Server
  pub has_claims : context.claims ≡ claims
  pub starts : tables state ≡ tables v
  pub later : v.app.draws ≤ state.app.draws
  pub ends : tables out ≡ tables (next context req state).1

-- An interceptor that lets a call through as it is, or changes no table.
abbrev pub Passes : Interceptor → Type 0
Passes i =
    (next : UnaryFunc) (ctx : Context) (req : Request) (v : Server)
    → (tables (i next ctx req v).1 ≡ tables v) ⊎ Inner next ctx.claims req v (i next ctx req v).1

-- A call of the wrapped function, after which only what is not a table changes.
direct :
    (next : UnaryFunc) (ctx ctx' : Context) (req : Request) (v v' out : Server)
    → ctx'.claims ≡ ctx.claims
    → tables v' ≡ tables v
    → v.app.draws ≤ v'.app.draws
    → tables out ≡ tables (next ctx' req v').1
    → (tables out ≡ tables v) ⊎ Inner next ctx.claims req v out
direct next ctx ctx' req v v' out claims starts later ends = inr (record {
  context = ctx';
  state = v';
  has_claims = claims;
  starts = starts;
  later = later;
  ends = ends;
})

end_span-tables : (req : Request) (m : Outcome × Server) → tables (end_span req m).1 ≡ tables m.1
end_span-tables req (returns r e, v) = refl
end_span-tables req (panics t, v) = refl

recover-tables : (req : Request) (m : Outcome × Server) → tables (recover req m).1 ≡ tables m.1
unfolding recover
recover-tables req (returns r e, v) = refl
recover-tables req (panics t, v) = refl

log_outcome-tables :
    (ctx : Context) (req : Request) (m : Outcome × Server)
    → tables (log_outcome ctx req m).1 ≡ tables m.1
log_outcome-tables ctx req (returns r none, v) = refl
log_outcome-tables ctx req (returns r (some e), v) = refl
log_outcome-tables ctx req (panics t, v) = refl

measure-tables : (req : Request) (m : Outcome × Server) → tables (measure req m).1 ≡ tables m.1
measure-tables req (returns r e, v) = refl
measure-tables req (panics t, v) = refl

label-tables :
    (env : Env) (name id : String) (m : Outcome × Server)
    → tables (label_response env name id m).1 ≡ tables m.1
unfolding label_response
label-tables env name id (returns r e, v) = refl
label-tables env name id (panics t, v) = refl

pub tracing-Passes : Passes tracing_interceptor
unfolding tracing_interceptor
tracing-Passes next ctx req v =
    direct next ctx ctx req v v _ refl refl (omega arith) (end_span-tables req (next ctx req v))

pub recovery-Passes : Passes recovery_interceptor
unfolding recovery_interceptor
recovery-Passes next ctx req v =
    direct next ctx ctx req v v _ refl refl (omega arith) (recover-tables req (next ctx req v))

pub logging-Passes : Passes logging_interceptor
unfolding logging_interceptor
logging-Passes next ctx req v =
    direct next ctx ctx req v _ _ refl refl (omega arith)
      (log_outcome-tables ctx req (next ctx req _))

pub metrics-Passes : Passes metrics_interceptor
unfolding metrics_interceptor
metrics-Passes next ctx req v =
    direct next ctx ctx req v _ _ refl refl (omega arith) (measure-tables req (next ctx req _))

pub limiter-Passes : (l : Option Limiter) → Passes (rate_limit_interceptor l)
unfolding rate_limit_interceptor
limiter-Passes none next ctx req v = direct next ctx ctx req v v _ refl refl (omega arith) refl
limiter-Passes (some allow) next ctx req v = elim (Bool-cases (allow v.app.draws)) [
  | inl free ↦ rw free (direct next ctx ctx req v (step v) _ refl refl (omega arith) refl)
  | inr full ↦ rw full (inl refl)
]

pub ensure-tables :
    (env : Env) (name : String) (req : Request) (v : Server)
    → tables (ensure_request_id env name req v).1 ≡ tables v
unfolding ensure_request_id
ensure-tables env name req v = elim (Bool-cases (is_empty (req.header name))) [
  | inl absent ↦ rw absent refl
  | inr present ↦ rw present refl
]

ensure-draws :
    (env : Env) (name : String) (req : Request) (v : Server)
    → v.app.draws ≤ (ensure_request_id env name req v).1.app.draws
unfolding ensure_request_id
ensure-draws env name req v = elim (Bool-cases (is_empty (req.header name))) [
  | inl absent ↦ rw absent (omega arith)
  | inr present ↦ rw present (omega arith)
]

pub request_id-Passes : (env : Env) (name : String) → Passes (request_id_interceptor env name)
unfolding request_id_interceptor
request_id-Passes env name next ctx req v =
    let (id, v') = ensure_request_id env name req v in
    let ctx' = record ctx { request_id = some id } in
    direct next ctx ctx' req v v' _ refl (ensure-tables env name req v)
      (ensure-draws env name req v) (label-tables env name id (next ctx' req v'))
