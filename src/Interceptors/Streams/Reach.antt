-- ===== src/Interceptors/Streams/Reach.antt =====
-- What the chain lets through to the handler of a stream.
use skillsphere_api.Common.{
  ℕ, String, ◌≡◌, refl, ◌∙◌, true, not, Option, none, some, is_empty, Bool-cases, inl, inr,
}
use skillsphere_api.World.{Env, Claims}
use skillsphere_api.Interceptors.Context.{Context, Request}
use skillsphere_api.Interceptors.Limits.{Limiter, ensure_request_id, new_request_id_interceptor}
use skillsphere_api.Interceptors.Chain.Passage.{tables, ensure-tables}
use skillsphere_api.Interceptors.Streams.{
  Stream, Ending, ends, breaks, StreamingHandlerFunc, StreamInterceptor, step_stream,
  rate_limit_stream, set_id, request_id_stream, end_stream_span, tracing_stream, stream_chain,
}

-- The handler runs, in a context with given claims and with the tables as they were, and no table
-- changes after it.
pub record Reached (next : StreamingHandlerFunc) (claims : Option Claims) (conn : Request)
    (c out : Stream) : Type 0 where
  pub context : Context
  pub state : Stream
  pub has_claims : context.claims ≡ claims
  pub starts : tables state.server ≡ tables c.server
  pub ended : tables out.server ≡ tables (next context conn state).1.server

abbrev pub Reaches : StreamInterceptor → Type 0
Reaches i =
    (next : StreamingHandlerFunc) (ctx : Context) (conn : Request) (c : Stream)
    → Reached next ctx.claims conn c (i next ctx conn c).1

Reaches-then : (i j : StreamInterceptor) → Reaches i → Reaches j → Reaches (λ next. i (j next))
Reaches-then i j p q next ctx conn c =
    let a = p (j next) ctx conn c in
    let b = q next a.context conn a.state in
    record {
      context = b.context;
      state = b.state;
      has_claims = b.has_claims ∙ a.has_claims;
      starts = b.starts ∙ a.starts;
      ended = a.ended ∙ b.ended;
    }

span-tables :
    (conn : Request) (m : Ending × Stream)
    → tables (end_stream_span conn m).1.server ≡ tables m.1.server
span-tables conn (ends e, c) = refl
span-tables conn (breaks r, c) = refl

tracing-Reaches : Reaches tracing_stream
unfolding tracing_stream
tracing-Reaches next ctx conn c = record {
  context = ctx;
  state = c;
  has_claims = refl;
  starts = refl;
  ended = span-tables conn (next ctx conn c);
}

limiter-Reaches :
    (limiter : Option Limiter)
    → ((allow : Limiter) (n : ℕ) → limiter ≡ some allow → allow n ≡ true)
    → Reaches (rate_limit_stream limiter)
unfolding rate_limit_stream
limiter-Reaches none free next ctx conn c = record {
  context = ctx;
  state = c;
  has_claims = refl;
  starts = refl;
  ended = refl;
}
limiter-Reaches (some allow) free next ctx conn c = record {
  context = ctx;
  state = step_stream c;
  has_claims = refl;
  starts = refl;
  ended = rw (free allow c.server.app.draws refl) refl;
}

set_id-tables : (name id : String) (c : Stream) → tables (set_id name id c).server ≡ tables c.server
set_id-tables name id c = elim (Bool-cases (not (is_empty id))) [
  | inl some' ↦ rw some' refl
  | inr none' ↦ rw none' refl
]

request_id-Reaches : (env : Env) (name : String) → Reaches (request_id_stream env name)
unfolding request_id_stream
request_id-Reaches env name next ctx conn c =
    let (id, v) = ensure_request_id env name conn c.server in
    record {
      context = record ctx { request_id = some id };
      state = set_id name id (record c { server = v });
      has_claims = refl;
      starts =
          set_id-tables name id (record c { server = v }) ∙ ensure-tables env name conn c.server;
      ended = refl;
    }

-- Where the validation interceptor lets streams through and the rate limiter, if there is one,
-- allows the call: the handler of a stream runs whatever the authorization header holds, in a
-- context with the claims that the context had before the chain.
pub stream-Reached :
    (env : Env) (validate : StreamInterceptor) (limiter : Option Limiter)
    (next : StreamingHandlerFunc) (ctx : Context) (conn : Request) (c : Stream)
    → Reaches validate
    → ((allow : Limiter) (n : ℕ) → limiter ≡ some allow → allow n ≡ true)
    → Reached next ctx.claims conn c (stream_chain env validate limiter next ctx conn c).1
unfolding stream_chain
stream-Reached env validate limiter next ctx conn c valid free =
    let name = new_request_id_interceptor "X-Request-ID" in
    Reaches-then (request_id_stream env name)
      (λ n. tracing_stream (validate (rate_limit_stream limiter n))) (request_id-Reaches env name)
      (Reaches-then tracing_stream (λ n. validate (rate_limit_stream limiter n)) tracing-Reaches
        (Reaches-then validate (rate_limit_stream limiter) valid (limiter-Reaches limiter free)))
      next ctx conn c
