-- ===== src/Interceptors/Telemetry/Metrics.antt =====
-- About the metrics interceptor of pkg/observability/metrics.go.
use skillsphere_api.Common.{String, ◌≡◌, refl, List, ◌∷◌, arith}
use skillsphere_api.Interceptors.Context.{Context, Request}
use skillsphere_api.Interceptors.Server.{Server, Outcome, UnaryFunc, returns, panics}
use skillsphere_api.Interceptors.Telemetry.{inc, measure, metrics_interceptor, status_label}

-- The label under which a call is counted; a call that panics is not counted.
abbrev pub counted : String → Outcome → List (String × String) → List (String × String)
counted p (panics r) l = l
counted p (returns resp e) l = (p, status_label e) ∷ l

-- Whatever the handler does, a panic included, if it leaves the gauge of active requests as it
-- found it, so does the wrapped call. One duration is observed, and the call is counted once
-- under its status unless it panicked; the outcome is the handler's.
pub metrics-balanced :
    (next : UnaryFunc) (ctx : Context) (req : Request) (v : Server) (p : String)
    → ((u : Server) → (next ctx req u).1.active p ≡ u.active p)
    → let inner = next ctx req (record v { active = inc req.procedure v.active }) in
      let outer = metrics_interceptor next ctx req v in
      (outer.1.active p ≡ v.active p)
      × (outer.1.observed ≡ req.procedure ∷ inner.1.observed)
      × (outer.1.requests ≡ counted req.procedure inner.0 inner.1.requests)
      × (outer.0 ≡ inner.0)
unfolding metrics_interceptor
metrics-balanced next ctx req v p keeps =
    go (next ctx req (record v { active = inc req.procedure v.active }))
      (keeps (record v { active = inc req.procedure v.active }))
  where
    go :
        (m : Outcome × Server)
        → m.1.active p ≡ inc req.procedure v.active p
        → let outer = measure req m in
          (outer.1.active p ≡ v.active p)
          × (outer.1.observed ≡ req.procedure ∷ m.1.observed)
          × (outer.1.requests ≡ counted req.procedure m.0 m.1.requests)
          × (outer.0 ≡ m.0)
    go (panics r, u) e = (ground arith, refl, refl, refl)
    go (returns resp x, u) e = (ground arith, refl, refl, refl)
