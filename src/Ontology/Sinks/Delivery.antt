-- ===== src/Ontology/Sinks/Delivery.antt =====
-- What the clients of the sinks take for a delivery.
use skillsphere_api.Common.{ℕ, String, ◌≡◌, false, ◌∷◌, arith, is_empty}
use skillsphere_api.Errors.{ok}
use skillsphere_api.World.{World, Env, advance}
use skillsphere_api.Ontology.Sinks.{http_store, insert_triples}

-- The HTTP client of the triple store reports success for every response, whatever its status,
-- where the endpoint is set.
pub insert_triples-ignores-status :
    (env : Env) (endpoint payload : String) (status : ℕ) (w : World)
    → is_empty endpoint ≡ false
    → env.http_post w.draws endpoint payload ≡ ok status
    → insert_triples env (http_store endpoint) payload w
      ≡ (ok tt, record (advance w) { inserted = payload ∷ w.inserted })
unfolding insert_triples
insert_triples-ignores-status env endpoint payload status w set answered = ground arith
