-- ===== src/Matching/Results.antt =====
-- What RecordMatch returns, whatever becomes of the event.
use skillsphere_api.Common.{suc, ◌<>◌, ◌≡◌, refl, arith, inl, inr, Bool-cases, is_empty}
use skillsphere_api.Errors.{Result, ok, err}
use skillsphere_api.World.{World, Env, advance}
use skillsphere_api.Ontology.Emitter.Effects.{SameAccounts, emit-SameAccounts, SameAccounts-advance}
use skillsphere_api.Ontology.SessionEvents.{new_match_event, match_event_at, match_key}
use skillsphere_api.Matching.{Match, MatchingService, record_match, match_event_of}

module _ (env : Env) (s : MatchingService) (item : Match) (w : World) where
  -- The case of an item that was saved.
  record_match-saved :
      (saved : Match) (w' : World)
      → s.repo.save_match item w ≡ (ok saved, w')
      → ((record_match env s item w).0 ≡ ok saved) × SameAccounts w' (record_match env s item w).1
  unfolding record_match new_match_event match_event_at match_key
  record_match-saved saved w' h =
      let m = match_event_of saved in
      elim (Bool-cases (is_empty (env.uuid_string saved.id))) [
        | inl no_id ↦
            let id =
              env.uuid_string saved.requester_id
              <> "-"
              <> env.uuid_string saved.candidate_id
              <> "-"
              <> env.format_time (env.now w'.draws) in
            let event = match_event_at env id (env.now (suc w'.draws)) m in
            let emitted = emit-SameAccounts env s.emitter event (advance (advance w')) in
            simp (h, no_id) (refl, SameAccounts-advance (SameAccounts-advance emitted))
        | inr has_id ↦
            let event = match_event_at env (env.uuid_string saved.id) (env.now w'.draws) m in
            let emitted = emit-SameAccounts env s.emitter event (advance w') in
            simp (h, has_id) (refl, SameAccounts-advance emitted)
      ]

  -- RecordMatch returns what the repository returned, its error included, whether or not the emitter
  -- accepts the event; and it changes no account and no mail beyond what
  -- the repository changed.
  pub record_match-returns_result :
      (r : Result Match) (w' : World)
      → s.repo.save_match item w ≡ (r, w')
      → ((record_match env s item w).0 ≡ r) × SameAccounts w' (record_match env s item w).1
  unfolding record_match
  record_match-returns_result (ok saved) w' h = record_match-saved saved w' h
  record_match-returns_result (err e) w' h = ground arith
