-- ===== src/Scheduling/Results.antt =====
-- What CreateSession returns, whatever becomes of the event.
use skillsphere_api.Common.{◌≡◌, refl, arith}
use skillsphere_api.Errors.{Result, ok, err}
use skillsphere_api.World.{World, Env, advance}
use skillsphere_api.Ontology.Emitter.Effects.{SameAccounts, emit-SameAccounts, SameAccounts-advance}
use skillsphere_api.Ontology.SessionEvents.{new_session_scheduled_event, session_event_at}
use skillsphere_api.Scheduling.{Session, SessionService, create_session, session_event_of}

module _ (env : Env) (s : SessionService) (item : Session) (w : World) where
  -- The case of an item that was saved.
  create_session-saved :
      (saved : Session) (w' : World)
      → s.repo.insert_session item w ≡ (ok saved, w')
      → ((create_session env s item w).0 ≡ ok saved)
        × SameAccounts w' (create_session env s item w).1
  unfolding create_session new_session_scheduled_event session_event_at
  create_session-saved saved w' h =
      let event = session_event_at env (env.now w'.draws) (session_event_of saved) in
      simp h (refl, SameAccounts-advance (emit-SameAccounts env s.emitter event (advance w')))

  -- CreateSession returns what the repository returned, its error included, whether or not the emitter
  -- accepts the event; and it changes no account and no mail beyond what
  -- the repository changed.
  pub create_session-returns_result :
      (r : Result Session) (w' : World)
      → s.repo.insert_session item w ≡ (r, w')
      → ((create_session env s item w).0 ≡ r) × SameAccounts w' (create_session env s item w).1
  unfolding create_session
  create_session-returns_result (ok saved) w' h = create_session-saved saved w' h
  create_session-returns_result (err e) w' h = ground arith
