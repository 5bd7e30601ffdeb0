-- ===== src/Scheduling.antt =====
-- internal/domain/session/service/service.go: skill exchange sessions. The repository is a
-- parameter of the service.
pub mod Results
use skillsphere_api.Common.{ℕ, String, Bool, List, Option, none, some}
use skillsphere_api.Action.{Action, pure, attempt, ◌>>=◌, ◌>>◌}
use skillsphere_api.World.{World, Env}
use skillsphere_api.Ontology.Emitter.{Emitter, nop_emitter, emit}
use skillsphere_api.Ontology.SessionEvents.{SessionEvent, new_session_scheduled_event}

pub record Session : Type 0 where
  pub id : ℕ
  pub initiator_id : ℕ
  pub partner_id : ℕ
  pub initiator_offers : List String
  pub partner_offers : List String
  pub scheduled_start : ℕ
  pub scheduled_end : ℕ
  pub meeting_url : String
  pub notes : String
  pub status_iri : String
  pub created_at : ℕ
  pub is_premium : Bool

-- Repository.
pub record SessionRepository : Type 0 where
  pub insert_session : Session → Action World Session

pub record SessionService : Type 0 where
  pub repo : SessionRepository
  pub emitter : Emitter

unfoldable pub new_session_service : SessionRepository → Option Emitter → SessionService
new_session_service repo none = record { repo = repo; emitter = nop_emitter }
new_session_service repo (some e) = record { repo = repo; emitter = e }

abbrev pub session_event_of : Session → SessionEvent
session_event_of s = record {
  session_id = s.id;
  initiator_id = s.initiator_id;
  partner_id = s.partner_id;
  initiator_offers = s.initiator_offers;
  partner_offers = s.partner_offers;
  scheduled_start = s.scheduled_start;
  scheduled_end = s.scheduled_end;
  meeting_url = s.meeting_url;
  status_iri = s.status_iri;
  is_premium = s.is_premium;
  notes = s.notes;
}

unfoldable pub create_session : Env → SessionService → Session → Action World Session
create_session env s session = do
  saved ← s.repo.insert_session session
  event ← new_session_scheduled_event env (session_event_of saved)
  attempt (emit env s.emitter event)
  pure saved
