-- ===== src/Matching.antt =====
-- internal/domain/matching/service/service.go. The repository is a parameter of the service.
pub mod Results
use skillsphere_api.Common.{ℕ, String, List, Option, none, some}
use skillsphere_api.Action.{Action, pure, attempt, ◌>>=◌, ◌>>◌}
use skillsphere_api.World.{World, Env}
use skillsphere_api.Ontology.Event.{Float}
use skillsphere_api.Ontology.Emitter.{Emitter, nop_emitter, emit}
use skillsphere_api.Ontology.SessionEvents.{SkillMatchEvent, MatchEvent, new_match_event}

pub record Match : Type 0 where
  pub id : ℕ
  pub requester_id : ℕ
  pub candidate_id : ℕ
  pub algorithm_iri : String
  pub score : Float
  pub explanation : String
  pub skill_matches : List SkillMatchEvent

-- RecommendationRepository.
pub record RecommendationRepository : Type 0 where
  pub save_match : Match → Action World Match

pub record MatchingService : Type 0 where
  pub repo : RecommendationRepository
  pub emitter : Emitter

unfoldable pub new_matching_service : RecommendationRepository → Option Emitter → MatchingService
new_matching_service repo none = record { repo = repo; emitter = nop_emitter }
new_matching_service repo (some e) = record { repo = repo; emitter = e }

abbrev pub match_event_of : Match → MatchEvent
match_event_of m = record {
  match_id = m.id;
  requester_id = m.requester_id;
  candidate_id = m.candidate_id;
  algorithm_iri = m.algorithm_iri;
  score = m.score;
  skill_matches = m.skill_matches;
  explanation = m.explanation;
}

unfoldable pub record_match : Env → MatchingService → Match → Action World Match
record_match env s match = do
  saved ← s.repo.save_match match
  event ← new_match_event env (match_event_of saved)
  attempt (emit env s.emitter event)
  pure saved
