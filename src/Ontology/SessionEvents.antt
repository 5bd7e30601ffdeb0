-- ===== src/Ontology/SessionEvents.antt =====
-- internal/ontology/session_events.go: the events of sessions and of matches.
pub mod Contents
use skillsphere_api.Common.{
  ℕ, String, ◌<>◌, Bool, true, not, List, [], ◌∷◌, map, ◌==◌, is_empty, if◌then◌else◌,
}
use skillsphere_api.World.{World, Env, draw}
use skillsphere_api.Action.{Action, pure, ◌>>=◌}
use skillsphere_api.Ontology.Event.{
  Event, Float, positive, not_positive, Scalar, scalar, texts, objects, text, flag, number, float,
  new_event, set_timestamp, set, set_if,
}
use skillsphere_api.Ontology.AuthEvents.{user_iri, text_value}

pub record SessionEvent : Type 0 where
  pub session_id : ℕ
  pub initiator_id : ℕ
  pub partner_id : ℕ
  pub initiator_offers : List String
  pub partner_offers : List String
  pub scheduled_start : ℕ
  pub scheduled_end : ℕ
  pub meeting_url : String
  pub status_iri : String
  pub is_premium : Bool
  pub notes : String

pub record SkillMatchEvent : Type 0 where
  pub skill_name : String
  pub user_proficiency : ℕ
  pub match_proficiency : ℕ
  pub is_complementary : Bool

pub record MatchEvent : Type 0 where
  pub match_id : ℕ
  pub requester_id : ℕ
  pub candidate_id : ℕ
  pub algorithm_iri : String
  pub score : Float
  pub skill_matches : List SkillMatchEvent
  pub explanation : String

abbrev pub is_nil : {A : Type 0} → List A → Bool
is_nil [] = true
is_nil (a ∷ l) = Bool.false

abbrev pub is_positive : Float → Bool
is_positive (positive b) = true
is_positive (not_positive b) = Bool.false

abbrev pub skill_match_object : SkillMatchEvent → List (String × Scalar)
skill_match_object m =
    ("sk:skillName", text m.skill_name)
    ∷ ("sk:userProficiency", number m.user_proficiency)
    ∷ ("sk:matchProficiency", number m.match_proficiency)
    ∷ ("sk:isComplementary", flag m.is_complementary)
    ∷ []

module _ (env : Env) where
  unfoldable pub session_iri : ℕ → String
  session_iri id = "sk:Session/" <> env.uuid_string id

  abbrev pub set_time : String → ℕ → Event → Event
  set_time key t e = set_if (not (t == 0)) key (text_value (env.format_time t)) e

  abbrev pub set_text : String → String → Event → Event
  set_text key s e = set_if (not (is_empty s)) key (text_value s) e

  abbrev pub set_texts : String → List String → Event → Event
  set_texts key l e = set_if (not (is_nil l)) key (texts l) e

  -- The event at a reading of the clock.
  unfoldable pub session_event_at : ℕ → SessionEvent → Event
  unfolding session_iri user_iri new_event set_timestamp set
  session_event_at now p =
      let e0 = set_timestamp now (new_event (session_iri p.session_id) "sk:Session") in
      let e1 = set "sk:initiatedBy" (text_value (user_iri env p.initiator_id)) e0 in
      let e2 =
        set "sk:hasParticipant"
          (texts (user_iri env p.initiator_id ∷ user_iri env p.partner_id ∷ [])) e1 in
      let e3 = set_text "sk:sessionStatus" p.status_iri e2 in
      let e4 = set_time "sk:scheduledStart" p.scheduled_start e3 in
      let e5 = set_time "sk:scheduledEnd" p.scheduled_end e4 in
      let e6 = set_text "sk:meetingUrl" p.meeting_url e5 in
      let e7 = set_text "sk:sessionNotes" p.notes e6 in
      let e8 = set_texts "sk:initiatorOffers" p.initiator_offers e7 in
      let e9 = set_texts "sk:partnerOffers" p.partner_offers e8 in
      set "sk:isPremium" (scalar (flag p.is_premium)) e9

  unfoldable pub new_session_scheduled_event : SessionEvent → Action World Event
  unfolding session_event_at
  new_session_scheduled_event p = do now ← draw env.now; pure (session_event_at now p)

  -- The identifier of the event; the first case is for a match with no identifier.
  unfoldable pub match_key : MatchEvent → Action World String
  match_key p =
      let id = env.uuid_string p.match_id in
      if is_empty id
      then (do
        now ← draw env.now
        pure (
            env.uuid_string p.requester_id
            <> "-"
            <> env.uuid_string p.candidate_id
            <> "-"
            <> env.format_time now))
      else pure id

  -- The event with an identifier, at a reading of the clock.
  unfoldable pub match_event_at : String → ℕ → MatchEvent → Event
  unfolding user_iri new_event set_timestamp set
  match_event_at event_id now p =
      let e0 = set_timestamp now (new_event ("sk:Match/" <> event_id) "sk:Match") in
      let e1 = set "sk:hasMatch" (text_value (user_iri env p.requester_id)) e0 in
      let e2 = set "sk:matchTarget" (text_value (user_iri env p.candidate_id)) e1 in
      let e3 = set_text "sk:matchingAlgorithm" p.algorithm_iri e2 in
      let e4 = set_if (is_positive p.score) "sk:matchScore" (scalar (float p.score)) e3 in
      let e5 = set_text "sk:explanation" p.explanation e4 in
      set_if (not (is_nil p.skill_matches)) "sk:skillMatches"
        (objects (map skill_match_object p.skill_matches)) e5

  unfoldable pub new_match_event : MatchEvent → Action World Event
  unfolding match_key match_event_at
  new_match_event p = do
    event_id ← match_key p
    now ← draw env.now
    pure (match_event_at event_id now p)
