-- ===== src/Ontology/SessionEvents/Contents.antt =====
-- What the events of sessions and matches say.
use skillsphere_api.Common.{
  ℕ, String, ◌<>◌, ◌≡◌, not, none, some, [], ◌∷◌, map, is_empty, if◌then◌else◌, ◌==◌,
}
use skillsphere_api.World.{Env}
use skillsphere_api.Ontology.Event.{scalar, texts, objects, float, flag, lookup}
use skillsphere_api.Ontology.Event.Documents.{
  HasMap, lookup-set, lookup-set_if, set-HasMap, set_if-HasMap, new_event-HasMap, new_event-props,
  set-id, set_if-id, new_event-id,
}
use skillsphere_api.Ontology.AuthEvents.{user_iri, text_value}
use skillsphere_api.Ontology.SessionEvents.{
  SessionEvent, MatchEvent, is_nil, is_positive, skill_match_object, session_iri, session_event_at,
  match_event_at,
}

module _ (env : Env) (now : ℕ) where
  -- The properties of the event of a session are a map; the people, the flag and the optional
  -- entries are there, each optional one exactly where its text, time or list is not empty.
  pub session_event-contents :
      (p : SessionEvent)
      → let e = session_event_at env now p in
        HasMap e
        × (e.id ≡ session_iri env p.session_id)
        × (lookup "sk:initiatedBy" e.props ≡ some (text_value (user_iri env p.initiator_id)))
        × (lookup "sk:hasParticipant" e.props
            ≡ some (texts (user_iri env p.initiator_id ∷ user_iri env p.partner_id ∷ [])))
        × (lookup "sk:isPremium" e.props ≡ some (scalar (flag p.is_premium)))
        × (lookup "sk:meetingUrl" e.props
            ≡ (if not (is_empty p.meeting_url) then some (text_value p.meeting_url) else none))
        × (lookup "sk:scheduledStart" e.props ≡ (
            if not (p.scheduled_start == 0)
            then some (text_value (env.format_time p.scheduled_start))
            else none))
        × (lookup "sk:partnerOffers" e.props
            ≡ (if not (is_nil p.partner_offers) then some (texts p.partner_offers) else none))
  unfolding session_event_at
  session_event-contents p = (
    set-HasMap _ _ _ (
        set_if-HasMap _ _ _ _ (
          set_if-HasMap _ _ _ _ (
            set_if-HasMap _ _ _ _ (
              set_if-HasMap _ _ _ _ (
                set_if-HasMap _ _ _ _ (
                  set_if-HasMap _ _ _ _ (
                    set_if-HasMap _ _ _ _
                      (set-HasMap _ _ _ (set-HasMap _ _ _ (new_event-HasMap _ _ now)))))))))),
    simp (set-id, set_if-id, new_event-id),
    simp (lookup-set, lookup-set_if, new_event-props),
    simp (lookup-set, lookup-set_if, new_event-props),
    simp (lookup-set),
    simp (lookup-set, lookup-set_if, new_event-props),
    simp (lookup-set, lookup-set_if, new_event-props),
    simp (lookup-set, lookup-set_if, new_event-props),
  )

  -- The properties of the event of a match are a map; the requester and the candidate are there,
  -- the score where it is positive, and the skills where there are any.
  pub match_event-contents :
      (event_id : String) (p : MatchEvent)
      → let e = match_event_at env event_id now p in
        HasMap e
        × (e.id ≡ "sk:Match/" <> event_id)
        × (lookup "sk:hasMatch" e.props ≡ some (text_value (user_iri env p.requester_id)))
        × (lookup "sk:matchTarget" e.props ≡ some (text_value (user_iri env p.candidate_id)))
        × (lookup "sk:matchScore" e.props
            ≡ (if is_positive p.score then some (scalar (float p.score)) else none))
        × (lookup "sk:skillMatches" e.props ≡ (
            if not (is_nil p.skill_matches)
            then some (objects (map skill_match_object p.skill_matches))
            else none))
  unfolding match_event_at
  match_event-contents event_id p = (
    set_if-HasMap _ _ _ _ (
        set_if-HasMap _ _ _ _ (
          set_if-HasMap _ _ _ _ (
            set_if-HasMap _ _ _ _
              (set-HasMap _ _ _ (set-HasMap _ _ _ (new_event-HasMap _ _ now)))))),
    simp (set-id, set_if-id, new_event-id),
    simp (lookup-set_if, new_event-props),
    simp (lookup-set_if, new_event-props),
    simp (lookup-set_if, new_event-props),
    simp (lookup-set_if, new_event-props),
  )
