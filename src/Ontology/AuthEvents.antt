-- ===== src/Ontology/AuthEvents.antt =====
-- internal/ontology/auth_events.go: the JSON-LD event of a registered user.
use skillsphere_api.Common.{
  ℕ, String, ◌<>◌, true, not, ◌&&◌, Option, none, some, ◌==◌, is_empty, is_some,
}
use skillsphere_api.Records.{User}
use skillsphere_api.World.{Env}
use skillsphere_api.Ontology.Event.{
  Event, Value, scalar, text, flag, new_event, set_timestamp, set, set_if,
}

abbrev pub text_value : String → Value
text_value s = scalar (text s)

-- The text of a pointer, "" for nil.
abbrev pub text_or_empty : Option String → String
text_or_empty none = ""
text_or_empty (some s) = s

-- The time of a pointer, the zero time for nil.
abbrev pub time_or_zero : Option ℕ → ℕ
time_or_zero none = 0
time_or_zero (some t) = t

module _ (env : Env) where
  unfoldable pub user_iri : ℕ → String
  user_iri id = "sk:User/" <> env.uuid_string id

  -- The event of a user that is not nil.
  unfoldable pub user_event : User → Event
  unfolding user_iri new_event set_timestamp set
  user_event u =
      let e0 = set_timestamp u.created_at (new_event (user_iri u.id) "sk:User") in
      let e1 = set "schema:email" (text_value u.email) e0 in
      let e2 = set "schema:name" (text_value u.display_name) e1 in
      let e3 =
        set_if (not (is_empty u.username)) "schema:alternateName" (text_value u.username) e2 in
      let avatar = text_or_empty u.avatar_url in
      let e4 = set_if (not (is_empty avatar)) "schema:image" (text_value avatar) e3 in
      let e5 =
        set_if (not (u.updated_at == 0) && not (u.updated_at == u.created_at)) "schema:dateModified"
          (text_value (env.format_time u.updated_at)) e4 in
      let e6 =
        set_if (is_some u.last_login_at) "schema:lastReviewed"
          (text_value (env.format_time (time_or_zero u.last_login_at))) e5 in
      let e7 = set_if (is_some u.email_verified_at) "sk:isVerified" (scalar (flag true)) e6 in
      let e8 = set "sk:isActive" (scalar (flag u.is_active)) e7 in
      set "sk:role" (text_value u.role) e8

  unfoldable pub new_user_registered_event : Option User → Event
  unfolding user_event
  new_user_registered_event none = new_event "" "sk:User"
  new_user_registered_event (some u) = user_event u
