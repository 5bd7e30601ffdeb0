-- ===== src/Auth/Registration/Announcement.antt =====
-- The event of a registration, on its way to the outbox.
use skillsphere_api.Auth.Tokens.{generate_token_pair, generate_verification_token}
use skillsphere_api.Auth.Repository.{
  get_user_by_email, create_user, insert_user, create_user_session, insert_session,
  create_user_token, insert_token,
}
use skillsphere_api.Common.{
  ℕ, String, ◌≡◌, refl, sym, ap, ◌∙◌, none, some, ◌∷◌, arith, ◌==◌, select_first,
}
use skillsphere_api.Errors.{Result, ok, err}
use skillsphere_api.Action.{Action, ◌>>=◌, >>=-eq-ok, continue}
use skillsphere_api.Records.{User, OutboxRow}
use skillsphere_api.World.{World, Env, after}
use skillsphere_api.Ontology.Event.{Event, Document, document}
use skillsphere_api.Ontology.AuthEvents.{new_user_registered_event}
use skillsphere_api.Ontology.Emitter.{
  outbox_then_log, emit, emit_all, emit_outbox, emit_json, insert_outbox, marshal_event, send,
}
use skillsphere_api.Auth.Service.{
  AuthService, create_session, send_email_verification, emit_ontology_event,
}
use skillsphere_api.Auth.Sessions.{generate_tokens_for}
use skillsphere_api.Auth.Registration.{RegisterParams, RegisterResult, admit, enroll, register_user}

-- A call that leaves the outbox alone.
abbrev KeepsOutbox : {A : Type 0} → Action World A → Type 0
KeepsOutbox m = (w : World) → (m w).1.db.outbox ≡ w.db.outbox

continue-KeepsOutbox :
    {A B : Type 0} (r : Result A) (f : A → Action World B)
    → ((a : A) → KeepsOutbox (f a))
    → KeepsOutbox (continue r f)
continue-KeepsOutbox (ok a) f k w = k a w
continue-KeepsOutbox (err e) f k w = refl

>>=-KeepsOutbox :
    {A B : Type 0} (m : Action World A) (f : A → Action World B)
    → KeepsOutbox m
    → ((a : A) → KeepsOutbox (f a))
    → KeepsOutbox (m >>= f)
>>=-KeepsOutbox m f k j w = continue-KeepsOutbox (m w).0 f j (m w).1 ∙ k w

module _ (env : Env) (s : AuthService) (params : RegisterParams) where
  admit-KeepsOutbox : KeepsOutbox (admit env params)
  unfolding admit get_user_by_email
  admit-KeepsOutbox w = ground arith

  created :
      (hashed : String)
      → KeepsOutbox (create_user env params.email params.username hashed params.display_name)
  unfolding create_user insert_user
  created hashed w = ground arith

  signed : (user : User) → KeepsOutbox (generate_tokens_for env s user)
  unfolding generate_tokens_for generate_token_pair
  signed user w = ground arith

  opened : (id : ℕ) (token : String) → KeepsOutbox (create_session env s id token params.metadata)
  unfolding create_session create_user_session insert_session
  opened id token w = ground arith

  asked : (user : User) → KeepsOutbox (send_email_verification env s user)
  unfolding send_email_verification generate_verification_token create_user_token insert_token
  asked user w = ground arith

  enroll-KeepsOutbox : (hashed : String) → KeepsOutbox (enroll env s params hashed)
  unfolding enroll
  enroll-KeepsOutbox hashed =
      >>=-KeepsOutbox (create_user env params.email params.username hashed params.display_name) _
        (created hashed)
        (λ user. >>=-KeepsOutbox (generate_tokens_for env s user) _ (signed user) (λ tokens.
          >>=-KeepsOutbox (create_session env s user.id tokens.refresh_token params.metadata) _
            (opened user.id tokens.refresh_token)
            (λ _.
              >>=-KeepsOutbox (send_email_verification env s user) _ (asked user) (λ _ w. refl))))

  module _ (wired : s.ontology ≡ some outbox_then_log) (runs : (n : ℕ) → env.fault n ≡ none)
      (marshals : (d : Document) → (payload : String) × (env.json_marshal d ≡ ok payload)) where
    -- The row of an event that is emitted at a state.
    emit-row :
        (e : Event) (w : World)
        → select_first (λ x. x.id == env.new_uuid w.draws) w.db.outbox ≡ none
        → (row : OutboxRow) × ((emit_ontology_event env s e w).1.db.outbox ≡ row ∷ w.db.outbox)
          × (row.event_type ≡ e.type)
          × (row.delivered_at ≡ none)
          × (env.json_marshal (document env.format_time e) ≡ ok row.payload)
    unfolding emit_ontology_event emit emit_all emit_outbox emit_json marshal_event send
        insert_outbox
    emit-row e w fresh =
        let (payload, text) = marshals (document env.format_time e) in
        (
          record {
            id = env.new_uuid w.draws;
            event_type = e.type;
            payload = payload;
            created_at = env.now (after 1 w);
            delivered_at = none;
          },
          ground (arith, wired, runs (after 2 w), text, fresh),
          refl,
          refl,
          text,
        )

    -- Where the service emits to the outbox and then to the log, the server runs every statement,
    -- every document can be encoded and no row of the outbox has an identifier that a new UUID
    -- will be, a registration that succeeds has added one row to the outbox, which is pending and
    -- holds the encoded event of the user it returns.
    pub register-announces :
        (w : World) {w' : World} {r : RegisterResult}
        → register_user env s params w ≡ (ok r, w')
        → ((n : ℕ) → select_first (λ x. x.id == env.new_uuid n) w.db.outbox ≡ none)
        → (row : OutboxRow) × (w'.db.outbox ≡ row ∷ w.db.outbox)
          × (row.event_type ≡ (new_user_registered_event env (some r.user)).type)
          × (row.delivered_at ≡ none)
          × (env.json_marshal
                (document env.format_time (new_user_registered_event env (some r.user)))
              ≡ ok row.payload)
    unfolding register_user
    register-announces w {w' = w'} {r = r} h fresh =
        let (hashed, p1, h1) = >>=-eq-ok (admit env params) _ w h in
        let w1 = (admit env params w).1 in
        let (r', p2, h2) = >>=-eq-ok (enroll env s params hashed) _ w1 h1 in
        let w2 = (enroll env s params hashed w1).1 in
        let same : w2.db.outbox ≡ w.db.outbox =
          enroll-KeepsOutbox hashed w1 ∙ admit-KeepsOutbox w in
        let event = new_user_registered_event env (some r'.user) in
        let (_, p3, h3) = >>=-eq-ok (emit_ontology_event env s event) _ w2 h2 in
        let (row, added, type, pending, payload) = emit-row event w2 (rw same (fresh w2.draws)) in
        let is_r : r' ≡ r = cc h3 in
        let is_w : (emit_ontology_event env s event w2).1 ≡ w' = cc h3 in
        (
          row,
          sym (ap (λ (v : World). v.db.outbox) is_w) ∙ added ∙ ap (λ l. row ∷ l) same,
          type
              ∙ ap (λ (x : RegisterResult). (new_user_registered_event env (some x.user)).type)
                  is_r,
          pending,
          ap
                (λ (x : RegisterResult).
                  env.json_marshal
                    (document env.format_time (new_user_registered_event env (some x.user))))
                (sym is_r)
              ∙ payload,
        )
