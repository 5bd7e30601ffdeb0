-- ===== src/Auth/Service/Rows.antt =====
-- The rows that createSession and sendEmailVerification insert.
use skillsphere_api.Ontology.Event.{Event}
use skillsphere_api.Ontology.Emitter.Effects.{SameAccounts, emit-SameAccounts}
use skillsphere_api.Auth.Service.{
  emit_ontology_event, AuthService, SessionMetadata, hour, or_unknown, hash_token, create_session,
  send_email_verification,
}
use skillsphere_api.Common.{
  Option-cases, none, inl, inr, ℕ, suc, ◌+◌, ◌*◌, String, ◌≡◌, some, ◌∷◌, true, arith,
}
use skillsphere_api.Errors.{Error, ok, err, Result-cases}
use skillsphere_api.Records.{User, UserSession, UserToken, TokenType, email_verification}
use skillsphere_api.World.{Db, World, Env}
use skillsphere_api.Auth.Tokens.{TokenManager, generate_verification_token, generate_token_pair}
use skillsphere_api.Auth.Repository.{
  create_user_session, insert_session, create_user_token, insert_token, create_user, insert_user,
}

module _ (env : Env) where
  -- The row of a session that is created at a number of draws.
  abbrev pub session_row : AuthService → ℕ → String → SessionMetadata → ℕ → UserSession
  session_row s user_id refresh_token meta n = record {
    id = env.new_uuid (suc n);
    user_id = user_id;
    hashed_refresh_token = hash_token env refresh_token;
    user_agent = some (or_unknown meta.user_agent);
    client_ip = some (or_unknown meta.client_ip);
    expires_at = env.now n + s.session_ttl;
    created_at = env.now (suc (suc n));
  }

  abbrev pub with_session : UserSession → Db → Db
  with_session row db = record db { sessions = row ∷ db.sessions }

  -- createSession inserts its row, or changes no table.
  pub create_session-ok :
      (s : AuthService) (id : ℕ) (token : String) (meta : SessionMetadata) (w : World)
      → (create_session env s id token meta w).0 ≡ ok tt
      → (create_session env s id token meta w).1.db
        ≡ with_session (session_row s id token meta w.draws) w.db
  unfolding create_session create_user_session insert_session
  create_session-ok s id token meta w h = ground arith

  pub create_session-err :
      (s : AuthService) (id : ℕ) (token : String) (meta : SessionMetadata) (w : World) (e : Error)
      → (create_session env s id token meta w).0 ≡ err e
      → (create_session env s id token meta w).1.db ≡ w.db
  unfolding create_session create_user_session insert_session
  create_session-err s id token meta w e h = ground arith

  -- The row of a token that is created at a number of draws.
  abbrev pub token_row : ℕ → TokenType → ℕ → String → ℕ → UserToken
  token_row user_id type lifetime token n = record {
    token_hash = hash_token env token;
    user_id = user_id;
    type = type;
    expires_at = env.now n + lifetime;
    created_at = env.now (suc n);
  }

  -- sendEmailVerification inserts a verification token for the user and changes no other table.
  pub send_email_verification-ok :
      (s : AuthService) (user : User) (w : World)
      → (send_email_verification env s user w).0 ≡ ok tt
      → (token : String) × (env.random_hex w.draws ≡ ok token)
        × ((send_email_verification env s user w).1.db ≡ record w.db {
          tokens =
              token_row user.id email_verification (24 * hour) token (suc w.draws) ∷ w.db.tokens;
        })
  unfolding send_email_verification generate_verification_token create_user_token insert_token
  send_email_verification-ok s user w h = elim (Result-cases (env.random_hex w.draws)) [
    | inr (e, bad) ↦ absurd (ground arith)
    | inl (token, drawn) ↦ (token, drawn, ground arith)
  ]

  -- Tokens are made without touching a table.
  pub generate_token_pair-db :
      (tm : TokenManager) (id email username role : String) (w : World)
      → (generate_token_pair env tm id email username role w).1.db ≡ w.db
  unfolding generate_token_pair
  generate_token_pair-db tm id email username role w = ground arith

  -- CreateUser inserts the user that it returns.
  pub create_user-ok :
      (email username hashed display_name : String) (w : World) (u : User)
      → (create_user env email username hashed display_name w).0 ≡ ok u
      → ((create_user env email username hashed display_name w).1.db
          ≡ record w.db { users = u ∷ w.db.users })
        × (u.email ≡ email)
        × (u.username ≡ username)
        × (u.hashed_password ≡ hashed)
        × (u.display_name ≡ display_name)
        × (u.role ≡ "member")
        × (u.is_active ≡ true)
        × (u.email_verified_at ≡ none)
  unfolding create_user insert_user
  create_user-ok email username hashed display_name w u h = ground arith

  -- An event changes no account, whatever the emitter and whether or not it fails.
  pub emit_ontology_event-SameAccounts :
      (s : AuthService) (event : Event) (w : World)
      → SameAccounts w (emit_ontology_event env s event w).1
  unfolding emit_ontology_event
  emit_ontology_event-SameAccounts s event w = elim (Option-cases s.ontology) [
    | inl nil ↦ rw nil (ground arith)
    | inr (m, e) ↦ rw e (emit-SameAccounts env m event w)
  ]
