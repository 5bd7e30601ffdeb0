-- ===== src/Auth/Repository.antt =====
-- internal/domain/auth/repository/auth_repository.go, with the constraints of the tables from
-- pkg/db/migrations (primary and foreign keys, UNIQUE columns, and the trigger that writes
-- updated_at). Rows have no order in the database: an insertion puts its row first.
use skillsphere_api.Common.{
  ℕ, String, Bool, true, false, ◌&&◌, ◌||◌, Option, none, some, ◌∷◌, ltb, ◌==◌, str_eq, is_some,
  if◌then◌else◌, select_first, delete_where, update_where,
}
use skillsphere_api.Errors.{
  Error, Result, ok, err, foreign, user_not_found, session_not_found, invalid_token,
}
use skillsphere_api.Action.{Action, ◌>>=◌}
use skillsphere_api.Records.{
  User, UserSession, UserToken, OauthIdentity, TokenType, email_verification, password_reset,
}
use skillsphere_api.World.{Db, World, Env, draw, statement}

-- The driver's errors for a violated constraint.
abbrev pub unique_violation : Error
unique_violation = foreign 23505

abbrev pub foreign_key_violation : Error
foreign_key_violation = foreign 23503

-- Keys of the WHERE clauses and of the constraints.
abbrev pub has_id : ℕ → User → Bool
has_id id u = u.id == id

abbrev pub has_email : String → User → Bool
has_email email u = str_eq u.email email

abbrev pub has_token : String → UserSession → Bool
has_token hash s = str_eq s.hashed_refresh_token hash

abbrev pub is_of : ℕ → UserSession → Bool
is_of id s = s.user_id == id

abbrev pub has_hash : String → UserToken → Bool
has_hash hash t = str_eq t.token_hash hash

abbrev pub same_type : TokenType → TokenType → Bool
same_type email_verification email_verification = true
same_type password_reset password_reset = true
same_type _ _ = false

abbrev pub has_identity : String → String → OauthIdentity → Bool
has_identity provider id o = str_eq o.provider_name provider && str_eq o.provider_user_id id

-- The row that a query scans, or the error that the method returns for sql.ErrNoRows.
abbrev pub or_no_rows : {A : Type 0} → Error → Option A → Result A
or_no_rows e none = err e
or_no_rows e (some a) = ok a

-- INSERT INTO users.
unfoldable pub insert_user : User → Db → Result User × Db
insert_user u db =
    if is_some (
      select_first (λ v. v.id == u.id || (str_eq v.email u.email || str_eq v.username u.username))
        db.users)
    then (err unique_violation, db)
    else (ok u, record db { users = u ∷ db.users })

-- INSERT INTO user_sessions.
unfoldable pub insert_session : UserSession → Db → Result UserSession × Db
insert_session s db =
    if is_some (
      select_first (λ t. t.id == s.id || str_eq t.hashed_refresh_token s.hashed_refresh_token)
        db.sessions)
    then (err unique_violation, db)
    else if is_some (select_first (has_id s.user_id) db.users)
    then (ok s, record db { sessions = s ∷ db.sessions })
    else (err foreign_key_violation, db)

-- INSERT INTO user_tokens.
unfoldable pub insert_token : UserToken → Db → Result (Unit {0}) × Db
insert_token t db =
    if is_some (select_first (has_hash t.token_hash) db.tokens)
    then (err unique_violation, db)
    else if is_some (select_first (has_id t.user_id) db.users)
    then (ok tt, record db { tokens = t ∷ db.tokens })
    else (err foreign_key_violation, db)

-- INSERT INTO user_oauth_identities … ON CONFLICT … DO UPDATE. Only the provider's tokens and
-- the time of the update are overwritten.
unfoldable pub upsert_identity : OauthIdentity → Db → Result (Unit {0}) × Db
upsert_identity o db =
    if is_some (select_first (has_identity o.provider_name o.provider_user_id) db.identities)
    then (
      ok tt,
      record db {
        identities =
            update_where (has_identity o.provider_name o.provider_user_id)
              (λ p. record p {
                provider_access_token = o.provider_access_token;
                provider_refresh_token = o.provider_refresh_token;
                updated_at = o.updated_at;
              })
              db.identities;
      },
    )
    else if is_some (select_first (has_id o.user_id) db.users)
    then (ok tt, record db { identities = o ∷ db.identities })
    else (err foreign_key_violation, db)

-- UPDATE users SET … WHERE id = …, with the trigger's NOW().
unfoldable pub update_user : ℕ → ℕ → (User → User) → Db → Result (Unit {0}) × Db
update_user id now f db = (
  ok tt,
  record db { users = update_where (has_id id) (λ u. record (f u) { updated_at = now }) db.users },
)

module _ (env : Env) where
  unfoldable pub create_user : String → String → String → String → Action World User
  create_user email username hashed_password display_name = do
    id ← draw env.new_uuid
    created_at ← draw env.now
    updated_at ← draw env.now
    statement env (
        insert_user (record {
          id = id;
          email = email;
          username = username;
          hashed_password = hashed_password;
          display_name = display_name;
          avatar_url = none;
          role = "member";
          is_active = true;
          email_verified_at = none;
          created_at = created_at;
          updated_at = updated_at;
          last_login_at = none;
        }))

  unfoldable pub get_user_by_email : String → Action World User
  get_user_by_email email =
      statement env
        (λ db. (or_no_rows user_not_found (select_first (has_email email) db.users), db))

  unfoldable pub get_user_by_id : ℕ → Action World User
  get_user_by_id id =
      statement env (λ db. (or_no_rows user_not_found (select_first (has_id id) db.users), db))

  unfoldable pub update_last_login : ℕ → Action World (Unit {0})
  update_last_login id = do
    at ← draw env.now
    now ← draw env.now
    statement env (update_user id now (λ u. record u { last_login_at = some at }))

  unfoldable pub create_user_session : ℕ → String → String → String → ℕ → Action World UserSession
  create_user_session user_id hashed_refresh_token user_agent client_ip expires_at = do
    id ← draw env.new_uuid
    created_at ← draw env.now
    statement env (
        insert_session (record {
          id = id;
          user_id = user_id;
          hashed_refresh_token = hashed_refresh_token;
          user_agent = some user_agent;
          client_ip = some client_ip;
          expires_at = expires_at;
          created_at = created_at;
        }))

  unfoldable pub get_user_session_by_token : String → Action World UserSession
  get_user_session_by_token hash = do
    now ← draw env.now
    statement env (λ db. (
      or_no_rows session_not_found
          (select_first (λ s. has_token hash s && ltb now s.expires_at) db.sessions),
      db,
    ))

  unfoldable pub delete_user_session : String → Action World (Unit {0})
  delete_user_session hash =
      statement env
        (λ db. (ok tt, record db { sessions = delete_where (has_token hash) db.sessions }))

  unfoldable pub delete_all_user_sessions : ℕ → Action World (Unit {0})
  delete_all_user_sessions id =
      statement env (λ db. (ok tt, record db { sessions = delete_where (is_of id) db.sessions }))

  unfoldable pub create_user_token : ℕ → String → TokenType → ℕ → Action World (Unit {0})
  create_user_token user_id hash type expires_at = do
    created_at ← draw env.now
    statement env (
        insert_token (record {
          token_hash = hash;
          user_id = user_id;
          type = type;
          expires_at = expires_at;
          created_at = created_at;
        }))

  unfoldable pub get_user_token_by_hash : String → TokenType → Action World UserToken
  get_user_token_by_hash hash type = do
    now ← draw env.now
    statement env (λ db. (
      or_no_rows invalid_token (
          select_first (λ t. has_hash hash t && (same_type t.type type && ltb now t.expires_at))
            db.tokens),
      db,
    ))

  unfoldable pub delete_user_token : String → Action World (Unit {0})
  delete_user_token hash =
      statement env (λ db. (ok tt, record db { tokens = delete_where (has_hash hash) db.tokens }))

  unfoldable pub verify_email : ℕ → Action World (Unit {0})
  verify_email id = do
    at ← draw env.now
    now ← draw env.now
    statement env (update_user id now (λ u. record u { email_verified_at = some at }))

  unfoldable pub update_password : ℕ → String → Action World (Unit {0})
  update_password id hashed_password = do
    at ← draw env.now
    now ← draw env.now
    statement env
        (update_user id now (λ u. record u { hashed_password = hashed_password; updated_at = at }))

  unfoldable pub create_or_update_oauth_identity :
      String → String → ℕ → Option String → Option String → Action World (Unit {0})
  create_or_update_oauth_identity provider provider_id user_id access_token refresh_token = do
    now ← draw env.now
    statement env (
        upsert_identity (record {
          provider_name = provider;
          provider_user_id = provider_id;
          user_id = user_id;
          provider_access_token = access_token;
          provider_refresh_token = refresh_token;
          created_at = now;
          updated_at = now;
        }))

  -- The first row of the join: the user of the identity.
  unfoldable pub get_user_by_oauth_identity : String → String → Action World User
  get_user_by_oauth_identity provider provider_id = statement env (λ db. (
    elim (select_first (has_identity provider provider_id) db.identities) [
      | none ↦ err user_not_found
      | some o ↦ or_no_rows user_not_found (select_first (has_id o.user_id) db.users)
    ],
    db,
  ))
