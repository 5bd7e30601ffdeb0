-- ===== src/Auth/Integrity.antt =====
-- The integrity of the auth tables: what pkg/db/migrations asks of them, as an invariant, and the
-- insertions of internal/domain/auth/repository.
pub mod Changes
pub mod Keeps
pub mod SessionStore
use skillsphere_api.Common.{
  ap, ℕ, String, ◌≡◌, refl, Bool, true, ◌&&◌, ◌||◌, none, some, arith, ◌==◌, str_eq, is_some, inl,
  inr, List, [], ◌∷◌, All, Unique, Bool-cases, select_first, update_where, delete_where, map_row,
  All-map, All-update_where, All-delete_where, update_where-Unique, delete_where-Unique,
  select_first-or_none, select_first-update_where, if◌then◌else◌,
}
use skillsphere_api.Records.{User, UserSession, UserToken, OauthIdentity}
use skillsphere_api.World.{Db}
use skillsphere_api.Auth.Repository.{
  has_id, has_email, has_token, is_of, has_hash, has_identity, insert_user, insert_session,
  insert_token, upsert_identity, update_user,
}

-- A row's user is stored: its foreign key leads somewhere.
abbrev pub Stored : List User → ℕ → Type 0
Stored users id = is_some (select_first (has_id id) users) ≡ true

pub record ValidUsers (users : List User) : Type 0 where
  pub ids : Unique (λ u v. v.id == u.id) users
  pub emails : Unique (λ u v. has_email u.email v) users
  pub usernames : Unique (λ u v. str_eq v.username u.username) users

pub record IsValid (db : Db) : Type 0 where
  pub users : ValidUsers db.users
  pub session_ids : Unique (λ s t. t.id == s.id) db.sessions
  pub session_hashes : Unique (λ s t. has_token s.hashed_refresh_token t) db.sessions
  pub sessions_owned : All (λ s. Stored db.users s.user_id) db.sessions
  pub token_hashes : Unique (λ t r. has_hash t.token_hash r) db.tokens
  pub tokens_owned : All (λ t. Stored db.users t.user_id) db.tokens
  pub identities : Unique (λ o p. has_identity o.provider_name o.provider_user_id p) db.identities
  pub identities_owned : All (λ o. Stored db.users o.user_id) db.identities

-- A further user leaves the rows of the others owned.
cons-Stored : (u : User) (users : List User) (id : ℕ) → Stored users id → Stored (u ∷ users) id
cons-Stored u users id h = ground arith

pub insert_user-IsValid : (u : User) (db : Db) → IsValid db → IsValid (insert_user u db).1
unfolding insert_user
insert_user-IsValid u db v = elim (Bool-cases (is_some (select_first clash db.users))) [
  | inl taken ↦ rw taken v
  | inr fresh ↦
      let absent : select_first clash db.users ≡ none = ground arith in
      let (no_id, rest) = select_first-or_none (λ w. w.id == u.id) _ db.users absent in
      let (no_email, no_name) = select_first-or_none (has_email u.email) _ db.users rest in
      rw fresh (record {
        users = record {
          ids = (no_id, v.users.ids);
          emails = (no_email, v.users.emails);
          usernames = (no_name, v.users.usernames);
        };
        session_ids = v.session_ids;
        session_hashes = v.session_hashes;
        sessions_owned =
            All-map db.sessions (λ s. cons-Stored u db.users s.user_id) v.sessions_owned;
        token_hashes = v.token_hashes;
        tokens_owned = All-map db.tokens (λ t. cons-Stored u db.users t.user_id) v.tokens_owned;
        identities = v.identities;
        identities_owned =
            All-map db.identities (λ o. cons-Stored u db.users o.user_id) v.identities_owned;
      })
]
  where
    clash : User → Bool
    clash w = w.id == u.id || (str_eq w.email u.email || str_eq w.username u.username)

pub insert_session-IsValid :
    (s : UserSession) (db : Db) → IsValid db → IsValid (insert_session s db).1
unfolding insert_session
insert_session-IsValid s db v = elim (Bool-cases (is_some (select_first clash db.sessions))) [
  | inl taken ↦ rw taken v
  | inr fresh ↦ elim (Bool-cases (is_some (select_first (has_id s.user_id) db.users))) [
    | inr unknown ↦ rw (fresh, unknown) v
    | inl stored ↦
        let absent : select_first clash db.sessions ≡ none = ground arith in
        let (no_id, no_hash) = select_first-or_none (λ t. t.id == s.id) _ db.sessions absent in
        rw (fresh, stored)
          (record {
            users = v.users;
            session_ids = (no_id, v.session_ids);
            session_hashes = (no_hash, v.session_hashes);
            sessions_owned = (stored, v.sessions_owned);
            token_hashes = v.token_hashes;
            tokens_owned = v.tokens_owned;
            identities = v.identities;
            identities_owned = v.identities_owned;
          })
  ]
]
  where
    clash : UserSession → Bool
    clash t = t.id == s.id || str_eq t.hashed_refresh_token s.hashed_refresh_token

pub insert_token-IsValid : (t : UserToken) (db : Db) → IsValid db → IsValid (insert_token t db).1
unfolding insert_token
insert_token-IsValid t db v =
    elim (Bool-cases (is_some (select_first (has_hash t.token_hash) db.tokens))) [
      | inl taken ↦ rw taken v
      | inr fresh ↦ elim (Bool-cases (is_some (select_first (has_id t.user_id) db.users))) [
        | inr unknown ↦ rw (fresh, unknown) v
        | inl stored ↦
            let absent : select_first (has_hash t.token_hash) db.tokens ≡ none = ground arith in
            rw (fresh, stored)
              (record {
                users = v.users;
                session_ids = v.session_ids;
                session_hashes = v.session_hashes;
                sessions_owned = v.sessions_owned;
                token_hashes = (absent, v.token_hashes);
                tokens_owned = (stored, v.tokens_owned);
                identities = v.identities;
                identities_owned = v.identities_owned;
              })
      ]
    ]

pub upsert_identity-IsValid :
    (o : OauthIdentity) (db : Db) → IsValid db → IsValid (upsert_identity o db).1
unfolding upsert_identity
upsert_identity-IsValid o db v = elim (Bool-cases (is_some (select_first key db.identities))) [
  | inl taken ↦ rw taken (record {
    users = v.users;
    session_ids = v.session_ids;
    session_hashes = v.session_hashes;
    sessions_owned = v.sessions_owned;
    token_hashes = v.token_hashes;
    tokens_owned = v.tokens_owned;
    identities =
        update_where-Unique _ key refresh db.identities (λ p q. refl) (λ p q. refl) v.identities;
    identities_owned =
        All-update_where (λ p. Stored db.users p.user_id) key refresh db.identities (λ p h. h)
          v.identities_owned;
  })
  | inr fresh ↦ elim (Bool-cases (is_some (select_first (has_id o.user_id) db.users))) [
    | inr unknown ↦ rw (fresh, unknown) v
    | inl stored ↦
        let absent : select_first key db.identities ≡ none = ground arith in
        rw (fresh, stored)
          (record {
            users = v.users;
            session_ids = v.session_ids;
            session_hashes = v.session_hashes;
            sessions_owned = v.sessions_owned;
            token_hashes = v.token_hashes;
            tokens_owned = v.tokens_owned;
            identities = (absent, v.identities);
            identities_owned = (stored, v.identities_owned);
          })
  ]
]
  where
    key : OauthIdentity → Bool
    key = has_identity o.provider_name o.provider_user_id

    refresh : OauthIdentity → OauthIdentity
    refresh p = record p {
      provider_access_token = o.provider_access_token;
      provider_refresh_token = o.provider_refresh_token;
      updated_at = o.updated_at;
    }

-- The outbox has no part in it.
pub outbox-IsValid :
    (db db' : Db)
    → db'.users ≡ db.users
    → db'.sessions ≡ db.sessions
    → db'.tokens ≡ db.tokens
    → db'.identities ≡ db.identities
    → IsValid db
    → IsValid db'
outbox-IsValid db db' a b c d v = record {
  users = simp a v.users;
  session_ids = simp b v.session_ids;
  session_hashes = simp b v.session_hashes;
  sessions_owned = simp (a, b) v.sessions_owned;
  token_hashes = simp c v.token_hashes;
  tokens_owned = simp (a, c) v.tokens_owned;
  identities = simp d v.identities;
  identities_owned = simp (a, d) v.identities_owned;
}
