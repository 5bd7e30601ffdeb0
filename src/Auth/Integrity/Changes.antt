-- ===== src/Auth/Integrity/Changes.antt =====
-- The integrity of the auth tables under the updates and deletions of
-- internal/domain/auth/repository.
use skillsphere_api.Common.{
  ap, ℕ, ◌≡◌, Bool, arith, ◌==◌, str_eq, List, update_where, delete_where, All-map,
  All-delete_where, update_where-Unique, delete_where-Unique, select_first-update_where,
}
use skillsphere_api.Records.{User, UserSession, UserToken}
use skillsphere_api.World.{Db}
use skillsphere_api.Auth.Repository.{has_id, update_user}
use skillsphere_api.Auth.Integrity.{Stored, IsValid}

-- A change of a user that keeps what identifies it.
pub record KeepsKeys (f : User → User) : Type 0 where
  pub id : (u : User) → (f u).id ≡ u.id
  pub email : (u : User) → (f u).email ≡ u.email
  pub username : (u : User) → (f u).username ≡ u.username

update-Stored :
    (p : User → Bool) (f : User → User) (users : List User) (id : ℕ)
    → KeepsKeys f
    → Stored users id
    → Stored (update_where p f users) id
update-Stored p f users id k h =
    rw (select_first-update_where p (has_id id) f users (λ u. ap (λ n. n == id) (k.id u)))
      (ground arith)

pub update_user-IsValid :
    (id now : ℕ) (f : User → User) (db : Db)
    → KeepsKeys f
    → IsValid db
    → IsValid (update_user id now f db).1
unfolding update_user
update_user-IsValid id now f db k v =
    let same = update-Stored (has_id id) touch db.users in
    record {
      users = record {
        ids =
            update_where-Unique _ (has_id id) touch db.users (λ u w. ap (λ n. w.id == n) (k.id u))
              (λ u w. ap (λ n. n == u.id) (k.id w)) v.users.ids;
        emails =
            update_where-Unique _ (has_id id) touch db.users
              (λ u w. ap (λ e. str_eq w.email e) (k.email u))
              (λ u w. ap (λ e. str_eq e u.email) (k.email w)) v.users.emails;
        usernames =
            update_where-Unique _ (has_id id) touch db.users
              (λ u w. ap (λ e. str_eq w.username e) (k.username u))
              (λ u w. ap (λ e. str_eq e u.username) (k.username w)) v.users.usernames;
      };
      session_ids = v.session_ids;
      session_hashes = v.session_hashes;
      sessions_owned = All-map db.sessions (λ s. same s.user_id touched) v.sessions_owned;
      token_hashes = v.token_hashes;
      tokens_owned = All-map db.tokens (λ t. same t.user_id touched) v.tokens_owned;
      identities = v.identities;
      identities_owned = All-map db.identities (λ o. same o.user_id touched) v.identities_owned;
    }
  where
    touch : User → User
    touch u = record (f u) { updated_at = now }

    touched : KeepsKeys touch
    touched = record { id = k.id; email = k.email; username = k.username }

pub delete_sessions-IsValid :
    (p : UserSession → Bool) (db : Db)
    → IsValid db
    → IsValid (record db { sessions = delete_where p db.sessions })
delete_sessions-IsValid p db v = record {
  users = v.users;
  session_ids = delete_where-Unique _ p db.sessions v.session_ids;
  session_hashes = delete_where-Unique _ p db.sessions v.session_hashes;
  sessions_owned = All-delete_where (λ s. Stored db.users s.user_id) p db.sessions v.sessions_owned;
  token_hashes = v.token_hashes;
  tokens_owned = v.tokens_owned;
  identities = v.identities;
  identities_owned = v.identities_owned;
}

pub delete_tokens-IsValid :
    (p : UserToken → Bool) (db : Db)
    → IsValid db
    → IsValid (record db { tokens = delete_where p db.tokens })
delete_tokens-IsValid p db v = record {
  users = v.users;
  session_ids = v.session_ids;
  session_hashes = v.session_hashes;
  sessions_owned = v.sessions_owned;
  token_hashes = delete_where-Unique _ p db.tokens v.token_hashes;
  tokens_owned = All-delete_where (λ t. Stored db.users t.user_id) p db.tokens v.tokens_owned;
  identities = v.identities;
  identities_owned = v.identities_owned;
}
