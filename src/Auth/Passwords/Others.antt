-- ===== src/Auth/Passwords/Others.antt =====
-- What ChangePassword and ResetPassword leave to the other users.
use skillsphere_api.Action.{◌>>◌, Action}
use skillsphere_api.Common.{ℕ, String, ◌≡◌, ◌≢◌, some, select_first}
use skillsphere_api.World.{Db, World, Env}
use skillsphere_api.Records.{UserSession}
use skillsphere_api.Auth.Repository.{has_id, has_token}

-- Of another user, the row and a session, and the tables of identities and events, are as before.
pub record Untouched (other : ℕ) (hash : String) (t : UserSession) (db db' : Db) : Type 0 where
  pub user : select_first (has_id other) db'.users ≡ select_first (has_id other) db.users
  pub session : select_first (has_token hash) db'.sessions ≡ some t
  pub identities : db'.identities ≡ db.identities
  pub outbox : db'.outbox ≡ db.outbox

module _ (env : Env) (other id : ℕ) (ne : other ≢ id) (hash : String) (t : UserSession)
    (of_other : t.user_id ≡ other) where
  -- A method spares the other user in a state where its session is found.
  record Spares {A : Type 0} (m : Action World A) (w : World) : Type 0 where
    spares :
        select_first (has_token hash) w.db.sessions ≡ some t
        → Untouched other hash t w.db (m w).1.db
