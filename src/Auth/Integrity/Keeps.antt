-- ===== src/Auth/Integrity/Keeps.antt =====
-- Methods that keep the tables valid, whether or not they fail.
pub mod Calls
pub mod Passwords
pub mod Batch
pub mod History
use skillsphere_api.Common.{
  Option-cases, inl, inr, ℕ, String, ◌≡◌, refl, Bool, true, false, not, some, none, Option, arith,
  if◌then◌else◌,
}
use skillsphere_api.Errors.{Error, Result, ok, err}
use skillsphere_api.Action.{Action, pure, raise, lift, attempt, raise_if, continue, ◌>>=◌, ◌>>◌}
use skillsphere_api.Records.{User, TokenType}
use skillsphere_api.World.{
  Db, World, Env, Mail, draw, draw_result, statement, run_statement, start_mail,
}
use skillsphere_api.Auth.Integrity.{
  IsValid, insert_user-IsValid, insert_session-IsValid, insert_token-IsValid,
  upsert_identity-IsValid,
}
use skillsphere_api.Auth.Integrity.Changes.{
  KeepsKeys, update_user-IsValid, delete_sessions-IsValid, delete_tokens-IsValid,
}
use skillsphere_api.Auth.Repository.{
  update_user, create_user, get_user_by_email, get_user_by_id, update_last_login,
  create_user_session, get_user_session_by_token, delete_user_session, delete_all_user_sessions,
  create_user_token, get_user_token_by_hash, delete_user_token, verify_email, update_password,
  create_or_update_oauth_identity, get_user_by_oauth_identity, has_token, has_hash, is_of,
}

-- The tables are valid after the method if they were before, whatever it returns.
pub record Keeps {A : Type 0} (m : Action World A) : Type 0 where
  pub keeps : (w : World) → IsValid w.db → IsValid (m w).1.db

-- A method that changes no table.
pub quiet-Keeps : {A : Type 0} {m : Action World A} → ((w : World) → (m w).1.db ≡ w.db) → Keeps m
quiet-Keeps same = record { keeps = λ w v. rw (same w) v }

pub >>=-Keeps :
    {A B : Type 0} {m : Action World A} {f : A → Action World B}
    → Keeps m
    → ((a : A) → Keeps (f a))
    → Keeps (m >>= f)
>>=-Keeps {m = m} {f = f} k next = record { keeps = λ w v. go (m w).0 (m w).1 (k.keeps w v) }
  where
    go : (r : Result _) (w : World) → IsValid w.db → IsValid (continue r f w).1.db
    go (ok a) w v = (next a).keeps w v
    go (err e) w v = v

pub pure-Keeps : {A : Type 0} (a : A) → Keeps (pure a)
pure-Keeps a = record { keeps = λ w v. v }

pub raise-Keeps : {A : Type 0} (e : Error) → Keeps {A = A} (raise e)
raise-Keeps e = record { keeps = λ w v. v }

pub lift-Keeps : {A : Type 0} (r : Result A) → Keeps (lift r)
lift-Keeps r = record { keeps = λ w v. v }

pub attempt-Keeps : {A : Type 0} {m : Action World A} → Keeps m → Keeps (attempt m)
attempt-Keeps k = record { keeps = k.keeps }

pub raise_if-Keeps : (c : Bool) (e : Error) → Keeps (raise_if c e)
raise_if-Keeps true e = record { keeps = λ w v. v }
raise_if-Keeps false e = record { keeps = λ w v. v }

pub start_mail-Keeps : (m : Mail) → Keeps (start_mail m)
start_mail-Keeps m = record { keeps = λ w v. v }

module _ (env : Env) where
  -- A statement that the server fails to run changes nothing.
  pub statement-IsValid :
      {A : Type 0} (run : Db → Result A × Db) (w : World)
      → ((db : Db) → IsValid db → IsValid (run db).1)
      → IsValid w.db
      → IsValid (statement env run w).1.db
  statement-IsValid run w valid v = elim (Option-cases (env.fault w.draws)) [
    | inl runs ↦ rw runs (valid w.db v)
    | inr (e, fails) ↦ rw fails v
  ]

  pub create_user-Keeps : (a b c d : String) → Keeps (create_user env a b c d)
  unfolding create_user
  create_user-Keeps a b c d = record {
    keeps = λ w v. statement-IsValid _ _ (insert_user-IsValid _) v;
  }

  pub get_user_by_email-Keeps : (email : String) → Keeps (get_user_by_email env email)
  unfolding get_user_by_email
  get_user_by_email-Keeps email = record { keeps = λ w v. statement-IsValid _ _ (λ db h. h) v }

  pub get_user_by_id-Keeps : (id : ℕ) → Keeps (get_user_by_id env id)
  unfolding get_user_by_id
  get_user_by_id-Keeps id = record { keeps = λ w v. statement-IsValid _ _ (λ db h. h) v }

  -- Changes of a user's row that are no changes of a key.
  change-IsValid :
      (id now : ℕ) (f : User → User) (w : World)
      → KeepsKeys f
      → IsValid w.db
      → IsValid (statement env (update_user id now f) w).1.db
  change-IsValid id now f w k v =
      statement-IsValid (update_user id now f) w (λ db h. update_user-IsValid id now f db k h) v

  pub update_last_login-Keeps : (id : ℕ) → Keeps (update_last_login env id)
  unfolding update_last_login
  update_last_login-Keeps id = record {
    keeps = λ w v.
        change-IsValid id _ _ _ (record { id = λ u. refl; email = λ u. refl; username = λ u. refl })
          v;
  }

  pub verify_email-Keeps : (id : ℕ) → Keeps (verify_email env id)
  unfolding verify_email
  verify_email-Keeps id = record {
    keeps = λ w v.
        change-IsValid id _ _ _ (record { id = λ u. refl; email = λ u. refl; username = λ u. refl })
          v;
  }

  pub update_password-Keeps : (id : ℕ) (hashed : String) → Keeps (update_password env id hashed)
  unfolding update_password
  update_password-Keeps id hashed = record {
    keeps = λ w v.
        change-IsValid id _ _ _ (record { id = λ u. refl; email = λ u. refl; username = λ u. refl })
          v;
  }

  pub create_user_session-Keeps :
      (id : ℕ) (a b c : String) (expires : ℕ) → Keeps (create_user_session env id a b c expires)
  unfolding create_user_session
  create_user_session-Keeps id a b c expires = record {
    keeps = λ w v. statement-IsValid _ _ (insert_session-IsValid _) v;
  }

  pub get_user_session_by_token-Keeps : (hash : String) → Keeps (get_user_session_by_token env hash)
  unfolding get_user_session_by_token
  get_user_session_by_token-Keeps hash = record {
    keeps = λ w v. statement-IsValid _ _ (λ db h. h) v;
  }

  pub delete_user_session-Keeps : (hash : String) → Keeps (delete_user_session env hash)
  unfolding delete_user_session
  delete_user_session-Keeps hash = record {
    keeps = λ w v. statement-IsValid _ _ (delete_sessions-IsValid (has_token hash)) v;
  }

  pub delete_all_user_sessions-Keeps : (id : ℕ) → Keeps (delete_all_user_sessions env id)
  unfolding delete_all_user_sessions
  delete_all_user_sessions-Keeps id = record {
    keeps = λ w v. statement-IsValid _ _ (delete_sessions-IsValid (is_of id)) v;
  }

  pub create_user_token-Keeps :
      (id : ℕ) (hash : String) (type : TokenType) (expires : ℕ)
      → Keeps (create_user_token env id hash type expires)
  unfolding create_user_token
  create_user_token-Keeps id hash type expires = record {
    keeps = λ w v. statement-IsValid _ _ (insert_token-IsValid _) v;
  }

  pub get_user_token_by_hash-Keeps :
      (hash : String) (type : TokenType) → Keeps (get_user_token_by_hash env hash type)
  unfolding get_user_token_by_hash
  get_user_token_by_hash-Keeps hash type = record {
    keeps = λ w v. statement-IsValid _ _ (λ db h. h) v;
  }

  pub delete_user_token-Keeps : (hash : String) → Keeps (delete_user_token env hash)
  unfolding delete_user_token
  delete_user_token-Keeps hash = record {
    keeps = λ w v. statement-IsValid _ _ (delete_tokens-IsValid (has_hash hash)) v;
  }

  pub create_or_update_oauth_identity-Keeps :
      (provider id : String) (user : ℕ) (access refresh : Option String)
      → Keeps (create_or_update_oauth_identity env provider id user access refresh)
  unfolding create_or_update_oauth_identity
  create_or_update_oauth_identity-Keeps provider id user access refresh = record {
    keeps = λ w v. statement-IsValid _ _ (upsert_identity-IsValid _) v;
  }
