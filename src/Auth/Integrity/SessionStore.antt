-- ===== src/Auth/Integrity/SessionStore.antt =====
-- The sessions as a map from the hash of a refresh token, which is how RefreshTokens, Logout and
-- the resets use them, and the methods of the repository on its table.
use skillsphere_api.Common.{
  ℕ, String, ◌≡◌, refl, ◌∙◌, ap, sym, subst, true, ◌&&◌, Option, none, some, arith, ltb, str_eq,
  eq_iff, List, [], ◌∷◌, Unique, select_first, delete_where, if◌then◌else◌, inl, inr, Option-cases,
  fun_ext, select_first-and_none, select_first-holds, select_first-delete_where-none,
}
use skillsphere_api.Errors.{Result, ok, err, foreign, session_not_found}
use skillsphere_api.Action.{Action, ◌>>=◌, ◌>>◌, pure}
use skillsphere_api.Records.{UserSession}
use skillsphere_api.World.{Db, World, Env, advance}
use skillsphere_api.Auth.Repository.{
  has_token, is_of, or_no_rows, create_user_session, delete_user_session, delete_all_user_sessions,
  get_user_session_by_token, insert_session,
}
use skillsphere_api.Auth.Integrity.{IsValid}
use skillsphere_api.Auth.Integrity.Keeps.{
  Keeps, >>=-Keeps, pure-Keeps, create_user_session-Keeps, delete_user_session-Keeps,
  delete_all_user_sessions-Keeps,
}

-- The abstract store: the session of a hash, if there is one.
abbrev pub Store : Type 0
Store = String → Option UserSession

abbrev pub put : String → Option UserSession → Store → Store
put hash o m h = if str_eq hash h then o else m h

abbrev pub unless_of : ℕ → Option UserSession → Option UserSession
unless_of id none = none
unless_of id (some s) = if is_of id s then none else some s

-- What a lookup at a time answers from it, where the server runs the statement.
abbrev pub read : Option ℕ → ℕ → Option UserSession → Result UserSession
read (some e) now o = err (foreign e)
read none now none = err session_not_found
read none now (some s) = if ltb now s.expires_at then ok s else err session_not_found

-- The calls of the repository that change the table.
pub data StoreCall : Type 0 where
  creates : ℕ → String → String → String → ℕ → StoreCall
  deletes : String → StoreCall
  deletes_all : ℕ → StoreCall

-- What a call does to the abstract store, by the result that it returned.
abbrev pub effect : StoreCall → Result (Option UserSession) → Store → Store
effect c (err e) m = m
effect (creates id hash agent ip expires) (ok o) m = put hash o m
effect (deletes hash) (ok o) m = put hash none m
effect (deletes_all id) (ok o) m = λ h. unless_of id (m h)

abbrev pub view : Db → Store
view db h = select_first (has_token h) db.sessions

hash_alone :
    (h : String) (a : UserSession) (l : List UserSession)
    → has_token h a ≡ true
    → select_first (has_token a.hashed_refresh_token) l ≡ none
    → select_first (has_token h) l ≡ none
hash_alone h a l hit alone =
    subst (λ k. select_first (has_token k) l ≡ none) ((eq_iff a.hashed_refresh_token h).0 hit) alone

-- Among rows with distinct hashes, the first of a hash is the only one.
live-Unique :
    (h : String) (now : ℕ) (l : List UserSession)
    → Unique (λ s t. has_token s.hashed_refresh_token t) l
    → read none now (select_first (has_token h) l)
      ≡ read none now (select_first (λ s. has_token h s && ltb now s.expires_at) l)
live-Unique h now [] u = refl
live-Unique h now (a ∷ l) u = ground (
  arith,
  hash_alone h a l,
  u.0,
  select_first-and_none (has_token h) (λ s. ltb now s.expires_at) l,
  live-Unique h now l u.1,
)

answer-read :
    (h : String) (now : ℕ) (l : List UserSession)
    → Unique (λ s t. has_token s.hashed_refresh_token t) l
    → or_no_rows session_not_found (select_first (λ s. has_token h s && ltb now s.expires_at) l)
      ≡ read none now (select_first (has_token h) l)
answer-read h now l u =
    let live = λ (s : UserSession). has_token h s && ltb now s.expires_at in
    elim (Option-cases (select_first live l)) [
      | inl gone ↦ rw gone (ground (arith, live-Unique h now l u))
      | inr (s, found) ↦
          rw found (ground (arith, live-Unique h now l u, select_first-holds live l s found))
    ]

others-Unique :
    (h : String) (id : ℕ) (l : List UserSession)
    → Unique (λ s t. has_token s.hashed_refresh_token t) l
    → select_first (has_token h) (delete_where (is_of id) l)
      ≡ unless_of id (select_first (has_token h) l)
others-Unique h id [] u = refl
others-Unique h id (a ∷ l) u = ground (
  arith,
  hash_alone h a l,
  u.0,
  select_first-delete_where-none (is_of id) (has_token h) l,
  others-Unique h id l u.1,
)

deleted-view :
    (hash h : String) (l : List UserSession)
    → select_first (has_token h) (delete_where (has_token hash) l)
      ≡ (if str_eq hash h then none else select_first (has_token h) l)
deleted-view hash h [] = ground arith
deleted-view hash h (a ∷ l) = ground (
  arith,
  deleted-view hash h l,
  eq_iff hash h,
  eq_iff a.hashed_refresh_token h,
  eq_iff a.hashed_refresh_token hash,
)

module _ (env : Env) where
  unfoldable pub perform : StoreCall → Action World (Option UserSession)
  perform (creates id hash agent ip expires) = do
    s ← create_user_session env id hash agent ip expires
    pure (some s)
  perform (deletes hash) = delete_user_session env hash >> pure none
  perform (deletes_all id) = delete_all_user_sessions env id >> pure none

  perform-Keeps : (c : StoreCall) → Keeps (perform c)
  unfolding perform
  perform-Keeps (creates id hash agent ip expires) =
      >>=-Keeps (create_user_session-Keeps env id hash agent ip expires) (λ s. pure-Keeps (some s))
  perform-Keeps (deletes hash) =
      >>=-Keeps (delete_user_session-Keeps env hash) (λ _. pure-Keeps none)
  perform-Keeps (deletes_all id) =
      >>=-Keeps (delete_all_user_sessions-Keeps env id) (λ _. pure-Keeps none)

  -- One call is its effect on the abstract store.
  perform-effect :
      (c : StoreCall) (w : World) (h : String)
      → IsValid w.db
      → view (perform c w).1.db h ≡ effect c (perform c w).0 (view w.db) h
  unfolding perform create_user_session insert_session delete_user_session delete_all_user_sessions
  perform-effect (creates id hash agent ip expires) w h v = ground arith
  perform-effect (deletes hash) w h v = ground (arith, deleted-view hash h w.db.sessions)
  perform-effect (deletes_all id) w h v =
      ground (arith, others-Unique h id w.db.sessions v.session_hashes)

  -- The state after a sequence of calls, and the abstract store after their effects.
  pub run : List StoreCall → World → World
  run [] w = w
  run (c ∷ cs) w = run cs (perform c w).1

  pub replay : List StoreCall → World → Store → Store
  replay [] w m = m
  replay (c ∷ cs) w m = replay cs (perform c w).1 (effect c (perform c w).0 m)

  run-IsValid : (cs : List StoreCall) (w : World) → IsValid w.db → IsValid (run cs w).db
  unfolding run
  run-IsValid [] w v = v
  run-IsValid (c ∷ cs) w v = run-IsValid cs (perform c w).1 ((perform-Keeps c).keeps w v)

  run-view :
      (cs : List StoreCall) (w : World) (m : Store)
      → IsValid w.db
      → view w.db ≡ m
      → view (run cs w).db ≡ replay cs w m
  unfolding run replay
  run-view [] w m v e = e
  run-view (c ∷ cs) w m v e =
      run-view cs (perform c w).1 (effect c (perform c w).0 m) ((perform-Keeps c).keeps w v)
        (fun_ext (λ h. perform-effect c w h v) ∙ ap (effect c (perform c w).0) e)

  -- From valid tables, after any sequence of calls that create and delete sessions, a lookup by a
  -- hash answers what the abstract store says that the effects of those calls, replayed on the
  -- store of the first tables, have led to: the unexpired session of the hash, or that there is
  -- none, or the server's failure to run the lookup.
  pub run-refines :
      (cs : List StoreCall) (w : World) (hash : String)
      → IsValid w.db
      → (get_user_session_by_token env hash (run cs w)).0
        ≡ read
            (env.fault (advance (run cs w)).draws)
            (env.now (run cs w).draws)
            (replay cs w (view w.db) hash)
  unfolding get_user_session_by_token
  run-refines cs w hash v =
      let now = env.now (run cs w).draws in
      let same : view (run cs w).db hash ≡ replay cs w (view w.db) hash =
        ap (λ m. m hash) (run-view cs w (view w.db) v refl) in
      let live = answer-read hash now (run cs w).db.sessions (run-IsValid cs w v).session_hashes in
      rw (sym same) (ground arith)
