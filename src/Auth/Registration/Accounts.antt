-- ===== src/Auth/Registration/Accounts.antt =====
-- What RegisterUser guarantees.
use skillsphere_api.Common.{
  suc, String, ◌*◌, ◌≡◌, refl, true, some, none, arith, eq_refl, select_first, ◌∷◌, ◌∙◌, ap, subst,
}
use skillsphere_api.Errors.{Error, ok, err, user_already_exists}
use skillsphere_api.Auth.Service.Rows.{
  with_session, token_row, emit_ontology_event-SameAccounts, session_row, create_user-ok,
  create_session-ok, send_email_verification-ok, generate_token_pair-db,
}
use skillsphere_api.Auth.Service.{
  hour, AuthService, create_session, hash_token, send_email_verification, emit_ontology_event,
}
use skillsphere_api.Action.{>>=-eq-ok}
use skillsphere_api.Records.{User, UserSession, UserToken, email_verification}
use skillsphere_api.Password.{validate_password}
use skillsphere_api.World.{World, Env}
use skillsphere_api.Ontology.Emitter.Effects.{SameAccounts}
use skillsphere_api.Ontology.AuthEvents.{new_user_registered_event}
use skillsphere_api.Auth.Repository.{has_email, has_token, get_user_by_email, create_user}
use skillsphere_api.Auth.Tokens.{TokenPair}
use skillsphere_api.Auth.Sessions.{generate_tokens_for}
use skillsphere_api.Auth.Registration.{
  RegisterParams, RegisterResult, admit, enroll, register_user, bcrypt_cost,
}

module _ (env : Env) (s : AuthService) (params : RegisterParams) where
  -- If the password breaks the policy, RegisterUser returns the policy's error and changes
  -- nothing: no statement is run and nothing is drawn.
  pub register-weak_password :
      (w : World) {e : Error}
      → validate_password env.classes params.password ≡ err e
      → register_user env s params w ≡ (err e, w)
  unfolding register_user admit
  register-weak_password w h = ground arith

  -- If the password is allowed, the server runs the lookup and a user has the email,
  -- RegisterUser fails with "user already exists" and no table changes.
  pub register-duplicate :
      (w : World) {u : User}
      → validate_password env.classes params.password ≡ ok tt
      → env.fault w.draws ≡ none
      → select_first (has_email params.email) w.db.users ≡ some u
      → ((register_user env s params w).0 ≡ err user_already_exists)
        × ((register_user env s params w).1.db ≡ w.db)
  unfolding register_user admit get_user_by_email
  register-duplicate w valid runs taken = ground arith

  pub admit-ok :
      (w w' : World) (h : String)
      → admit env params w ≡ (ok h, w')
      → (w'.db ≡ w.db)
        × (select_first (has_email params.email) w.db.users ≡ none)
        × (validate_password env.classes params.password ≡ ok tt)
        × (env.bcrypt_generate (suc w.draws) params.password bcrypt_cost ≡ ok h)
  unfolding admit get_user_by_email
  admit-ok w w' h e = ground arith

  -- What the tables hold for a new account.
  pub record Enrolled (w : World) (hashed : String) (r : RegisterResult) (w' : World) : Type 0 where
    pub by_email : select_first (has_email params.email) w'.db.users ≡ some r.user
    pub email : r.user.email ≡ params.email
    pub username : r.user.username ≡ params.username
    pub password : r.user.hashed_password ≡ hashed
    pub role : r.user.role ≡ "member"
    pub active : r.user.is_active ≡ true
    pub unverified : r.user.email_verified_at ≡ none
    pub session : UserSession
    pub by_token :
        select_first (has_token (hash_token env r.tokens.refresh_token)) w'.db.sessions
        ≡ some session
    pub session_user : session.user_id ≡ r.user.id
    pub token : UserToken
    pub token_added : w'.db.tokens ≡ token ∷ w.db.tokens
    pub token_user : token.user_id ≡ r.user.id
    pub token_type : token.type ≡ email_verification

  -- The steps of `enroll`, one by one.
  pub record Steps (w : World) (hashed : String) (r : RegisterResult) (w' : World) : Type 0 where
    pub user : User
    pub pair : TokenPair
    pub w1 : World
    pub w2 : World
    pub w3 : World
    pub created :
        create_user env params.email params.username hashed params.display_name w ≡ (ok user, w1)
    pub signed : generate_tokens_for env s user w1 ≡ (ok pair, w2)
    pub opened : create_session env s user.id pair.refresh_token params.metadata w2 ≡ (ok tt, w3)
    pub asked : send_email_verification env s user w3 ≡ (ok tt, w')
    pub result : r ≡ record { user = user; tokens = pair; email_verification_required = true }

  pub enroll-Steps :
      (w w' : World) (hashed : String) (r : RegisterResult)
      → enroll env s params hashed w ≡ (ok r, w')
      → Steps w hashed r w'
  unfolding enroll
  enroll-Steps w w' hashed r h =
      let m1 = create_user env params.email params.username hashed params.display_name in
      let (user, p1, h1) = >>=-eq-ok m1 _ w h in
      let m2 = generate_tokens_for env s user in
      let (pair, p2, h2) = >>=-eq-ok m2 _ (m1 w).1 h1 in
      let m3 = create_session env s user.id pair.refresh_token params.metadata in
      let (_, p3, h3) = >>=-eq-ok m3 _ (m2 (m1 w).1).1 h2 in
      let m4 = send_email_verification env s user in
      let (_, p4, h4) = >>=-eq-ok m4 _ (m3 (m2 (m1 w).1).1).1 h3 in
      record {
        user = user;
        pair = pair;
        w1 = (m1 w).1;
        w2 = (m2 (m1 w).1).1;
        w3 = (m3 (m2 (m1 w).1).1).1;
        created = p1;
        signed = p2;
        opened = p3;
        asked = p4 ∙ cc h4;
        result = cc h4;
      }

  Steps-Enrolled :
      (w w' : World) (hashed : String) (r : RegisterResult)
      → Steps w hashed r w'
      → Enrolled w hashed r w'
  Steps-Enrolled w w' hashed r t =
      let users =
        create_user-ok env params.email params.username hashed params.display_name w t.user
          (ap (λ p. p.0) t.created) in
      let id = env.uuid_string t.user.id in
      let signed =
        generate_token_pair-db env s.token_manager id t.user.email t.user.username t.user.role
          t.w1 in
      let row = session_row env s t.user.id t.pair.refresh_token params.metadata t.w2.draws in
      let opened =
        create_session-ok env s t.user.id t.pair.refresh_token params.metadata t.w2
          (ap (λ p. p.0) t.opened) in
      let (token, drawn, asked) =
        send_email_verification-ok env s t.user t.w3 (ap (λ p. p.0) t.asked) in
      let reached : (t.w1.db ≡ record w.db { users = t.user ∷ w.db.users })
          × (t.w2.db ≡ t.w1.db)
          × (t.w3.db ≡ with_session env row t.w2.db)
          × (w'.db ≡ record t.w3.db {
            tokens =
                token_row env t.user.id email_verification (24 * hour) token (suc t.w3.draws)
                ∷ t.w3.db.tokens;
          }) =
        unfold generate_tokens_for in
        ground (arith, t.created, t.signed, t.opened, t.asked, users, signed, opened, asked) in
      record {
        by_email = ground (arith, t.result, reached, users, eq_refl params.email);
        email = ground (arith, t.result, users);
        username = ground (arith, t.result, users);
        password = ground (arith, t.result, users);
        role = ground (arith, t.result, users);
        active = ground (arith, t.result, users);
        unverified = ground (arith, t.result, users);
        session = row;
        by_token = ground (arith, t.result, reached, eq_refl (hash_token env t.pair.refresh_token));
        session_user = ground (arith, t.result);
        token = token_row env t.user.id email_verification (24 * hour) token (suc t.w3.draws);
        token_added = ground (arith, reached);
        token_user = ground (arith, t.result);
        token_type = refl;
      }

  -- An account is still there after a step that changes no account.
  Enrolled-kept :
      (w w1 w2 w' : World) (hashed : String) (r r' : RegisterResult)
      → w1.db ≡ w.db
      → SameAccounts w2 w'
      → r' ≡ r
      → Enrolled w1 hashed r' w2
      → Enrolled w hashed r w'
  Enrolled-kept w w1 w2 w' hashed r r' same kept e n = record {
    by_email = ground (arith, e, kept, n.by_email);
    email = ground (arith, e, n.email);
    username = ground (arith, e, n.username);
    password = ground (arith, e, n.password);
    role = ground (arith, e, n.role);
    active = ground (arith, e, n.active);
    unverified = ground (arith, e, n.unverified);
    session = n.session;
    by_token = ground (arith, e, kept, n.by_token);
    session_user = ground (arith, e, n.session_user);
    token = n.token;
    token_added = ground (arith, e, kept, same, n.token_added);
    token_user = ground (arith, e, n.token_user);
    token_type = n.token_type;
  }

  -- If RegisterUser succeeds, no user had the email before and the password meets the policy.
  -- Afterwards the email finds the user it returns, an active and unverified member with the
  -- given email and username and bcrypt's hash of the password; the returned refresh token finds
  -- a session of that user, and one verification token for that user was added. No emitter can
  -- undo this.
  pub register-enrolls :
      (w : World) {w' : World} {r : RegisterResult}
      → register_user env s params w ≡ (ok r, w')
      → (hashed : String) × (validate_password env.classes params.password ≡ ok tt)
        × (select_first (has_email params.email) w.db.users ≡ none)
        × (env.bcrypt_generate (suc w.draws) params.password bcrypt_cost ≡ ok hashed)
        × Enrolled w hashed r w'
  unfolding register_user
  register-enrolls w {w' = w'} {r = r} h =
      let (hashed, p1, h1) = >>=-eq-ok (admit env params) _ w h in
      let w1 = (admit env params w).1 in
      let (same, free, valid, made) = admit-ok w w1 hashed p1 in
      let (r', p2, h2) = >>=-eq-ok (enroll env s params hashed) _ w1 h1 in
      let w2 = (enroll env s params hashed w1).1 in
      let e = Steps-Enrolled w1 w2 hashed r' (enroll-Steps w1 w2 hashed r' p2) in
      let event = new_user_registered_event env (some r'.user) in
      let (_, p3, h3) = >>=-eq-ok (emit_ontology_event env s event) _ w2 h2 in
      let kept = emit_ontology_event-SameAccounts env s event w2 in
      (
        hashed,
        valid,
        free,
        made,
        Enrolled-kept w w1 w2 w' hashed r r' same (subst (SameAccounts w2) (cc h3) kept) (cc h3) e,
      )
