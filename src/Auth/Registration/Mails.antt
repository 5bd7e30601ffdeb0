-- ===== src/Auth/Registration/Mails.antt =====
-- The mail of a registration, and the row of its token.
use skillsphere_api.Common.{
  ℕ, suc, String, ◌≡◌, ◌*◌, ◌+◌, sym, ap, ◌∙◌, some, arith, inl, inr, ◌∷◌, List, subst,
  if◌then◌else◌,
}
use skillsphere_api.Errors.{ok, Result-cases}
use skillsphere_api.Action.{>>=-eq-ok}
use skillsphere_api.Records.{User, email_verification}
use skillsphere_api.World.{World, Env, Mail, verification_mail, after}
use skillsphere_api.Ontology.AuthEvents.{new_user_registered_event}
use skillsphere_api.Ontology.Emitter.Effects.{SameAccounts}
use skillsphere_api.Auth.Repository.{
  get_user_by_email, create_user, insert_user, create_user_session, insert_session,
  create_user_token, insert_token,
}
use skillsphere_api.Auth.Tokens.{TokenPair, generate_token_pair, generate_verification_token}
use skillsphere_api.Auth.Service.{
  AuthService, hour, create_session, send_email_verification, emit_ontology_event,
}
use skillsphere_api.Auth.Service.Rows.{token_row, emit_ontology_event-SameAccounts}
use skillsphere_api.Auth.Sessions.{generate_tokens_for}
use skillsphere_api.Auth.Registration.{RegisterParams, RegisterResult, admit, enroll, register_user}
use skillsphere_api.Auth.Registration.Accounts.{Steps, enroll-Steps}

module _ (env : Env) (s : AuthService) where
  -- The mail of a verification token, if there is an email service.
  abbrev pub mailed : User → String → List Mail → List Mail
  mailed u token mails =
      if s.has_email_service then verification_mail u.email u.display_name token ∷ mails else mails

  module _ (params : RegisterParams) where
    -- What a step that succeeds does to the number of draws, to the mails and to two tables.
    record Quiet (n : ℕ) (w w' : World) : Type 0 where
      draws : w'.draws ≡ n + w.draws
      mails : w'.mails ≡ w.mails
      users : w'.db.users ≡ w.db.users
      tokens : w'.db.tokens ≡ w.db.tokens

    admit-Quiet : (w w' : World) (h : String) → admit env params w ≡ (ok h, w') → Quiet 2 w w'
    unfolding admit get_user_by_email
    admit-Quiet w w' h e = ground arith

    signed-Quiet :
        (user : User) (w w' : World) (pair : TokenPair)
        → generate_tokens_for env s user w ≡ (ok pair, w')
        → Quiet 3 w w'
    unfolding generate_tokens_for generate_token_pair
    signed-Quiet user w w' pair e = ground arith

    opened-Quiet :
        (id : ℕ) (token : String) (w w' : World)
        → create_session env s id token params.metadata w ≡ (ok tt, w')
        → Quiet 4 w w'
    unfolding create_session create_user_session insert_session
    opened-Quiet id token w w' e = ground arith

    created :
        (hashed : String) (w w' : World) (user : User)
        → create_user env params.email params.username hashed params.display_name w ≡ (ok user, w')
        → (w'.draws ≡ 4 + w.draws)
          × (w'.mails ≡ w.mails)
          × (w'.db.tokens ≡ w.db.tokens)
          × (w'.db.users ≡ user ∷ w.db.users)
    unfolding create_user insert_user
    created hashed w w' user e = ground arith

    asked :
        (user : User) (w w' : World)
        → send_email_verification env s user w ≡ (ok tt, w')
        → (token : String) × (env.random_hex w.draws ≡ ok token)
          × (w'.mails ≡ mailed user token w.mails)
          × (w'.db.tokens
              ≡ token_row env user.id email_verification (24 * hour) token (suc w.draws)
                ∷ w.db.tokens)
          × (w'.db.users ≡ w.db.users)
    unfolding send_email_verification generate_verification_token create_user_token insert_token
    asked user w w' e = elim (Result-cases (env.random_hex w.draws)) [
      | inr (bad, failed) ↦ absurd (ground arith)
      | inl (token, drawn) ↦ (token, drawn, ground arith, ground arith, ground arith)
    ]

    -- The user, the mail and the row of its token, whose text is drawn after so many draws.
    pub record Mailed (n : ℕ) (w : World) (r : RegisterResult) (w' : World) : Type 0 where
      pub text : String
      pub drawn : env.random_hex (after n w) ≡ ok text
      pub mails : w'.mails ≡ mailed r.user text w.mails
      pub tokens :
          w'.db.tokens
          ≡ token_row env r.user.id email_verification (24 * hour) text (suc (after n w))
            ∷ w.db.tokens
      pub users : w'.db.users ≡ r.user ∷ w.db.users

    Steps-Mailed :
        (w w' : World) (hashed : String) (r : RegisterResult)
        → Steps env s params w hashed r w'
        → Mailed 11 w r w'
    Steps-Mailed w w' hashed r t =
        let a = created hashed w t.w1 t.user t.created in
        let b = signed-Quiet t.user t.w1 t.w2 t.pair t.signed in
        let c = opened-Quiet t.user.id t.pair.refresh_token t.w2 t.w3 t.opened in
        let (token, drawn, mails, tokens, users) = asked t.user t.w3 w' t.asked in
        let n : t.w3.draws ≡ after 11 w = omega (arith, a.0, b.draws, c.draws) in
        let is_user : r.user ≡ t.user = ap (λ (x : RegisterResult). x.user) t.result in
        record {
          text = token;
          drawn = subst (λ k. env.random_hex k ≡ ok token) n drawn;
          mails = rw is_user (mails ∙ ap (mailed t.user token) (c.mails ∙ b.mails ∙ a.1));
          tokens =
              rw (is_user, sym n)
                (tokens
                  ∙ ap
                      (λ l.
                        token_row env t.user.id email_verification (24 * hour) token
                          (suc t.w3.draws)
                        ∷ l)
                      (c.tokens ∙ b.tokens ∙ a.2));
          users = rw is_user (users ∙ c.users ∙ b.users ∙ a.3);
        }

    Mailed-kept :
        (w w1 w2 w' : World) (r r' : RegisterResult)
        → Quiet 2 w w1
        → Mailed 11 w1 r' w2
        → SameAccounts w2 w'
        → r' ≡ r
        → Mailed 13 w r w'
    Mailed-kept w w1 w2 w' r r' q m kept e =
        let n : after 11 w1 ≡ after 13 w = omega (arith, q.draws) in
        record {
          text = m.text;
          drawn = rw (sym n) m.drawn;
          mails = rw (sym e) (kept.mails ∙ m.mails ∙ ap (mailed r'.user m.text) q.mails);
          tokens =
              rw (sym e, sym n)
                (kept.tokens
                  ∙ m.tokens
                  ∙ ap
                      (λ l.
                        token_row env r'.user.id email_verification (24 * hour) m.text
                          (suc (after 11 w1))
                        ∷ l)
                      q.tokens);
          users = rw (sym e) (kept.users ∙ m.users ∙ ap (λ l. r'.user ∷ l) q.users);
        }

    -- If RegisterUser succeeds, it has added the user it returns and one verification token for
    -- that user, of a day's life, and, if there is an email service, has started one mail, to that
    -- user and with the token's text.
    pub register-Mailed :
        (w : World) {w' : World} {r : RegisterResult}
        → register_user env s params w ≡ (ok r, w')
        → Mailed 13 w r w'
    unfolding register_user
    register-Mailed w {w' = w'} {r = r} h =
        let (hashed, p1, h1) = >>=-eq-ok (admit env params) _ w h in
        let w1 = (admit env params w).1 in
        let (r', p2, h2) = >>=-eq-ok (enroll env s params hashed) _ w1 h1 in
        let w2 = (enroll env s params hashed w1).1 in
        let event = new_user_registered_event env (some r'.user) in
        let (_, p3, h3) = >>=-eq-ok (emit_ontology_event env s event) _ w2 h2 in
        let kept = emit_ontology_event-SameAccounts env s event w2 in
        Mailed-kept w w1 w2 w' r r' (admit-Quiet w w1 hashed p1)
          (Steps-Mailed w1 w2 hashed r' (enroll-Steps env s params w1 w2 hashed r' p2))
          (subst (SameAccounts w2) (cc h3) kept) (cc h3)
