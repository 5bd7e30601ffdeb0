-- ===== src/Auth/Integrity/Keeps/Calls.antt =====
-- The methods of the auth service.
use skillsphere_api.Common.{
  is_empty, ◌+◌, ◌*◌, ℕ, String, refl, Bool, true, false, not, some, arith, if◌then◌else◌,
}
use skillsphere_api.Errors.{
  Result, ok, err, errors_is, is_user_not_found, is_session_not_found, message, user_already_exists,
  account_inactive, invalid_credentials,
}
use skillsphere_api.Records.{User, email_verification}
use skillsphere_api.World.{Env, Mail, advance, verification_mail, welcome_mail}
use skillsphere_api.Ontology.Event.{Event}
use skillsphere_api.Action.{pure}
use skillsphere_api.Password.{validate_password}
use skillsphere_api.Ontology.AuthEvents.{new_user_registered_event}
use skillsphere_api.Auth.Tokens.{
  validate_refresh_token, validate_token, generate_verification_token,
}
use skillsphere_api.Auth.Service.{
  AuthService, SessionMetadata, create_session, send_email_verification, emit_ontology_event,
  mail_if, hash_token, or_unknown, hour,
}
use skillsphere_api.Auth.Service.Rows.{generate_token_pair-db, emit_ontology_event-SameAccounts}
use skillsphere_api.Auth.Sessions.{
  LoginParams, RefreshTokenParams, generate_tokens_for, compare_password, login, logout,
  unless_missing, refresh_user, reissue, refresh_tokens,
}
use skillsphere_api.Auth.Registration.{
  RegisterParams, admit, require_absent, enroll, register_user, welcome, hash_password,
  confirm_email,
}
use skillsphere_api.Auth.Integrity.{outbox-IsValid}
use skillsphere_api.Auth.Integrity.Keeps.{
  Keeps, quiet-Keeps, >>=-Keeps, pure-Keeps, raise-Keeps, lift-Keeps, attempt-Keeps, raise_if-Keeps,
  start_mail-Keeps, create_user-Keeps, get_user_by_email-Keeps, get_user_by_id-Keeps,
  update_last_login-Keeps, verify_email-Keeps, create_user_session-Keeps,
  get_user_session_by_token-Keeps, delete_user_session-Keeps, create_user_token-Keeps,
  get_user_token_by_hash-Keeps, delete_user_token-Keeps,
}

pub mail_if-Keeps : (c : Bool) (m : Mail) → Keeps (mail_if c m)
mail_if-Keeps true m = start_mail-Keeps m
mail_if-Keeps false m = pure-Keeps tt

require_absent-Keeps : (r : Result User) → Keeps (require_absent r)
require_absent-Keeps (ok u) = raise-Keeps user_already_exists
require_absent-Keeps (err e) = raise_if-Keeps (not (errors_is e is_user_not_found)) e

module _ (env : Env) where
  pub hash_password-Keeps : (password : String) → Keeps (hash_password env password)
  hash_password-Keeps password = quiet-Keeps (λ w. refl)

  unless_missing-Keeps : (r : Result (Unit {0})) → Keeps (unless_missing env r)
  unless_missing-Keeps (ok a) = pure-Keeps tt
  unless_missing-Keeps (err e) = raise_if-Keeps (not (errors_is e is_session_not_found)) e

  pub validate_token-Keeps : (token secret : String) → Keeps (validate_token env token secret)
  unfolding validate_token
  validate_token-Keeps token secret = quiet-Keeps (λ w. ground arith)

  module _ (s : AuthService) where
    generate_tokens_for-Keeps : (u : User) → Keeps (generate_tokens_for env s u)
    unfolding generate_tokens_for
    generate_tokens_for-Keeps u = quiet-Keeps (
        generate_token_pair-db env s.token_manager (env.uuid_string u.id) u.email u.username u.role)

    create_session-Keeps :
        (id : ℕ) (token : String) (meta : SessionMetadata)
        → Keeps (create_session env s id token meta)
    unfolding create_session
    create_session-Keeps id token meta = record {
      keeps = λ w v.
          (>>=-Keeps
              (create_user_session-Keeps env id (hash_token env token) (or_unknown meta.user_agent)
                (or_unknown meta.client_ip) (env.now w.draws + s.session_ttl))
              (λ _. pure-Keeps tt)).keeps
            (advance w) v;
    }

    pub send_email_verification-Keeps : (u : User) → Keeps (send_email_verification env s u)
    unfolding send_email_verification generate_verification_token
    send_email_verification-Keeps u =
        >>=-Keeps {m = generate_verification_token env} (quiet-Keeps (λ w. refl)) (λ token. record {
          keeps = λ w v.
              (>>=-Keeps
                  (create_user_token-Keeps env u.id (hash_token env token) email_verification
                    (env.now w.draws + 24 * hour))
                  (λ _.
                    mail_if-Keeps s.has_email_service
                      (verification_mail u.email u.display_name token))).keeps
                (advance w) v;
        })

    emit_ontology_event-Keeps : (e : Event) → Keeps (emit_ontology_event env s e)
    emit_ontology_event-Keeps e = record {
      keeps = λ w v.
          let same = emit_ontology_event-SameAccounts env s e w in
          outbox-IsValid w.db _ same.users same.sessions same.tokens same.identities v;
    }

    pub login-Keeps : (p : LoginParams) → Keeps (login env s p)
    unfolding login
    login-Keeps p = >>=-Keeps (get_user_by_email-Keeps env p.email) (λ u.
        >>=-Keeps (raise_if-Keeps (not u.is_active) account_inactive) (λ _.
          >>=-Keeps
            (raise_if-Keeps (not (compare_password env u.hashed_password p.password))
              invalid_credentials)
            (λ _. >>=-Keeps (generate_tokens_for-Keeps u) (λ t.
              >>=-Keeps (create_session-Keeps u.id t.refresh_token p.metadata) (λ _.
                >>=-Keeps (attempt-Keeps (update_last_login-Keeps env u.id))
                  (λ _. pure-Keeps (record { user = u; tokens = t })))))))

    pub logout-Keeps : (token : String) → Keeps (logout env s token)
    unfolding logout
    logout-Keeps token =
        >>=-Keeps (raise_if-Keeps (is_empty token) (message "refresh token required")) (λ _.
          >>=-Keeps (attempt-Keeps (delete_user_session-Keeps env (hash_token env token)))
            unless_missing-Keeps)

    pub refresh_tokens-Keeps : (p : RefreshTokenParams) → Keeps (refresh_tokens env s p)
    unfolding refresh_tokens refresh_user reissue validate_refresh_token
    refresh_tokens-Keeps p =
        >>=-Keeps {m = refresh_user env s p}
          (>>=-Keeps (validate_token-Keeps p.refresh_token s.token_manager.refresh_secret) (λ c.
            >>=-Keeps (get_user_session_by_token-Keeps env (hash_token env p.refresh_token)) (λ _.
              >>=-Keeps (lift-Keeps (env.uuid_parse c.user_id)) (λ id.
                >>=-Keeps (get_user_by_id-Keeps env id) (λ u.
                  >>=-Keeps (raise_if-Keeps (not u.is_active) account_inactive)
                    (λ _. pure-Keeps u))))))
          (λ u.
            >>=-Keeps
              (attempt-Keeps (delete_user_session-Keeps env (hash_token env p.refresh_token)))
              (λ _. >>=-Keeps (generate_tokens_for-Keeps u) (λ t.
                >>=-Keeps (create_session-Keeps u.id t.refresh_token p.metadata)
                  (λ _. pure-Keeps t))))

    pub register_user-Keeps : (p : RegisterParams) → Keeps (register_user env s p)
    unfolding register_user admit enroll
    register_user-Keeps p =
        >>=-Keeps {m = admit env p}
          (>>=-Keeps (lift-Keeps (validate_password env.classes p.password)) (λ _.
            >>=-Keeps (attempt-Keeps (get_user_by_email-Keeps env p.email))
              (λ r. >>=-Keeps (require_absent-Keeps r) (λ _. hash_password-Keeps p.password))))
          (λ hashed. >>=-Keeps {m = enroll env s p hashed} (enroll-Keeps hashed) (λ result.
            >>=-Keeps (emit_ontology_event-Keeps (new_user_registered_event env (some result.user)))
              (λ _. pure-Keeps result)))
      where
        enroll-Keeps : (hashed : String) → Keeps (enroll env s p hashed)
        enroll-Keeps hashed =
            >>=-Keeps (create_user-Keeps env p.email p.username hashed p.display_name) (λ u.
              >>=-Keeps (generate_tokens_for-Keeps u) (λ t.
                >>=-Keeps (create_session-Keeps u.id t.refresh_token p.metadata) (λ _.
                  >>=-Keeps (send_email_verification-Keeps u) (λ _.
                    pure-Keeps
                      (record { user = u; tokens = t; email_verification_required = true })))))

    welcome-Keeps : (id : ℕ) → Keeps (welcome env s id)
    unfolding welcome
    welcome-Keeps id = >>=-Keeps (attempt-Keeps (get_user_by_id-Keeps env id)) go
      where
        go :
            (r : Result User)
            → Keeps (elim r [
              | ok u ↦ mail_if true (welcome_mail u.email u.display_name)
              | err e ↦ pure tt
            ])
        go (ok u) = start_mail-Keeps (welcome_mail u.email u.display_name)
        go (err e) = pure-Keeps tt

    pub confirm_email-Keeps : (token : String) → Keeps (confirm_email env s token)
    unfolding confirm_email
    confirm_email-Keeps token =
        >>=-Keeps (raise_if-Keeps (is_empty token) (message "verification token required")) (λ _.
          >>=-Keeps (get_user_token_by_hash-Keeps env (hash_token env token) email_verification)
            (λ t. >>=-Keeps (verify_email-Keeps env t.user_id) (λ _.
              >>=-Keeps (attempt-Keeps (delete_user_token-Keeps env (hash_token env token))) (λ _.
                >>=-Keeps (greet s.has_email_service t.user_id) (λ _. pure-Keeps t.user_id)))))
      where
        greet : (b : Bool) (id : ℕ) → Keeps (if b then welcome env s id else pure tt)
        greet true id = welcome-Keeps id
        greet false id = pure-Keeps tt
