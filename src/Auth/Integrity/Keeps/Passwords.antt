-- ===== src/Auth/Integrity/Keeps/Passwords.antt =====
-- The methods of the auth service on passwords, and the second verification mail.
use skillsphere_api.Common.{
  String, refl, not, true, false, Bool-cases, inl, inr, is_some, is_empty, ◌+◌,
}
use skillsphere_api.Errors.{
  Result, ok, err, errors_is, is_user_not_found, message, invalid_credentials,
}
use skillsphere_api.Records.{User, password_reset}
use skillsphere_api.Password.{validate_password}
use skillsphere_api.World.{Env, advance, password_reset_mail}
use skillsphere_api.Auth.Tokens.{generate_password_reset_token}
use skillsphere_api.Auth.Service.{AuthService, hash_token, hour}
use skillsphere_api.Auth.Sessions.{compare_password}
use skillsphere_api.Auth.Registration.{resend_to, resend_verification_email}
use skillsphere_api.Auth.Passwords.{
  reset_for, request_password_reset, reset_password, change_password,
}
use skillsphere_api.Auth.Integrity.Keeps.{
  Keeps, quiet-Keeps, >>=-Keeps, pure-Keeps, raise-Keeps, lift-Keeps, attempt-Keeps, raise_if-Keeps,
  get_user_by_email-Keeps, get_user_by_id-Keeps, update_password-Keeps,
  delete_all_user_sessions-Keeps, create_user_token-Keeps, get_user_token_by_hash-Keeps,
  delete_user_token-Keeps,
}
use skillsphere_api.Auth.Integrity.Keeps.Calls.{
  mail_if-Keeps, hash_password-Keeps, send_email_verification-Keeps,
}

module _ (env : Env) (s : AuthService) where
  resend_to-Keeps : (r : Result User) → Keeps (resend_to env s r)
  unfolding resend_to
  resend_to-Keeps (err e) = elim (Bool-cases (errors_is e is_user_not_found)) [
    | inl missing ↦ rw missing (pure-Keeps (record { already_verified = false }))
    | inr other ↦ rw other (raise-Keeps e)
  ]
  resend_to-Keeps (ok u) = elim (Bool-cases (is_some u.email_verified_at)) [
    | inl verified ↦ rw verified (pure-Keeps (record { already_verified = true }))
    | inr open_yet ↦ rw open_yet (
        >>=-Keeps (send_email_verification-Keeps env s u)
          (λ _. pure-Keeps (record { already_verified = false })))
  ]

  pub resend_verification_email-Keeps :
      (email : String) → Keeps (resend_verification_email env s email)
  unfolding resend_verification_email
  resend_verification_email-Keeps email =
      >>=-Keeps (raise_if-Keeps (is_empty email) (message "email required"))
        (λ _. >>=-Keeps (attempt-Keeps (get_user_by_email-Keeps env email)) resend_to-Keeps)

  reset_for-Keeps : (r : Result User) → Keeps (reset_for env s r)
  unfolding reset_for generate_password_reset_token
  reset_for-Keeps (err e) = elim (Bool-cases (errors_is e is_user_not_found)) [
    | inl missing ↦ rw missing (pure-Keeps tt)
    | inr other ↦ rw other (raise-Keeps e)
  ]
  reset_for-Keeps (ok u) =
      >>=-Keeps {m = generate_password_reset_token env} (quiet-Keeps (λ w. refl)) (λ token. record {
        keeps = λ w v.
            (>>=-Keeps
                (create_user_token-Keeps env u.id (hash_token env token) password_reset
                  (env.now w.draws + hour))
                (λ _.
                  mail_if-Keeps s.has_email_service
                    (password_reset_mail u.email u.display_name token))).keeps
              (advance w) v;
      })

  pub request_password_reset-Keeps : (email : String) → Keeps (request_password_reset env s email)
  unfolding request_password_reset
  request_password_reset-Keeps email =
      >>=-Keeps (raise_if-Keeps (is_empty email) (message "email required"))
        (λ _. >>=-Keeps (attempt-Keeps (get_user_by_email-Keeps env email)) reset_for-Keeps)

  pub reset_password-Keeps : (token password : String) → Keeps (reset_password env s token password)
  unfolding reset_password
  reset_password-Keeps token password =
      >>=-Keeps (lift-Keeps (validate_password env.classes password)) (λ _.
        >>=-Keeps (get_user_token_by_hash-Keeps env (hash_token env token) password_reset) (λ t.
          >>=-Keeps (hash_password-Keeps env password) (λ hashed.
            >>=-Keeps (update_password-Keeps env t.user_id hashed) (λ _.
              >>=-Keeps (attempt-Keeps (delete_user_token-Keeps env (hash_token env token))) (λ _.
                >>=-Keeps (attempt-Keeps (delete_all_user_sessions-Keeps env t.user_id))
                  (λ _. pure-Keeps tt))))))

  pub change_password-Keeps :
      (user_id current new : String) → Keeps (change_password env s user_id current new)
  unfolding change_password
  change_password-Keeps user_id current new =
      >>=-Keeps (raise_if-Keeps (is_empty user_id) (message "user id required")) (λ _.
        >>=-Keeps (lift-Keeps (env.uuid_parse user_id)) (λ id.
          >>=-Keeps (get_user_by_id-Keeps env id) (λ u.
            >>=-Keeps
              (raise_if-Keeps (not (compare_password env u.hashed_password current))
                invalid_credentials)
              (λ _. >>=-Keeps (lift-Keeps (validate_password env.classes new)) (λ _.
                >>=-Keeps (hash_password-Keeps env new) (λ hashed.
                  >>=-Keeps (update_password-Keeps env id hashed) (λ _.
                    >>=-Keeps (attempt-Keeps (delete_all_user_sessions-Keeps env id))
                      (λ _. pure-Keeps tt))))))))
