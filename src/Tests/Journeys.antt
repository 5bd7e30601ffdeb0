-- ===== src/Tests/Journeys.antt =====
-- The theorems on sequences of calls at concrete inputs.
use skillsphere_api.Auth.Tokens.{
  generate_password_reset_token, generate_token_pair, generate_verification_token, TokenPair,
}
use skillsphere_api.Auth.Repository.{
  get_user_token_by_hash, update_password, update_user, delete_user_token, delete_all_user_sessions,
  get_user_by_id, has_id, get_user_by_email, create_user, insert_user, create_user_session,
  insert_session, create_user_token, insert_token,
}
use skillsphere_api.Auth.Passwords.Reset.{with_password}
use skillsphere_api.Auth.Passwords.{
  request_password_reset, reset_for, change_password, reset_password,
}
use skillsphere_api.World.{password_reset_mail, advance, after, World, verification_mail}
use skillsphere_api.Tests.{
  or_default, marks, env, world, auth_service, metadata, ann, ann_session, reset_row,
}
use skillsphere_api.Password.{validate_password, see_chars, see_char, require_strength}
use skillsphere_api.Auth.Sessions.{generate_tokens_for, login, refresh_tokens, RefreshTokenParams}
use skillsphere_api.Auth.Service.{emit_ontology_event, create_session, send_email_verification}
use skillsphere_api.Ontology.Emitter.{
  emit, emit_all, emit_outbox, marshal_event, insert_outbox, or_error,
}
use skillsphere_api.Auth.Registration.Verification.{verified_at}
use skillsphere_api.Auth.Registration.{register_user, admit, enroll, confirm_email}
use skillsphere_api.Common.{
  subst, arith, String, ◌<>◌, ◌≡◌, ◌≢◌, refl, Option, false, none, some, [], ◌∷◌, eq_refl, is_empty,
  select_first,
}
use text.Mathlib.TextLemmas.{cons-append}
use skillsphere_api.Errors.{Error, ok, foreign}
use skillsphere_api.Auth.Email.{EmailService, Delivery, Post, send}
use skillsphere_api.Auth.Email.Pages.{Occurs}
use skillsphere_api.Auth.Email.Messages.{HandedOver, send-HandedOver}
use skillsphere_api.Auth.Email.Activation.{register-activates}
use skillsphere_api.Auth.Registration.Journey.{register-login, credentials}
use skillsphere_api.Auth.Passwords.Journey.{request-reset-login}
use skillsphere_api.Auth.Passwords.Revocation.{change-revokes, reset-revokes}
use skillsphere_api.Tests.Accounts.{
  strong, bob, registered, after_register, after_request, after_reset, after_change,
}
use skillsphere_api.Tests.Tables.{world-IsValid}

abbrev mailer : EmailService
mailer = record {
  smtp_host = "mail";
  smtp_port = "25";
  smtp_username = "app";
  smtp_password = "p";
  from_email = "no-reply@x";
  from_name = "SkillSphere";
  frontend_url = "https://x";
}

-- The server of SMTP refuses every mail.
abbrev busy : Delivery → Option Error
busy d = some (foreign 421)

abbrev post : Post
post = record { printed = []; deliveries = [] }

send-HandedOver_example :
    (d : Delivery) × (send busy mailer (verification_mail "bob@x" "Bob" "t") post
      ≡ (or_error (busy d), record post { deliveries = d ∷ [] }))
    × HandedOver busy mailer "bob@x" "https://x/verify-email?token=t" d
send-HandedOver_example =
    send-HandedOver busy mailer post refl refl (verification_mail "bob@x" "Bob" "t")

text-present : (s text : String) → Path (String) ("r" <> s) text → is_empty text ≡ false
text-present s text e = subst (λ t. is_empty t ≡ false) e (rw (cons-append "r" "" s) refl)

accepts-own :
    (password hashed : String)
    → "b" <> password ≡ hashed
    → env.bcrypt_compare hashed password ≡ none
accepts-own password hashed e = ground (arith, eq_refl ("b" <> password))

register-activates_example :
    (token : String) × (d : Delivery) × (after_register.mails
      ≡ verification_mail "bob@x" "Bob" token ∷ [])
    × (send busy mailer (verification_mail "bob@x" "Bob" token) post
        ≡ (or_error (busy d), record post { deliveries = d ∷ [] }))
    × (d.to ≡ "bob@x" ∷ [])
    × Occurs (mailer.frontend_url <> "/verify-email?token=" <> token) d.message
    × ((confirm_email env auth_service token after_register).0 ≡ ok registered.user.id)
    × (select_first
          (has_id registered.user.id)
          (confirm_email env auth_service token after_register).1.db.users
        ≡ some (
            verified_at env auth_service
              (env.now (after 2 after_register))
              (env.now (after 3 after_register))
              registered.user))
unfolding register_user admit enroll get_user_by_email create_user insert_user emit_ontology_event
    emit emit_all emit_outbox marshal_event insert_outbox generate_tokens_for generate_token_pair
    create_session create_user_session insert_session validate_password see_chars see_char
    require_strength send_email_verification generate_verification_token create_user_token
    insert_token
register-activates_example =
    register-activates env auth_service busy mailer bob world after_register post
      {w' = after_register} {r = registered} refl refl refl (λ n. refl)
      (λ n text e. text-present (marks n) text (ground (arith, e))) refl refl refl

-- The tokens of a login after the registration.
abbrev again : TokenPair
again =
    or_default registered.tokens
      (generate_tokens_for env auth_service registered.user (advance after_register)).0

register-login_example :
    (login env auth_service (credentials "bob@x" strong metadata) after_register).0
    ≡ ok (record { user = registered.user; tokens = again })
unfolding register_user admit enroll get_user_by_email create_user insert_user emit_ontology_event
    emit emit_all emit_outbox marshal_event insert_outbox generate_tokens_for generate_token_pair
    create_session create_user_session insert_session validate_password see_chars see_char
    require_strength send_email_verification generate_verification_token create_user_token
    insert_token
register-login_example =
    register-login env auth_service bob metadata world after_register {w' = after_register}
      {r = registered} {tokens = again} (λ n. refl)
      (λ n password hashed e. accepts-own password hashed (ground (arith, e))) refl refl refl refl

abbrev mailed_token : String
mailed_token = "r#"

abbrev after_new : World
after_new = (reset_password env auth_service mailed_token strong after_request).1

abbrev ann_tokens : TokenPair
ann_tokens =
    or_default registered.tokens (generate_tokens_for env auth_service ann (advance after_new)).0

request-reset-login_example :
    (after_request.mails ≡ password_reset_mail "ann@x" "Ann" mailed_token ∷ [])
    × ((reset_password env auth_service mailed_token strong after_request).0 ≡ ok tt)
    × ((login env auth_service (credentials "ann@x" strong metadata) after_new).0
        ≡ ok (record {
          user = with_password env auth_service (env.now (after 4 after_request)) "bN3w-Secret" ann;
          tokens = ann_tokens;
        }))
unfolding request_password_reset reset_for get_user_by_email generate_password_reset_token
    create_user_token insert_token reset_password get_user_token_by_hash update_password update_user
    delete_user_token delete_all_user_sessions validate_password see_chars see_char require_strength
    generate_tokens_for generate_token_pair
request-reset-login_example =
    request-reset-login env auth_service "ann@x" mailed_token strong metadata world after_request
      after_new {w' = after_request} {u = ann} {hashed = "bN3w-Secret"} {tokens = ann_tokens}
      (λ n. refl) (λ n plain hash e. accepts-own plain hash (ground (arith, e))) refl refl refl refl
      refl refl refl refl refl refl refl

abbrev old_token : RefreshTokenParams
old_token = record { refresh_token = "old"; metadata = metadata }

change-revokes_example :
    ((refresh_tokens env auth_service old_token after_change).0 ≢ ok registered.tokens)
    × ((refresh_tokens env auth_service old_token after_change).1.db ≡ after_change.db)
unfolding change_password get_user_by_id update_password update_user delete_all_user_sessions
    validate_password see_chars see_char require_strength
change-revokes_example =
    change-revokes env auth_service old_token "##" "Passw0rd!" strong 2 world after_change
      {w' = after_change} {u = ann_session} registered.tokens world-IsValid refl refl refl refl refl
      refl

reset-revokes_example :
    ((refresh_tokens env auth_service old_token after_reset).0 ≢ ok registered.tokens)
    × ((refresh_tokens env auth_service old_token after_reset).1.db ≡ after_reset.db)
unfolding reset_password get_user_token_by_hash update_password update_user delete_user_token
    delete_all_user_sessions validate_password see_chars see_char require_strength
reset-revokes_example =
    reset-revokes env auth_service old_token "reset" strong world after_reset {w' = after_reset}
      {t = reset_row} {u = ann_session} registered.tokens world-IsValid refl refl refl refl refl
      refl
