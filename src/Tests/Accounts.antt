-- ===== src/Tests/Accounts.antt =====
-- The theorems on accounts, their tokens and their passwords at concrete inputs.
use skillsphere_api.Auth.Repository.{
  delete_all_user_sessions, insert_token, create_user_token, insert_session, create_user_session,
  insert_user, create_user, get_user_by_email, update_password, delete_user_token, get_user_by_id,
  update_user, verify_email, get_user_token_by_hash, has_email, has_hash, is_of,
}
use skillsphere_api.Auth.Tokens.{generate_verification_token, generate_token_pair}
use skillsphere_api.Auth.Service.{send_email_verification, create_session, emit_ontology_event}
use skillsphere_api.Password.{require_strength, see_char, see_chars, validate_password}
use skillsphere_api.Auth.Sessions.{generate_tokens_for}
use skillsphere_api.Ontology.Emitter.{insert_outbox, marshal_event, emit_outbox, emit_all, emit}
use skillsphere_api.Auth.Registration.{
  enroll, admit, welcome, RegisterParams, RegisterResult, register_user, confirm_email,
}
use skillsphere_api.Common.{String, ◌≡◌, refl, true, false, none, select_first}
use skillsphere_api.Errors.{ok}
use skillsphere_api.World.{World}
use skillsphere_api.Password.Policy.{validate_password-is_strong, is_strong}
use skillsphere_api.Auth.Registration.Accounts.{register-enrolls, Enrolled}
use skillsphere_api.Auth.Registration.Verification.{confirm-verifies}
use skillsphere_api.Auth.Passwords.{request_password_reset, reset_password, change_password}
use skillsphere_api.Auth.Passwords.Reset.{reset-effect}
use skillsphere_api.Auth.Passwords.Change.{change-effect}
use skillsphere_api.Tests.{env, ascii, world, auth_service, metadata, ann, or_default}

abbrev pub strong : String
strong = "N3w-Secret"

validate_password-is_strong_example :
    (validate_password ascii strong ≡ ok tt → is_strong ascii strong ≡ true)
    × (is_strong ascii strong ≡ true → validate_password ascii strong ≡ ok tt)
validate_password-is_strong_example = validate_password-is_strong ascii strong

abbrev pub bob : RegisterParams
bob = record {
  email = "bob@x";
  username = "bob";
  password = strong;
  display_name = "Bob";
  metadata = metadata;
}

abbrev pub registered : RegisterResult
registered =
    or_default
      (record {
        user = ann;
        tokens = record { access_token = ""; refresh_token = ""; expires_at = 0; token_type = "" };
        email_verification_required = false;
      })
      (register_user env auth_service bob world).0

abbrev pub after_register : World
after_register = (register_user env auth_service bob world).1

register-enrolls_example :
    (hashed : String) × (validate_password ascii strong ≡ ok tt)
    × (select_first (has_email "bob@x") world.db.users ≡ none)
    × (env.bcrypt_generate 1 strong 12 ≡ ok hashed)
    × Enrolled env auth_service bob world hashed registered after_register
unfolding register_user admit enroll get_user_by_email create_user insert_user emit_ontology_event
    emit emit_all emit_outbox marshal_event insert_outbox generate_tokens_for generate_token_pair
    create_session create_user_session insert_session validate_password see_chars see_char
    require_strength send_email_verification generate_verification_token create_user_token
    insert_token
register-enrolls_example =
    register-enrolls env auth_service bob world {w' = after_register} {r = registered} refl

abbrev after_confirm : World
after_confirm = (confirm_email env auth_service "verify" world).1

confirm-verifies_example : select_first (has_hash "hverify") after_confirm.db.tokens ≡ none
unfolding confirm_email get_user_token_by_hash verify_email update_user welcome get_user_by_id
    delete_user_token
confirm-verifies_example =
    (confirm-verifies env auth_service "verify" world {w' = after_confirm} {id = 2} refl refl).4

abbrev pub after_request : World
after_request = (request_password_reset env auth_service "ann@x" world).1

abbrev pub after_reset : World
after_reset = (reset_password env auth_service "reset" strong world).1

reset-effect_example : select_first (is_of 2) after_reset.db.sessions ≡ none
unfolding reset_password get_user_token_by_hash update_password update_user delete_user_token
    delete_all_user_sessions validate_password see_chars see_char require_strength
reset-effect_example =
    (reset-effect env auth_service "reset" strong world {w' = after_reset} refl refl refl).6

abbrev pub after_change : World
after_change = (change_password env auth_service "##" "Passw0rd!" strong world).1

change-effect_example : select_first (is_of 2) after_change.db.sessions ≡ none
unfolding change_password get_user_by_id update_password update_user delete_all_user_sessions
    validate_password see_chars see_char require_strength
change-effect_example =
    (change-effect env auth_service "##" "Passw0rd!" strong world {w' = after_change} refl refl).8
