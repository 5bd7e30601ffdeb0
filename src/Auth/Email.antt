-- ===== src/Auth/Email.antt =====
-- internal/domain/auth/service/email_service.go: the mails of the auth service, sent by SMTP or,
-- where SMTP is not configured, printed. smtp.SendMail is a parameter.
pub mod Pages
pub mod Messages
pub mod Activation
use skillsphere_api.Common.{String, ◌<>◌, ◌||◌, Option, List, [], ◌∷◌, is_empty, if◌then◌else◌}
use skillsphere_api.Errors.{Error, ok}
use skillsphere_api.Action.{Action}
use skillsphere_api.World.{Mail, verification_mail, password_reset_mail, welcome_mail}
use skillsphere_api.Ontology.Emitter.{or_error}
use skillsphere_api.Auth.Email.Pages.{verification_page, password_reset_page, welcome_page}

-- `smtpEmailService`.
pub record EmailService : Type 0 where
  pub smtp_host : String
  pub smtp_port : String
  pub smtp_username : String
  pub smtp_password : String
  pub from_email : String
  pub from_name : String
  pub frontend_url : String

-- NewEmailService, where os.Getenv is the argument.
abbrev pub new_email_service : (String → String) → EmailService
new_email_service getenv = record {
  smtp_host = getenv "SMTP_HOST";
  smtp_port = getenv "SMTP_PORT";
  smtp_username = getenv "SMTP_USERNAME";
  smtp_password = getenv "SMTP_PASSWORD";
  from_email = getenv "FROM_EMAIL";
  from_name = getenv "FROM_NAME";
  frontend_url = getenv "FRONTEND_URL";
}

-- The arguments of smtp.PlainAuth.
pub record PlainAuth : Type 0 where
  pub identity : String
  pub username : String
  pub password : String
  pub host : String

-- The arguments of smtp.SendMail.
pub record Delivery : Type 0 where
  pub addr : String
  pub auth : PlainAuth
  pub from : String
  pub to : List String
  pub message : String

-- The lines printed and the calls of smtp.SendMail so far, the newest first.
pub record Post : Type 0 where
  pub printed : List String
  pub deliveries : List Delivery

abbrev pub message_text : String → String → String → String → String
message_text from to subject body =
    "From: " <> from <> "\r\nTo: " <> to <> "\r\nSubject: " <> subject
    <> "\r\nMIME-Version: 1.0\r\n" <> "Content-Type: text/html; charset=UTF-8\r\n\r\n" <> body
    <> "\r\n"

abbrev pub print : String → Action Post (Unit {0})
print line p = (ok tt, record p { printed = line ∷ p.printed })

module _ (smtp : Delivery → Option Error) (s : EmailService) where
  abbrev pub send_mail : Delivery → Action Post (Unit {0})
  send_mail d p = (or_error (smtp d), record p { deliveries = d ∷ p.deliveries })

  unfoldable pub send_email : String → String → String → Action Post (Unit {0})
  send_email to subject body =
      if is_empty s.smtp_host || is_empty s.smtp_port
      then print ("Email would be sent to " <> to <> " with subject: " <> subject <> "\n")
      else send_mail (record {
        addr = s.smtp_host <> ":" <> s.smtp_port;
        auth = record {
          identity = "";
          username = s.smtp_username;
          password = s.smtp_password;
          host = s.smtp_host;
        };
        from = s.from_email;
        to = to ∷ [];
        message = message_text (s.from_name <> " <" <> s.from_email <> ">") to subject body;
      })

  unfoldable pub send_verification_email : String → String → String → Action Post (Unit {0})
  unfolding send_email
  send_verification_email to_email to_name token =
      send_email to_email "Verify Your Email - SkillSphere"
        (verification_page to_name (s.frontend_url <> "/verify-email?token=" <> token))

  unfoldable pub send_password_reset_email : String → String → String → Action Post (Unit {0})
  unfolding send_email
  send_password_reset_email to_email to_name token =
      send_email to_email "Reset Your Password - SkillSphere"
        (password_reset_page to_name (s.frontend_url <> "/reset-password?token=" <> token))

  unfoldable pub send_welcome_email : String → String → Action Post (Unit {0})
  unfolding send_email
  send_welcome_email to_email to_name =
      send_email to_email "Welcome to SkillSphere!"
        (welcome_page to_name (s.frontend_url <> "/dashboard"))

  -- The call that the goroutine of a mail makes; its error is dropped there.
  unfoldable pub send : Mail → Action Post (Unit {0})
  unfolding send_verification_email send_password_reset_email send_welcome_email
  send (verification_mail email name token) = send_verification_email email name token
  send (password_reset_mail email name token) = send_password_reset_email email name token
  send (welcome_mail email name) = send_welcome_email email name
