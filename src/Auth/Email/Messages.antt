-- ===== src/Auth/Email/Messages.antt =====
-- What the mails of Auth/Email are and where they go.
use skillsphere_api.Common.{String, ◌<>◌, ◌≡◌, refl, true, false, ◌||◌, Option, [], ◌∷◌, is_empty}
use skillsphere_api.Errors.{Error, ok}
use skillsphere_api.World.{Mail, verification_mail, password_reset_mail, welcome_mail}
use skillsphere_api.Ontology.Emitter.{or_error}
use skillsphere_api.Auth.Email.{
  EmailService, Delivery, Post, message_text, send, send_email, send_verification_email,
  send_password_reset_email, send_welcome_email,
}
use skillsphere_api.Auth.Email.Pages.{
  Occurs, Occurs-before, Occurs-after, Occurs-verification_page, Occurs-password_reset_page,
  Occurs-welcome_page,
}

-- The receiver of a mail, its subject, and the link that the mail is about.
abbrev pub recipient : Mail → String
recipient (verification_mail email name token) = email
recipient (password_reset_mail email name token) = email
recipient (welcome_mail email name) = email

abbrev pub subject : Mail → String
subject (verification_mail email name token) = "Verify Your Email - SkillSphere"
subject (password_reset_mail email name token) = "Reset Your Password - SkillSphere"
subject (welcome_mail email name) = "Welcome to SkillSphere!"

abbrev pub link : String → Mail → String
link frontend (verification_mail email name token) = frontend <> "/verify-email?token=" <> token
link frontend (password_reset_mail email name token) = frontend <> "/reset-password?token=" <> token
link frontend (welcome_mail email name) = frontend <> "/dashboard"

Occurs-message_text :
    (from to title body link : String)
    → Occurs link body
    → Occurs link (message_text from to title body)
Occurs-message_text from to title body link h = Occurs-after link _ _ (
    Occurs-after link from _ (
      Occurs-after link _ _ (
        Occurs-after link to _ (
          Occurs-after link _ _ (
            Occurs-after link title _
              (Occurs-after link _ _ (Occurs-after link _ _ (Occurs-before link body _ h))))))))

module _ (smtp : Delivery → Option Error) (s : EmailService) where
  -- One hand-over of a mail to SMTP.
  pub record HandedOver (to link : String) (d : Delivery) : Type 0 where
    pub receivers : d.to ≡ to ∷ []
    pub sender : d.from ≡ s.from_email
    pub address : d.addr ≡ s.smtp_host <> ":" <> s.smtp_port
    pub has_link : Occurs link d.message

  module _ (p : Post) (host : is_empty s.smtp_host ≡ false)
      (port : is_empty s.smtp_port ≡ false) where
    send_email-HandedOver :
        (to title body link : String)
        → Occurs link body
        → (d : Delivery) × (send_email smtp s to title body p
            ≡ (or_error (smtp d), record p { deliveries = d ∷ p.deliveries }))
          × HandedOver to link d
    unfolding send_email
    send_email-HandedOver to title body link h = (
      record {
        addr = s.smtp_host <> ":" <> s.smtp_port;
        auth = record {
          identity = "";
          username = s.smtp_username;
          password = s.smtp_password;
          host = s.smtp_host;
        };
        from = s.from_email;
        to = to ∷ [];
        message = message_text (s.from_name <> " <" <> s.from_email <> ">") to title body;
      },
      rw (host, port) refl,
      record {
        receivers = refl;
        sender = refl;
        address = refl;
        has_link =
            Occurs-message_text (s.from_name <> " <" <> s.from_email <> ">") to title body link h;
      },
    )

    -- Where both the host and the port of SMTP are set, sending a mail calls SMTP once, for the
    -- mail's receiver only, from the configured address, at the configured host and port and with
    -- a message in which the mail's link occurs; it returns what SMTP answers and prints nothing.
    pub send-HandedOver :
        (m : Mail)
        → (d : Delivery) × (send smtp s m p
            ≡ (or_error (smtp d), record p { deliveries = d ∷ p.deliveries }))
          × HandedOver (recipient m) (link s.frontend_url m) d
    unfolding send send_verification_email send_password_reset_email send_welcome_email
    send-HandedOver (verification_mail email name token) =
        send_email-HandedOver email "Verify Your Email - SkillSphere" _ _
          (Occurs-verification_page name _)
    send-HandedOver (password_reset_mail email name token) =
        send_email-HandedOver email "Reset Your Password - SkillSphere" _ _
          (Occurs-password_reset_page name _)
    send-HandedOver (welcome_mail email name) =
        send_email-HandedOver email "Welcome to SkillSphere!" _ _ (Occurs-welcome_page name _)

  -- Where the host or the port of SMTP is not set, sending a mail prints the mail's receiver and
  -- its subject, calls SMTP not at all and succeeds.
  pub send-unconfigured :
      (m : Mail) (p : Post)
      → (is_empty s.smtp_host || is_empty s.smtp_port) ≡ true
      → let line =
          "Email would be sent to " <> recipient m <> " with subject: " <> subject m <> "\n" in
        send smtp s m p ≡ (ok tt, record p { printed = line ∷ p.printed })
  unfolding send send_verification_email send_password_reset_email send_welcome_email send_email
  send-unconfigured (verification_mail email name token) p unset = rw unset refl
  send-unconfigured (password_reset_mail email name token) p unset = rw unset refl
  send-unconfigured (welcome_mail email name) p unset = rw unset refl
