-- ===== src/Auth/Email/Activation.antt =====
-- From RegisterUser by the mail to VerifyEmail: the service and the sender of mails together.
use skillsphere_api.Common.{
  refl, ℕ, String, ◌<>◌, ◌≡◌, ◌+◌, ◌*◌, ap, ◌∙◌, true, false, Option, some, none, ltb, is_empty,
  select_first, [], ◌∷◌,
}
use skillsphere_api.Errors.{Error, ok}
use skillsphere_api.World.{World, Env, verification_mail, after}
use skillsphere_api.Ontology.Emitter.{or_error}
use skillsphere_api.Auth.Repository.{has_id}
use skillsphere_api.Auth.Service.{AuthService, hour}
use skillsphere_api.Auth.Registration.{RegisterParams, RegisterResult, register_user, confirm_email}
use skillsphere_api.Auth.Registration.Accounts.{register-enrolls}
use skillsphere_api.Auth.Registration.Verification.{verified_at}
use skillsphere_api.Auth.Registration.Journey.{register-confirm_email}
use skillsphere_api.Auth.Email.{EmailService, Delivery, Post, send}
use skillsphere_api.Auth.Email.Pages.{Occurs}
use skillsphere_api.Auth.Email.Messages.{send-HandedOver}

module _ (env : Env) (s : AuthService) (smtp : Delivery → Option Error)
    (mailer : EmailService) where
  -- Where the service has an email service whose SMTP host and port are set, the server runs every
  -- statement and random texts are not empty: a registration that succeeds starts one mail, which
  -- is handed to SMTP for the registered email only, and in its message occurs the frontend's link
  -- with a token. VerifyEmail with that token returns the registered user and leaves it verified,
  -- as long as the tables are as the registration left them and the clock has not come to a day
  -- after the token was made.
  pub register-activates :
      (params : RegisterParams) (w v : World) (p : Post) {w' : World} {r : RegisterResult}
      → s.has_email_service ≡ true
      → is_empty mailer.smtp_host ≡ false
      → is_empty mailer.smtp_port ≡ false
      → ((n : ℕ) → env.fault n ≡ none)
      → ((n : ℕ) (text : String) → env.random_hex n ≡ ok text → is_empty text ≡ false)
      → register_user env s params w ≡ (ok r, w')
      → v.db ≡ w'.db
      → ltb (env.now v.draws) (env.now (after 14 w) + 24 * hour) ≡ true
      → (token : String) × (d : Delivery) × (w'.mails
          ≡ verification_mail r.user.email r.user.display_name token ∷ w.mails)
        × (send smtp mailer (verification_mail r.user.email r.user.display_name token) p
            ≡ (or_error (smtp d), record p { deliveries = d ∷ p.deliveries }))
        × (d.to ≡ params.email ∷ [])
        × Occurs (mailer.frontend_url <> "/verify-email?token=" <> token) d.message
        × ((confirm_email env s token v).0 ≡ ok r.user.id)
        × (select_first (has_id r.user.id) (confirm_email env s token v).1.db.users
            ≡ some (verified_at env s (env.now (after 2 v)) (env.now (after 3 v)) r.user))
  register-activates params w v p {r = r} has host port runs texts h same early =
      let (hashed, valid, free, made, e) = register-enrolls env s params w h in
      let (token, mails, confirmed, stored) =
        register-confirm_email env s params w v runs texts h same early in
      let m = verification_mail r.user.email r.user.display_name token in
      let (d, sent, handed) = send-HandedOver smtp mailer p host port m in
      (
        token,
        d,
        mails ∙ rw has refl,
        sent,
        handed.receivers ∙ ap (λ x. x ∷ []) e.email,
        handed.has_link,
        confirmed,
        stored,
      )
