-- ===== src/Auth/Email/Pages.antt =====
-- internal/domain/auth/service/email_service.go: the HTML of the three mails. A page is the text
-- of its template, with a name and a link put in as they are.
use text.Mathlib.TextLemmas.{append_assoc, nil-append}
use skillsphere_api.Common.{String, ◌<>◌, ◌≡◌, sym, ap, ◌∙◌}

abbrev page_start : String
page_start =
    "\n" <> "<!DOCTYPE html>\n" <> "<html>\n" <> "<head>\n" <> "    <meta charset=\"UTF-8\">\n"
    <> "    <meta name=\"viewport\" content=\"width=device-width, initial-scale=1.0\">\n"
    <> "</head>\n"
    <> "<body style=\"font-family: Arial, sans-serif; line-height: 1.6; color: #333; max-width: 600px; margin: 0 auto; padding: 20px;\">\n"
    <> "    <div style=\"background-color: #f8f9fa; border-radius: 10px; padding: 30px;\">\n"
    <> "        <h1 style=\"color: #4a5568; margin-bottom: 20px;\">"

abbrev page_end : String
page_end = "    </div>\n" <> "</body>\n" <> "</html>\n" <> "\t"

abbrev verification_greeting : String
verification_greeting = "Welcome to SkillSphere!</h1>\n" <> "        <p>Hi "

abbrev verification_text : String
verification_text =
    ",</p>\n"
    <> "        <p>Thank you for registering with SkillSphere. Please verify your email address by clicking the button below:</p>\n"
    <> "        <div style=\"text-align: center; margin: 30px 0;\">\n" <> "            <a href=\""

abbrev verification_button : String
verification_button =
    "\" style=\"background-color: #4f46e5; color: white; padding: 12px 30px; text-decoration: none; border-radius: 5px; display: inline-block;\">Verify Email</a>\n"
    <> "        </div>\n"
    <> "        <p style=\"color: #6b7280; font-size: 14px;\">Or copy and paste this link into your browser:</p>\n"
    <> "        <p style=\"word-break: break-all; color: #6b7280; font-size: 12px;\">"

abbrev verification_footer : String
verification_footer =
    "</p>\n"
    <> "        <p style=\"margin-top: 30px; color: #6b7280; font-size: 14px;\">This link will expire in 24 hours.</p>\n"
    <> "        <p style=\"margin-top: 30px; color: #6b7280; font-size: 12px;\">If you didn't create an account, please ignore this email.</p>\n"

abbrev password_reset_greeting : String
password_reset_greeting = "Password Reset Request</h1>\n" <> "        <p>Hi "

abbrev password_reset_text : String
password_reset_text =
    ",</p>\n"
    <> "        <p>We received a request to reset your password. Click the button below to create a new password:</p>\n"
    <> "        <div style=\"text-align: center; margin: 30px 0;\">\n" <> "            <a href=\""

abbrev password_reset_button : String
password_reset_button =
    "\" style=\"background-color: #dc2626; color: white; padding: 12px 30px; text-decoration: none; border-radius: 5px; display: inline-block;\">Reset Password</a>\n"
    <> "        </div>\n"
    <> "        <p style=\"color: #6b7280; font-size: 14px;\">Or copy and paste this link into your browser:</p>\n"
    <> "        <p style=\"word-break: break-all; color: #6b7280; font-size: 12px;\">"

abbrev password_reset_footer : String
password_reset_footer =
    "</p>\n"
    <> "        <p style=\"margin-top: 30px; color: #6b7280; font-size: 14px;\">This link will expire in 1 hour.</p>\n"
    <> "        <p style=\"margin-top: 30px; color: #dc2626; font-size: 12px; font-weight: bold;\">If you didn't request a password reset, please ignore this email or contact support if you have concerns.</p>\n"

abbrev welcome_greeting : String
welcome_greeting = "🎉 Welcome to SkillSphere!</h1>\n" <> "        <p>Hi "

abbrev welcome_text : String
welcome_text =
    ",</p>\n" <> "        <p>Your email has been verified successfully! You can now:</p>\n"
    <> "        <ul style=\"margin: 20px 0;\">\n"
    <> "            <li>Create your skill profile</li>\n"
    <> "            <li>Match with other users</li>\n"
    <> "            <li>Schedule skill exchange sessions</li>\n"
    <> "            <li>Start learning and teaching</li>\n" <> "        </ul>\n"
    <> "        <div style=\"text-align: center; margin: 30px 0;\">\n" <> "            <a href=\""

abbrev welcome_footer : String
welcome_footer =
    "\" style=\"background-color: #10b981; color: white; padding: 12px 30px; text-decoration: none; border-radius: 5px; display: inline-block;\">Get Started</a>\n"
    <> "        </div>\n" <> "        <p style=\"margin-top: 30px;\">Happy learning!</p>\n"
    <> "        <p>The SkillSphere Team</p>\n"

abbrev pub verification_page : String → String → String
verification_page name link =
    page_start <> verification_greeting <> name <> verification_text <> link <> verification_button
    <> link <> verification_footer <> page_end

abbrev pub password_reset_page : String → String → String
password_reset_page name link =
    page_start <> password_reset_greeting <> name <> password_reset_text <> link
    <> password_reset_button <> link <> password_reset_footer <> page_end

-- The template of the welcome mail has "%s/dashboard" for the link.
abbrev pub welcome_page : String → String → String
welcome_page name link =
    page_start <> welcome_greeting <> name <> welcome_text <> link <> welcome_footer <> page_end

-- The first text occurs in the second.
abbrev pub Occurs : String → String → Type 0
Occurs s t = (before : String) × (after : String) × (t ≡ before <> s <> after)

pub Occurs-after : (s a t : String) → Occurs s t → Occurs s (a <> t)
Occurs-after s a t (before, after, e) =
    (a <> before, after, ap (λ u. a <> u) e ∙ sym (append_assoc a before (s <> after)))

pub Occurs-before : (s t a : String) → Occurs s t → Occurs s (t <> a)
Occurs-before s t a (before, after, e) = (
  before,
  after <> a,
  ap (λ u. u <> a) e
      ∙ append_assoc before (s <> after) a
      ∙ ap (λ u. before <> u) (append_assoc s after a),
)

Occurs-here : (s a : String) → Occurs s (s <> a)
Occurs-here s a = ("", a, sym (nil-append (s <> a)))

-- What stands between a name and the end of a page, behind a start.
Occurs-page :
    (start greeting name text link rest : String)
    → Occurs link (start <> greeting <> name <> text <> link <> rest)
Occurs-page start greeting name text link rest = Occurs-after link start _ (
    Occurs-after link greeting _
      (Occurs-after link name _ (Occurs-after link text _ (Occurs-here link rest))))

pub Occurs-verification_page : (name link : String) → Occurs link (verification_page name link)
Occurs-verification_page name link =
    Occurs-page page_start verification_greeting name verification_text link _

pub Occurs-password_reset_page : (name link : String) → Occurs link (password_reset_page name link)
Occurs-password_reset_page name link =
    Occurs-page page_start password_reset_greeting name password_reset_text link _

pub Occurs-welcome_page : (name link : String) → Occurs link (welcome_page name link)
Occurs-welcome_page name link = Occurs-page page_start welcome_greeting name welcome_text link _
