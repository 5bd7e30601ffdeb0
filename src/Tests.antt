-- ===== src/Tests.antt =====
-- A concrete environment and a small database, on which the theorems are applied.
mod Accounts
mod Journeys
mod Requests
mod Programs
mod Sessions
mod Server
mod Events
mod Jwt
mod Others
mod Tables
mod Setup
use skillsphere_api.World.{Db, World, Env, Claims, SigningMethod, hmac}
use Prim.Native.String.{len}
use skillsphere_api.Common.{
  ℕ, zero, suc, String, ◌<>◌, ◌+◌, Bool, true, false, ◌&&◌, Option, none, some, List, [], ◌∷◌, leb,
  ◌==◌, str_eq, if◌then◌else◌,
}
use skillsphere_api.Errors.{Error, Result, ok, err, foreign}
use skillsphere_api.Password.{CharClasses}
use skillsphere_api.Records.{
  User, UserSession, UserToken, OutboxRow, email_verification, password_reset,
}
use skillsphere_api.Ontology.Emitter.{outbox_emitter}
use skillsphere_api.Auth.Tokens.{TokenManager}
use skillsphere_api.Auth.Service.{AuthService, SessionMetadata}

abbrev pub between : ℕ → ℕ → ℕ → Bool
between a b c = leb a c && leb c b

abbrev pub ascii : CharClasses
ascii = record {
  is_upper = between 65 90;
  is_lower = between 97 122;
  is_digit = between 48 57;
  is_punct = between 33 47;
  is_symbol = λ c. false;
}

-- A text of so many marks.
abbrev pub marks : ℕ → String
marks zero = ""
marks (suc n) = "#" <> marks n

abbrev pub ann_claims : Claims
ann_claims = record {
  user_id = "##";
  email = "ann@x";
  username = "ann";
  role = "member";
  expires_at = some 1000;
  issued_at = some 100;
  not_before = some 100;
  token_id = "#";
}

abbrev pub check_hash : String → String → Option Error
check_hash hash password = if str_eq hash ("b" <> password) then none else some (foreign 1)

abbrev pub signed_claims : Result String → Result (Claims × Bool)
signed_claims (ok secret) = ok (ann_claims, true)
signed_claims (err e) = err e

abbrev pub fault_at : Option ℕ → ℕ → Option ℕ
fault_at none n = none
fault_at (some k) n = if n == k then some 7 else none

-- The environment whose database server fails at most at one draw.
abbrev pub env_with : Option ℕ → Env
env_with broken = record {
  now = λ n. 100 + n;
  new_uuid = λ n. 10 + n;
  classes = ascii;
  uuid_string = marks;
  uuid_parse = λ s. ok (len s);
  random_hex = λ n. ok ("r" <> marks n);
  sha256_hex = λ s. "h" <> s;
  bcrypt_generate = λ n password cost. ok ("b" <> password);
  bcrypt_compare = check_hash;
  fault = fault_at broken;
  locked = λ n id. false;
  error_text = λ e. "error";
  http_post = λ n endpoint payload. ok 500;
  signed_string = λ method claims secret. ok (claims.token_id <> "/" <> secret);
  parse_with_claims = λ now token key. signed_claims (key hmac);
  numeric_date = λ t. t;
  format_time = marks;
  json_marshal = λ d. ok "{}";
}

abbrev pub env : Env
env = env_with none

abbrev pub ann : User
ann = record {
  id = 2;
  email = "ann@x";
  username = "ann";
  hashed_password = "bPassw0rd!";
  display_name = "Ann";
  avatar_url = none;
  role = "member";
  is_active = true;
  email_verified_at = none;
  created_at = 1;
  updated_at = 1;
  last_login_at = none;
}

abbrev pub ann_session : UserSession
ann_session = record {
  id = 1;
  user_id = 2;
  hashed_refresh_token = "hold";
  user_agent = none;
  client_ip = none;
  expires_at = 10000;
  created_at = 1;
}

abbrev pub reset_row : UserToken
reset_row = record {
  token_hash = "hreset";
  user_id = 2;
  type = password_reset;
  expires_at = 10000;
  created_at = 1;
}

abbrev pub verify_row : UserToken
verify_row = record {
  token_hash = "hverify";
  user_id = 2;
  type = email_verification;
  expires_at = 10000;
  created_at = 1;
}

abbrev pub outbox_row : OutboxRow
outbox_row = record {
  id = 5;
  event_type = "sk:User";
  payload = "{}";
  created_at = 1;
  delivered_at = none;
}

abbrev no_tables : Db
no_tables = record { users = []; sessions = []; tokens = []; identities = []; outbox = [] }

abbrev pub world : World
world = record {
  tx = no_tables;
  db = record {
    users = ann ∷ [];
    sessions = ann_session ∷ [];
    tokens = reset_row ∷ verify_row ∷ [];
    identities = [];
    outbox = outbox_row ∷ [];
  };
  draws = 0;
  mails = [];
  sent = [];
  published = [];
  inserted = [];
}

abbrev pub auth_service : AuthService
auth_service = record {
  token_manager = record {
    access_secret = "a";
    refresh_secret = "r";
    access_ttl = 900;
    refresh_ttl = 9000;
  };
  has_email_service = true;
  session_ttl = 9000;
  ontology = some (outbox_emitter true);
}

abbrev pub metadata : SessionMetadata
metadata = record { user_agent = "agent"; client_ip = "" }

-- The value and the state that a run comes to.
abbrev pub or_default : {A : Type 0} → A → Result A → A
or_default d (ok a) = a
or_default d (err e) = d
