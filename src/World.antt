-- ===== src/World.antt =====
-- The state that the services share, and what they ask of libraries and of the machine.
-- Every draw from outside (the clock, random bytes, a new UUID, the database server) is answered
-- by the environment at the number of draws made so far, so any sequence of answers is covered.
use skillsphere_api.Common.{ℕ, zero, suc, String, Bool, Option, none, some, List, ◌∷◌}
use skillsphere_api.Ontology.Event.{Document}
use skillsphere_api.Password.{CharClasses}
use skillsphere_api.Errors.{Error, Result, ok, err, foreign}
use skillsphere_api.Action.{Action}
use skillsphere_api.Records.{User, UserSession, UserToken, OauthIdentity, OutboxRow}

-- A message that a goroutine is started to send.
pub data Mail : Type 0 where
  verification_mail : String → String → String → Mail
  password_reset_mail : String → String → String → Mail
  welcome_mail : String → String → Mail

-- The tables.
pub record Db : Type 0 where
  pub users : List User
  pub sessions : List UserSession
  pub tokens : List UserToken
  pub identities : List OauthIdentity
  pub outbox : List OutboxRow

pub record World : Type 0 where
  pub db : Db
  -- the tables as the open transaction sees them
  pub tx : Db
  -- the number of draws from the environment so far
  pub draws : ℕ
  -- the mails for which a goroutine was started, the newest first
  pub mails : List Mail
  -- the payloads handed to a log or to a sender function, the newest first
  pub sent : List String
  -- what the outbox worker handed to Kafka, with its topic, and to the triple store, newest first
  pub published : List (String × String)
  pub inserted : List String

pub data SigningMethod : Type 0 where
  hmac other_method : SigningMethod

-- The claims of a token: service.Claims and interceptors.Claims, which have the same fields.
pub record Claims : Type 0 where
  pub user_id : String
  pub email : String
  pub username : String
  pub role : String
  pub expires_at : Option ℕ
  pub issued_at : Option ℕ
  pub not_before : Option ℕ
  pub token_id : String

-- What is not in the repository: the clock, crypto/rand, crypto/sha256, google/uuid, bcrypt,
-- golang-jwt, encoding/json, time formatting, and the database server's own failures.
pub record Env : Type 0 where
  pub now : ℕ → ℕ
  pub new_uuid : ℕ → ℕ
  -- the tables of the package unicode
  pub classes : CharClasses
  pub uuid_string : ℕ → String
  pub uuid_parse : String → Result ℕ
  -- rand.Read of 32 bytes, then hex.EncodeToString
  pub random_hex : ℕ → Result String
  -- sha256.Sum256, then hex.EncodeToString
  pub sha256_hex : String → String
  pub bcrypt_generate : ℕ → String → ℕ → Result String
  pub bcrypt_compare : String → String → Option Error
  -- the number of the driver's error for a statement that the server failed to run
  pub fault : ℕ → Option ℕ
  -- the rows that another transaction has locked at a draw
  pub locked : ℕ → ℕ → Bool
  -- the text of an error, err.Error()
  pub error_text : Error → String
  -- the status of the response to a POST of a payload to an endpoint
  pub http_post : ℕ → String → String → Result ℕ
  -- NewWithClaims(method, claims).SignedString(secret)
  pub signed_string : SigningMethod → Claims → String → Result String
  -- ParseWithClaims at a time, with the source's key function; and token.Valid
  pub parse_with_claims : ℕ → String → (SigningMethod → Result String) → Result (Claims × Bool)
  pub numeric_date : ℕ → ℕ
  pub format_time : ℕ → String
  -- json.Marshal of the document of an event
  pub json_marshal : Document → Result String

abbrev pub advance : World → World
advance w = record w { draws = suc w.draws }

-- The number of the draw that follows so many others.
abbrev pub after : ℕ → World → ℕ
after zero w = w.draws
after (suc k) w = suc (after k w)

-- A draw from the environment.
abbrev pub draw : {A : Type 0} → (ℕ → A) → Action World A
draw f w = (ok (f w.draws), advance w)

-- A draw that may fail.
abbrev pub draw_result : {A : Type 0} → (ℕ → Result A) → Action World A
draw_result f w = (f w.draws, advance w)

-- What a statement does that the server runs, or the error of one that it fails to run.
abbrev pub run_statement : {A : Type 0} → Option ℕ → (Db → Result A × Db) → Action World A
run_statement (some e) run w = (err (foreign e), advance w)
run_statement none run w = let (r, db') = run w.db in (r, record (advance w) { db = db' })

-- db.QueryRowContext(…).Scan and db.ExecContext.
abbrev pub statement : {A : Type 0} → Env → (Db → Result A × Db) → Action World A
statement env run w = run_statement (env.fault w.draws) run w

-- The same of a transaction's handle, which reads and writes what the transaction sees.
abbrev pub run_in_tx : {A : Type 0} → Option ℕ → (Db → Result A × Db) → Action World A
run_in_tx (some e) run w = (err (foreign e), advance w)
run_in_tx none run w = let (r, tx') = run w.tx in (r, record (advance w) { tx = tx' })

abbrev pub tx_statement : {A : Type 0} → Env → (Db → Result A × Db) → Action World A
tx_statement env run w = run_in_tx (env.fault w.draws) run w

-- BeginTx: the transaction sees the tables as they are.
abbrev pub begin_on : Option ℕ → Action World (Unit {0})
begin_on (some e) w = (err (foreign e), advance w)
begin_on none w = (ok tt, record (advance w) { tx = w.db })

abbrev pub begin_tx : Env → Action World (Unit {0})
begin_tx env w = begin_on (env.fault w.draws) w

-- Commit: the tables become what the transaction sees. A transaction that is not committed leaves
-- nothing, so a Rollback has nothing to change.
abbrev pub commit_on : Option ℕ → Action World (Unit {0})
commit_on (some e) w = (err (foreign e), advance w)
commit_on none w = (ok tt, record (advance w) { db = w.tx })

abbrev pub commit : Env → Action World (Unit {0})
commit env w = commit_on (env.fault w.draws) w

-- `go f(…)` for a mail.
abbrev pub start_mail : Mail → Action World (Unit {0})
start_mail m w = (ok tt, record w { mails = m ∷ w.mails })
