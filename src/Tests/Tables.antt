-- ===== src/Tests/Tables.antt =====
-- The theorems on the tables, the sessions and the outbox over a history at concrete inputs.
use skillsphere_api.Common.{String, ◌≡◌, refl, none, List, [], ◌∷◌}
use skillsphere_api.World.{World, advance}
use skillsphere_api.Auth.Repository.{get_user_session_by_token}
use skillsphere_api.Auth.Handler.{handle_logout}
use skillsphere_api.Auth.Integrity.{IsValid}
use skillsphere_api.Auth.Integrity.SessionStore.{
  StoreCall, creates, deletes, run, replay, read, view, run-refines,
}
use skillsphere_api.Strconv.{Bytes}
use skillsphere_api.Worker.{Host}
use skillsphere_api.Tests.{env, auth_service, world}

abbrev pub world-IsValid : IsValid world.db
world-IsValid = record {
  users = record { ids = (refl, tt); emails = (refl, tt); usernames = (refl, tt) };
  session_ids = (refl, tt);
  session_hashes = (refl, tt);
  sessions_owned = (refl, tt);
  token_hashes = (refl, (refl, tt));
  tokens_owned = (refl, (refl, tt));
  identities = tt;
  identities_owned = tt;
}

abbrev logged_out : World
logged_out = (handle_logout env auth_service "old" world).1

abbrev calls : List StoreCall
calls = creates 2 "hnew" "curl" "::1" 900 ∷ deletes "hold" ∷ []

run-refines_example :
    (get_user_session_by_token env "hnew" (run env calls world)).0
    ≡ read
        (env.fault (advance (run env calls world)).draws)
        (env.now (run env calls world).draws)
        (replay env calls world (view world.db) "hnew")
run-refines_example = run-refines env calls world "hnew" world-IsValid

abbrev text : Bytes → String
text [] = ""
text (b ∷ s) = "text"

abbrev host : Host
host = record { getenv = λ key. []; sql_open = λ s. none; text = text }
