-- ===== src/Tests/Sessions.antt =====
-- The theorems on logins and sessions at concrete inputs.
use skillsphere_api.Tests.{
  ann_claims, ann_session, env, env_with, world, auth_service, metadata, ann, or_default,
}
use skillsphere_api.Auth.Sessions.{
  refresh_user, generate_tokens_for, reissue, LoginParams, LoginResult, RefreshTokenParams, login,
  logout, refresh_tokens, compare_password,
}
use skillsphere_api.Auth.Sessions.Replay.{refresh-replay}
use skillsphere_api.Common.{
  ◌≤◌, suc, arith, eq_iff, ◌+◌, ℕ, ◌≡◌, refl, true, none, some, select_first,
}
use skillsphere_api.Auth.Repository.{
  delete_user_session, get_user_by_id, get_user_session_by_token, insert_session,
  create_user_session, get_user_by_email, has_email, has_token,
}
use skillsphere_api.Auth.Tokens.{
  validate_token, generate_token_pair, TokenPair, validate_refresh_token,
}
use skillsphere_api.Auth.Service.{create_session}
use skillsphere_api.Errors.{ok}
use skillsphere_api.Records.{User, UserSession}
use skillsphere_api.World.{World}
use skillsphere_api.Auth.Sessions.Login.{login-authenticates, login-opens-session, login-accepts}
use skillsphere_api.Auth.Sessions.Rotation.{logout-closes-session, refresh-rotates, Checked}

abbrev ann_login : LoginParams
ann_login = record { email = "ann@x"; password = "Passw0rd!"; metadata = metadata }

abbrev no_tokens : TokenPair
no_tokens = record { access_token = ""; refresh_token = ""; expires_at = 0; token_type = "" }

abbrev logged_in : LoginResult
logged_in =
    or_default (record { user = ann; tokens = no_tokens })
      (login env auth_service ann_login world).0

abbrev after_login : World
after_login = (login env auth_service ann_login world).1

login-authenticates_example :
    (select_first (has_email "ann@x") world.db.users ≡ some logged_in.user)
    × (logged_in.user.is_active ≡ true)
    × (compare_password env logged_in.user.hashed_password "Passw0rd!" ≡ true)
unfolding login get_user_by_email generate_token_pair create_session create_user_session
    insert_session
login-authenticates_example =
    login-authenticates env auth_service ann_login world {w' = after_login} {r = logged_in} refl

login-opens-session_example :
    (u : UserSession) × (n : ℕ) × (select_first
        (has_token (env.sha256_hex logged_in.tokens.refresh_token))
        after_login.db.sessions
      ≡ some u)
    × (u.user_id ≡ logged_in.user.id)
    × (world.draws ≤ n)
    × (suc n ≤ after_login.draws)
    × (u.expires_at ≡ env.now n + auth_service.session_ttl)
unfolding login get_user_by_email generate_tokens_for generate_token_pair create_session
    create_user_session insert_session
login-opens-session_example =
    login-opens-session env auth_service ann_login world {w' = after_login} {r = logged_in} refl

login-accepts_example :
    (login env auth_service ann_login world).0
    ≡ ok (record { user = ann; tokens = logged_in.tokens })
unfolding login get_user_by_email generate_tokens_for generate_token_pair create_session
    create_user_session insert_session
login-accepts_example =
    login-accepts env auth_service ann_login world ann logged_in.tokens (λ n. refl) refl refl refl
      refl refl

logout-closes-session_example :
    let (r, w') = logout env auth_service "old" world in
    (r ≡ ok tt)
    × (select_first (has_token "hold") w'.db.sessions ≡ none)
    × (select_first (has_token "hnew") w'.db.sessions
        ≡ select_first (has_token "hnew") world.db.sessions)
    × (w'.db ≡ record world.db { sessions = w'.db.sessions })
logout-closes-session_example =
    logout-closes-session env auth_service "old" "hnew" world refl refl
      (λ e. ground (arith, eq_iff "hold" "hnew"))

abbrev old_token : RefreshTokenParams
old_token = record { refresh_token = "old"; metadata = metadata }

abbrev rotated : TokenPair
rotated = or_default no_tokens (refresh_tokens env auth_service old_token world).0

abbrev after_rotation : World
after_rotation = (refresh_tokens env auth_service old_token world).1

refresh-rotates_example :
    (user : User) × (w1 : World) × (new : UserSession) × Checked env auth_service old_token world
      user w1
    × (select_first (has_token "hold") after_rotation.db.sessions ≡ none)
    × (select_first (has_token (env.sha256_hex rotated.refresh_token)) after_rotation.db.sessions
        ≡ some new)
    × (new.user_id ≡ user.id)
unfolding refresh_tokens refresh_user reissue validate_refresh_token validate_token
    get_user_session_by_token get_user_by_id delete_user_session generate_tokens_for
    generate_token_pair create_session create_user_session insert_session
refresh-rotates_example =
    refresh-rotates env auth_service old_token world {w' = after_rotation} {pair = rotated} refl
      refl (λ e. ground (arith, eq_iff "hold" (env.sha256_hex rotated.refresh_token)))

-- The server fails to run the fifth draw, which is the deletion of the old session.
abbrev replayed : TokenPair
replayed = or_default no_tokens (refresh_tokens (env_with (some 4)) auth_service old_token world).0

abbrev after_replay : World
after_replay = (refresh_tokens (env_with (some 4)) auth_service old_token world).1

refresh-replay_example :
    (user : User) × ((refresh_user (env_with (some 4)) auth_service old_token world).0 ≡ ok user)
    × ((refresh_user (env_with (some 4)) auth_service old_token after_replay).0 ≡ ok user)
unfolding refresh_tokens refresh_user reissue validate_refresh_token validate_token
    get_user_session_by_token get_user_by_id delete_user_session generate_tokens_for
    generate_token_pair create_session create_user_session insert_session
refresh-replay_example =
    refresh-replay (env_with (some 4)) auth_service old_token world {w' = after_replay}
      {pair = replayed} {e = 7} refl refl
      (λ e. ground (arith, eq_iff "hold" (env.sha256_hex replayed.refresh_token))) after_replay
      ann_claims ann_session refl refl refl refl (omega arith) refl refl refl
