-- ===== src/Auth/Presenter.antt =====
-- internal/domain/auth/presenter/presenter.go: the responses of the RPCs. A pointer to a
-- protobuf timestamp is an optional time.
use skillsphere_api.Common.{
  ℕ, String, Bool, false, Option, none, some, ◌==◌, is_some, if◌then◌else◌,
}
use skillsphere_api.Records.{User}
use skillsphere_api.World.{Env}
use skillsphere_api.Auth.Tokens.{TokenPair}
use skillsphere_api.Auth.Sessions.{LoginResult}
use skillsphere_api.Auth.Registration.{RegisterResult}

pub record RegisterResponse : Type 0 where
  pub user_id : String
  pub access_token : String
  pub refresh_token : String
  pub expires_at : Option ℕ
  pub email_verification_required : Bool

pub record UserProfile : Type 0 where
  pub user_id : String
  pub email : String
  pub username : String
  pub display_name : String
  pub avatar_url : String
  pub is_verified : Bool

pub record LoginResponse : Type 0 where
  pub user_id : String
  pub access_token : String
  pub refresh_token : String
  pub expires_at : Option ℕ
  pub user : Option UserProfile

pub record RefreshTokenResponse : Type 0 where
  pub access_token : String
  pub refresh_token : String
  pub expires_at : Option ℕ

unfoldable pub timestamp : ℕ → Option ℕ
timestamp t = if t == 0 then none else some t

abbrev pub or_empty : Option String → String
or_empty none = ""
or_empty (some s) = s

module _ (env : Env) where
  -- userProfile of a user that is not nil.
  abbrev pub profile_of : User → UserProfile
  profile_of u = record {
    user_id = env.uuid_string u.id;
    email = u.email;
    username = u.username;
    display_name = u.display_name;
    avatar_url = or_empty u.avatar_url;
    is_verified = is_some u.email_verified_at;
  }

  unfoldable pub user_profile : Option User → Option UserProfile
  user_profile none = none
  user_profile (some u) = some (profile_of u)

  unfoldable pub register_response : Option RegisterResult → RegisterResponse
  unfolding timestamp
  register_response none = record {
    user_id = "";
    access_token = "";
    refresh_token = "";
    expires_at = none;
    email_verification_required = false;
  }
  register_response (some r) = record {
    user_id = env.uuid_string r.user.id;
    access_token = r.tokens.access_token;
    refresh_token = r.tokens.refresh_token;
    expires_at = timestamp r.tokens.expires_at;
    email_verification_required = r.email_verification_required;
  }

  unfoldable pub login_response : Option LoginResult → LoginResponse
  unfolding timestamp user_profile
  login_response none = record {
    user_id = "";
    access_token = "";
    refresh_token = "";
    expires_at = none;
    user = none;
  }
  login_response (some r) = record {
    user_id = env.uuid_string r.user.id;
    access_token = r.tokens.access_token;
    refresh_token = r.tokens.refresh_token;
    expires_at = timestamp r.tokens.expires_at;
    user = user_profile (some r.user);
  }

unfoldable pub refresh_token_response : Option TokenPair → RefreshTokenResponse
unfolding timestamp
refresh_token_response none = record { access_token = ""; refresh_token = ""; expires_at = none }
refresh_token_response (some t) = record {
  access_token = t.access_token;
  refresh_token = t.refresh_token;
  expires_at = timestamp t.expires_at;
}
