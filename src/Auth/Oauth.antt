-- ===== src/Auth/Oauth.antt =====
-- internal/domain/auth/service/oauth.go: the providers of goth. goth and gorilla/sessions keep what
-- they are given; the model returns it.
use skillsphere_api.Common.{
  String, ◌<>◌, Bool, true, not, ◌&&◌, List, [], ◌∷◌, ◌++◌, is_empty, if◌then◌else◌,
}

pub record OauthConfig : Type 0 where
  pub google_client_id : String
  pub google_client_secret : String
  pub apple_client_id : String
  pub apple_secret : String
  pub apple_team_id : String
  pub apple_key_id : String
  pub callback_url : String
  pub session_secret : String

pub data ProviderKind : Type 0 where
  google apple : ProviderKind

-- What a provider is made with: the client, its secret, the callback and the scopes.
pub record Provider : Type 0 where
  pub kind : ProviderKind
  pub client_id : String
  pub secret : String
  pub callback : String
  pub scopes : List String

-- gothic.Store and the registered providers. The scopes of Apple are parameters.
pub record OauthSetup : Type 0 where
  pub session_secret : String
  pub http_only : Bool
  pub secure : Bool
  pub providers : List Provider

abbrev pub google_providers : OauthConfig → List Provider
google_providers c =
    if not (is_empty c.google_client_id) && not (is_empty c.google_client_secret)
    then record {
      kind = google;
      client_id = c.google_client_id;
      secret = c.google_client_secret;
      callback = c.callback_url <> "/google/callback";
      scopes = "email" ∷ "profile" ∷ [];
    }
      ∷ []
    else []

abbrev pub apple_providers : List String → OauthConfig → List Provider
apple_providers scopes c =
    if not (is_empty c.apple_client_id) && not (is_empty c.apple_secret)
    then record {
      kind = apple;
      client_id = c.apple_client_id;
      secret = c.apple_secret;
      callback = c.callback_url <> "/apple/callback";
      scopes = scopes;
    }
      ∷ []
    else []

unfoldable pub init_oauth : List String → OauthConfig → OauthSetup
init_oauth apple_scopes c = record {
  session_secret = c.session_secret;
  http_only = true;
  secure = true;
  providers = google_providers c ++ apple_providers apple_scopes c;
}

unfoldable pub load_oauth_config_from_env : (String → String) → OauthConfig
load_oauth_config_from_env getenv = record {
  google_client_id = getenv "GOOGLE_CLIENT_ID";
  google_client_secret = getenv "GOOGLE_CLIENT_SECRET";
  apple_client_id = getenv "APPLE_CLIENT_ID";
  apple_secret = getenv "APPLE_SECRET";
  apple_team_id = getenv "APPLE_TEAM_ID";
  apple_key_id = getenv "APPLE_KEY_ID";
  callback_url = getenv "OAUTH_CALLBACK_URL";
  session_secret = getenv "SESSION_SECRET";
}
