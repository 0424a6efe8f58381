-- ===== src/Config.antt =====
-- oauth/config.go: the configuration, field by field. Durations count nanoseconds.
use go_mcp_oauth_sdk.Prelude.{String, Bool, false, List, []}
use go_mcp_oauth_sdk.Prelude.Int.{ℤ, pos}

pub record OauthConfig : Type 0 where
  pub enabled : Bool
  pub issuer : String
  pub jwks_url : String
  pub audience : String
  pub public_resource_url : String
  pub public_auth_server_url : String
  pub client_id : String
  pub client_secret : String
  pub token_url : String
  pub auth_url : String
  pub user_info_url : String
  pub scopes : List String
  pub upstream_offline_access : Bool
  pub upstream_force_consent : Bool
  pub broker : Bool
  pub required_scopes : List String
  pub authorization_path : String
  pub callback_path : String
  pub token_path : String
  pub access_token_ttl_seconds : ℤ
  pub refresh_token_ttl_seconds : ℤ
  pub jwks_cache_ttl : ℤ
  pub signing_secret : String
  pub strict_jwt_only : Bool
  pub role_claim : String
  pub role_filter : String
  pub username_claim : String

-- `OAuthConfig{}`
abbrev pub zero_config : OauthConfig
zero_config = record {
  enabled = false;
  issuer = "";
  jwks_url = "";
  audience = "";
  public_resource_url = "";
  public_auth_server_url = "";
  client_id = "";
  client_secret = "";
  token_url = "";
  auth_url = "";
  user_info_url = "";
  scopes = [];
  upstream_offline_access = false;
  upstream_force_consent = false;
  broker = false;
  required_scopes = [];
  authorization_path = "";
  callback_path = "";
  token_path = "";
  access_token_ttl_seconds = pos 0;
  refresh_token_ttl_seconds = pos 0;
  jwks_cache_ttl = pos 0;
  signing_secret = "";
  strict_jwt_only = false;
  role_claim = "";
  role_filter = "";
  username_claim = "";
}
