-- ===== src/Broker/Data.antt =====
-- broker/helpers.go: the exported constants and the types of the broker's stateless artifacts. Times
-- are nanoseconds since Go's zero time; lifetimes are seconds.
use go_mcp_oauth_sdk.Prelude.{ℕ, ◌*◌, ◌^◌, String, List}

abbrev pub max_oauth_response_bytes : ℕ
max_oauth_response_bytes = 2 ^ 20

-- ten seconds, in nanoseconds
abbrev pub upstream_http_timeout : ℕ
upstream_http_timeout = 10 * 10 ^ 9

abbrev pub default_protected_resource_metadata_path : String
default_protected_resource_metadata_path = "/.well-known/oauth-protected-resource"

abbrev pub default_authorization_server_metadata_path : String
default_authorization_server_metadata_path = "/.well-known/oauth-authorization-server"

abbrev pub default_open_id_configuration_path : String
default_open_id_configuration_path = "/.well-known/openid-configuration"

abbrev pub default_registration_path : String
default_registration_path = "/oauth/register"

abbrev pub default_authorization_path : String
default_authorization_path = "/oauth/authorize"

abbrev pub default_callback_path : String
default_callback_path = "/oauth/callback"

abbrev pub default_token_path : String
default_token_path = "/oauth/token"

abbrev pub default_pending_auth_ttl_seconds : ℕ
default_pending_auth_ttl_seconds = 10 * 60

abbrev pub default_auth_code_ttl_seconds : ℕ
default_auth_code_ttl_seconds = 60

abbrev pub default_access_token_ttl_seconds : ℕ
default_access_token_ttl_seconds = 60 * 60

abbrev pub broker_mode_id_token_refresh_threshold_seconds : ℕ
broker_mode_id_token_refresh_threshold_seconds = 55 * 60

pub record StatelessRegisteredClient : Type 0 where
  pub redirect_uris : List String
  pub token_endpoint_auth_method : String
  pub jwks_uri : String

pub record OauthPendingAuth : Type 0 where
  pub client_id : String
  pub redirect_uri : String
  pub scope : String
  pub client_state : String
  pub code_challenge : String
  pub code_challenge_method : String
  pub resource : String
  pub upstream_pkce_verifier : String
  pub expires_at : ℕ

pub record OauthIssuedCode : Type 0 where
  pub client_id : String
  pub redirect_uri : String
  pub scope : String
  pub code_challenge : String
  pub code_challenge_method : String
  pub resource : String
  pub upstream_auth_code : String
  pub upstream_pkce_verifier : String
  pub expires_at : ℕ
