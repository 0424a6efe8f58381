-- ===== src/Api.antt =====
-- The exported methods of `Verifier` in oauth/jwks.go, discovery.go, validator.go and strict_jwt.go,
-- called one after another on one verifier.
pub mod Kept
pub mod Reach
use go_mcp_oauth_sdk.Prelude.{String, List, [], ◌∷◌}
use go_mcp_oauth_sdk.Env.{Env}
use go_mcp_oauth_sdk.Verifier.{System}
use go_mcp_oauth_sdk.Jwks.{fetch_auth_server_meta}
use go_mcp_oauth_sdk.Strict.{StrictJwtPolicy, validate_strict_jwt}
use go_mcp_oauth_sdk.Validator.{validate_token, validate_upstream_identity_token}

pub data Request : Type 0 where
  fetch_metadata : (issuer : String) → Request
  validate : (token : String) → Request
  validate_identity : (token audience : String) → Request
  validate_strict : (token : String) (policy : StrictJwtPolicy) → Request

module _ {Key Token : Type 0} (env : Env Key Token) where
  -- The state after a call, whatever it returns.
  abbrev pub serve : System Key → Request → System Key
  serve s (fetch_metadata issuer) = (fetch_auth_server_meta env issuer s).1
  serve s (validate token) = (validate_token env token s).1
  serve s (validate_identity token audience) =
      (validate_upstream_identity_token env token audience s).1
  serve s (validate_strict token policy) = (validate_strict_jwt env token policy s).1

  abbrev pub serve_all : System Key → List Request → System Key
  serve_all s [] = s
  serve_all s (r ∷ requests) = serve_all (serve s r) requests
