-- ===== src/Api/Kept.antt =====
-- What the parts of a call keep, every exported method keeps.
use go_mcp_oauth_sdk.Prelude.{List, [], ◌∷◌}
use go_mcp_oauth_sdk.Env.{Env}
use go_mcp_oauth_sdk.Verifier.{System}
use go_mcp_oauth_sdk.Validator.{validate_upstream_identity_token}
use go_mcp_oauth_sdk.Api.{
  Request, fetch_metadata, validate, validate_identity, validate_strict, serve, serve_all,
}
use go_mcp_oauth_sdk.Jwt.Kept.{IsKept, Keeps-external}
use go_mcp_oauth_sdk.Strict.Kept.{Keeps-strict}
use go_mcp_oauth_sdk.Validator.Kept.{Keeps-validate_token}

module _ {Key Token : Type 0} (env : Env Key Token) where
  module _ {P : System Key → Type 0} (k : IsKept env P) where
    serve-kept : (s : System Key) (r : Request) → P s → P (serve env s r)
    unfolding validate_upstream_identity_token
    serve-kept s (fetch_metadata issuer) h = (k.discover issuer).at s h
    serve-kept s (validate token) h = (Keeps-validate_token env k token).at s h
    serve-kept s (validate_identity token audience) h = (Keeps-external env k token audience).at s h
    serve-kept s (validate_strict token policy) h = (Keeps-strict env k token policy).at s h

    pub serve_all-kept :
        (s : System Key) (requests : List Request) → P s → P (serve_all env s requests)
    serve_all-kept s [] h = h
    serve_all-kept s (r ∷ requests) h = serve_all-kept (serve env s r) requests (serve-kept s r h)
