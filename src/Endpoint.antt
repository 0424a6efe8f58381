-- ===== src/Endpoint.antt =====
-- oauth/discovery.go: the userinfo endpoint that an issuer advertises.
pub mod Laws
use Prim.Native.String
use go_mcp_oauth_sdk.Prelude.{ℕ, String, Bool, ◌==◌, leb, if◌then◌else◌}
use go_mcp_oauth_sdk.Text.{trim_space, trim_slashes}
use go_mcp_oauth_sdk.Errors.{Failure, plain, Result, ok, err}

-- What the GET of the document comes to: no request, no response, or a status with a body that
-- cannot be read or decoded, or that decodes to an endpoint, "" where the document has none.
pub data Document : Type 0 where
  unreadable malformed : Failure → Document
  advertises : String → Document

pub data EndpointReply : Type 0 where
  bad_request unreachable : Failure → EndpointReply
  response : ℕ → Document → EndpointReply

unfoldable pub read_document : Document → Result String
read_document (unreadable e) = err e
read_document (malformed e) = err e
read_document (advertises endpoint) = ok (trim_space endpoint)

unfoldable pub read_endpoint : EndpointReply → Result String
read_endpoint (bad_request e) = err e
read_endpoint (unreachable e) = err e
read_endpoint (response status body) = if leb 300 status then ok "" else read_document body

-- `get` is the GET request, by its URL.
unfoldable pub resolve_user_info_endpoint : (String → EndpointReply) → String → Result String
resolve_user_info_endpoint get issuer =
    let base = trim_slashes (trim_space issuer) in
    if base == ""
    then err (plain "issuer is required")
    else read_endpoint (get (String.◌++◌ base "/.well-known/openid-configuration"))
