-- ===== src/Forward.antt =====
-- oauth/forward.go, and the bearer extraction of oauth/validator.go: tokens and user names on their
-- way from the request to ClickHouse.
pub mod Laws
use Prim.Native.String
use go_mcp_oauth_sdk.Prelude.{String, Option, none, some, List, [], ◌∷◌, ◌==◌, if◌then◌else◌}
use go_mcp_oauth_sdk.Text.{trim_space, has_prefix, trim_prefix}
use go_mcp_oauth_sdk.Config.{OauthConfig}
use go_mcp_oauth_sdk.Json.{Object, get_string}
use go_mcp_oauth_sdk.Email.{candidate}

-- The nil map is `[]`.
unfoldable pub build_clickhouse_headers : OauthConfig → String → List (String × String)
build_clickhouse_headers cfg token =
    if trim_space token == "" then [] else ("Authorization", String.◌++◌ "Bearer " token) ∷ []

-- `r.Header.Get` of a request's headers, whose names are canonical, as net/http stores them: "" where
-- the header is missing.
unfoldable pub header : List (String × String) → String → String
header [] name = ""
header ((k, v) ∷ headers) name = if k == name then v else header headers name

unfoldable pub extract_token_from_request : List (String × String) → String
extract_token_from_request headers =
    let auth_header = header headers "Authorization" in
    if has_prefix auth_header "Bearer " then trim_prefix auth_header "Bearer " else ""

-- The test of one claim is that of `ResolveEmailIdentity`.
unfoldable pub email_from_namespaced_extra : Object → String
email_from_namespaced_extra [] = ""
email_from_namespaced_extra ((k, v) ∷ extra) = elim (candidate k v) [
  | none ↦ email_from_namespaced_extra extra
  | some t ↦ t
]

-- The two results `(name, true)` are `some name`, and `("", false)` is `none`.
unfoldable pub username_from_extra : Object → String → Option String
username_from_extra raw claim_name =
    if trim_space claim_name == "" then none else elim (get_string raw claim_name) [
      | none ↦ none
      | some s ↦ if trim_space s == "" then none else some (trim_space s)
    ]
