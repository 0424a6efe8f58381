-- ===== src/Broker.antt =====
-- broker/helpers.go, the part without cryptography and HTTP: URLs, paths, lifetimes and scopes.
pub mod Data
pub mod Laws
pub mod Resource
use Prim.Native.String
use go_mcp_oauth_sdk.Prelude.{
  String, Bool, not, ◌||◌, Option, none, some, List, [], ◌∷◌, ◌==◌, if◌then◌else◌, contains,
}
use go_mcp_oauth_sdk.Prelude.Collect.{collect}
use go_mcp_oauth_sdk.Prelude.Int.{ℤ, pos, ltb_ℤ}
use go_mcp_oauth_sdk.Text.{
  trim_space, trim_slashes, has_prefix, trim_prefix, fields, join_space, cut_before,
}
use go_mcp_oauth_sdk.Config.{OauthConfig}
use go_mcp_oauth_sdk.Platform.{Platform, to_lower}

unfoldable pub normalize_url : String → String
normalize_url raw = trim_slashes (trim_space raw)

unfoldable pub canonical_resource_url : String → String
canonical_resource_url raw =
    let trimmed = trim_space raw in
    if trimmed == "" then "" else String.◌++◌ (trim_slashes trimmed) "/"

-- a path with a slash in front
unfoldable pub rooted : String → String
rooted path = if has_prefix path "/" then path else String.◌++◌ "/" path

unfoldable pub normalized_path : String → String → String
normalized_path raw fallback =
    let path = if trim_space raw == "" then fallback else trim_space raw in
    if path == "" then "" else if rooted path == "/" then "/" else trim_slashes (rooted path)

unfoldable pub join_url_path : String → String → String
join_url_path base path =
    let normal = normalized_path path "" in
    if normal == "" || normal == "/"
    then normalize_url base
    else String.◌++◌ (normalize_url base) normal

unfoldable pub ttl_seconds : ℤ → ℤ → ℤ
ttl_seconds value fallback = if ltb_ℤ (pos 0) value then value else fallback

-- One round of the loop of `UniquePaths`, up to the test for duplicates.
unfoldable pub path_of : String → Option String
path_of raw = if normalized_path raw "" == "" then none else some (normalized_path raw "")

unfoldable pub unique_paths : List String → List String
unique_paths paths = collect path_of [] paths

-- One round of the loop of `SuffixPrefix`: the prefix that a marker leaves, if it goes no further.
unfoldable pub after_marker : String → String → Option String
after_marker path marker =
    let suffix = trim_space (trim_prefix path marker) in
    if not (has_prefix path marker)
    then none
    else if suffix == ""
    then none
    else some (trim_slashes (rooted suffix))

unfoldable pub suffix_prefix : String → List String → String
suffix_prefix path [] = ""
suffix_prefix path (marker ∷ markers) = elim (after_marker path marker) [
  | none ↦ suffix_prefix path markers
  | some prefix ↦ prefix
]

unfoldable pub sanitize_scope : String → String
sanitize_scope scope = join_space (fields scope)

-- The names of the standard for Google's scope URIs.
unfoldable pub standard_scope : String → String
standard_scope p =
    if p == "https://www.googleapis.com/auth/userinfo.email"
    then "email"
    else if p == "https://www.googleapis.com/auth/userinfo.profile"
    then "profile"
    else if p == "https://www.googleapis.com/auth/openid"
    then "openid"
    else p

unfoldable pub client_scopes : String → List String
client_scopes scope = collect (λ p. some (standard_scope p)) [] (fields scope)

unfoldable pub normalize_upstream_scope_for_client : String → String
normalize_upstream_scope_for_client scope =
    if scope == "" then "" else join_space (client_scopes scope)

abbrev pub oidc_scopes : List String
oidc_scopes = "openid" ∷ ("email" ∷ ("profile" ∷ ("offline_access" ∷ [])))

unfoldable pub advertised : String → Option String
advertised s = if contains oidc_scopes s then some s else none

unfoldable pub oidc_scopes_for_advertisement : OauthConfig → List String
oidc_scopes_for_advertisement cfg = collect advertised [] cfg.scopes

unfoldable pub is_google_issuer : Platform → String → Bool
is_google_issuer p issuer =
    let lower = to_lower p (trim_space issuer) in
    let host = cut_before b'/' (trim_prefix (trim_prefix lower "https://") "http://") in
    host == "accounts.google.com" || host == "www.google.com"
