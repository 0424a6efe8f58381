-- ===== src/Policy.antt =====
-- oauth/policy.go: the domain of an email address, domain lists, and required scopes.
pub mod Domains
pub mod Scopes
use go_mcp_oauth_sdk.Prelude.{ℕ, String, Bool, true, false, List, [], ◌∷◌, if◌then◌else◌, contains}
use go_mcp_oauth_sdk.Prelude.Int.{ℤ, pos}
use go_mcp_oauth_sdk.Text.{trim_space, split}
use go_mcp_oauth_sdk.Platform.{Platform, to_lower, equal_fold}

abbrev pub clock_skew_secs : ℤ
clock_skew_secs = pos 60

abbrev second_of_two : List String → String
second_of_two (a ∷ b ∷ []) = b
second_of_two _ = ""

unfoldable pub email_domain : Platform → String → String
email_domain p email = second_of_two (split b'@' (to_lower p (trim_space email)))

unfoldable pub contains_domain : Platform → List String → String → Bool
contains_domain p [] target = false
contains_domain p (domain ∷ domains) target =
    if equal_fold p (trim_space domain) (trim_space target)
    then true
    else contains_domain p domains target

unfoldable pub has_required_scopes : List String → List String → Bool
has_required_scopes token_scopes [] = true
has_required_scopes token_scopes (required ∷ rest) =
    if contains token_scopes required then has_required_scopes token_scopes rest else false
