-- ===== src/Roles.antt =====
-- oauth/roles.go: the role names of a claim. A compiled regular expression is its `MatchString`.
pub mod Laws
use go_mcp_oauth_sdk.Prelude.{
  String, Bool, Option, none, some, List, [], ◌==◌, ◌||◌, not, if◌then◌else◌,
}
use go_mcp_oauth_sdk.Prelude.Collect.{collect}
use go_mcp_oauth_sdk.Text.{trim_space}
use go_mcp_oauth_sdk.Json.{Value, str, arr, elems, get}
use go_mcp_oauth_sdk.Claims.{Claims}

-- One round of the loop up to the test for duplicates: a matching role name, trimmed.
unfoldable pub role_of : (String → Bool) → Value → Option String
role_of re (str v) = let s = trim_space v in if s == "" || not (re s) then none else some s
role_of re _ = none

unfoldable pub roles_of : (String → Bool) → Value → List String
roles_of re (arr vs) = collect (role_of re) [] (elems vs)
roles_of re _ = []

unfoldable pub roles_from_claim : Option Claims → String → Option (String → Bool) → List String
roles_from_claim none claim_name re = []
roles_from_claim (some claims) claim_name none = []
roles_from_claim (some claims) claim_name (some re) =
    if claim_name == ""
    then []
    else elim (get claims.extra claim_name) [ none ↦ [] | some raw ↦ roles_of re raw ]
