-- ===== src/Jwt/Audience.antt =====
-- The tolerant comparison of audiences.
use go_mcp_oauth_sdk.Prelude.{String, ◌≡◌, ◌↔◌, true, List, [], ◌∷◌, arith, eq_iff, Any}
use go_mcp_oauth_sdk.Jwt.{comparable, audience_matches_resource}

-- `audienceMatchesResource` holds exactly when some audience is the expected one once both are
-- trimmed of white space and of trailing slashes: its test for equal bytes adds nothing.
pub audience_matches_resource_iff :
    (claims : List String) (expected : String)
    → (audience_matches_resource claims expected ≡ true)
      ↔ Any (λ c. comparable c ≡ comparable expected) claims
unfolding audience_matches_resource
audience_matches_resource_iff [] expected = ((λ h. cc), λ h. elim h [ ])
audience_matches_resource_iff (c ∷ claims) expected = ground (
  arith,
  eq_iff c expected,
  eq_iff (comparable c) (comparable expected),
  audience_matches_resource_iff claims expected,
)
