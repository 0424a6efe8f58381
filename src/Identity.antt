-- ===== src/Identity.antt =====
-- oauth/identity_policy.go: verified-email and domain checks on validated claims. The error result
-- nil is `ok tt`.
pub mod Laws
use go_mcp_oauth_sdk.Prelude.{
  String, Bool, true, false, not, ◌&&◌, ◌||◌, Option, none, some, List, [], ◌∷◌, ◌==◌,
  if◌then◌else◌, is_empty,
}
use go_mcp_oauth_sdk.Errors.{
  Result, ok, err, sentinel, detail, invalid_token, email_not_verified, email_claim_missing,
  unauthorized_domain, ◌>>◌,
}
use go_mcp_oauth_sdk.Platform.{Platform}
use go_mcp_oauth_sdk.Claims.{Claims}
use go_mcp_oauth_sdk.Policy.{email_domain, contains_domain}

pub record IdentityPolicy : Type 0 where
  pub require_email_verified : Bool
  pub allowed_email_domains : List String
  pub allowed_hosted_domains : List String

-- The three checks of `ValidateIdentityClaims`, in its order.
unfoldable pub check_verified : IdentityPolicy → Claims → Result (Unit {0})
check_verified policy claims =
    if policy.require_email_verified && not (claims.email == "") && not claims.email_verified
    then err (sentinel email_not_verified)
    else ok tt

unfoldable pub check_email_domain : Platform → IdentityPolicy → Claims → Result (Unit {0})
check_email_domain p policy claims =
    if is_empty policy.allowed_email_domains
    then ok tt
    else if claims.email == ""
    then err (sentinel email_claim_missing)
    else let domain = email_domain p claims.email in
      if domain == "" || not (contains_domain p policy.allowed_email_domains domain)
      then err (sentinel unauthorized_domain)
      else ok tt

unfoldable pub check_hosted_domain : Platform → IdentityPolicy → Claims → Result (Unit {0})
check_hosted_domain p policy claims =
    if is_empty policy.allowed_hosted_domains
    then ok tt
    else if claims.hosted_domain == ""
        || not (contains_domain p policy.allowed_hosted_domains claims.hosted_domain)
    then err (sentinel unauthorized_domain)
    else ok tt

unfoldable pub validate_identity_claims :
    Platform → Option Claims → IdentityPolicy → Result (Unit {0})
validate_identity_claims p none policy = err (detail invalid_token "claims are required")
validate_identity_claims p (some claims) policy =
    check_verified policy claims
    >> (check_email_domain p policy claims >> check_hosted_domain p policy claims)
