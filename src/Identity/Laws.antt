-- ===== src/Identity/Laws.antt =====
-- What the identity policy admits.
use go_mcp_oauth_sdk.Prelude.{
  ◌≡◌, ◌≢◌, ◌↔◌, true, Option, none, some, List, [], ◌∷◌, arith, eq_iff, Any, In,
}
use go_mcp_oauth_sdk.Errors.{Failure, Result, ok, err, sentinel, detail, invalid_token}
use go_mcp_oauth_sdk.Errors.{email_not_verified, email_claim_missing, unauthorized_domain}
use go_mcp_oauth_sdk.Errors.Laws.{>>-eq-ok}
use go_mcp_oauth_sdk.Platform.{Platform}
use go_mcp_oauth_sdk.Claims.{Claims}
use go_mcp_oauth_sdk.Policy
use go_mcp_oauth_sdk.Policy.Domains.{SameDomain, contains_domain_iff}
use go_mcp_oauth_sdk.Identity.{
  IdentityPolicy, check_verified, check_email_domain, check_hosted_domain, validate_identity_claims,
}

-- The contract of each part of the policy.
pub record Admits (p : Platform) (policy : IdentityPolicy) (c : Claims) : Type 0 where
  pub verified : policy.require_email_verified ≡ true → c.email ≢ "" → c.email_verified ≡ true
  pub email_domain :
      policy.allowed_email_domains ≢ []
      → (c.email ≢ "")
        × (Policy.email_domain p c.email ≢ "")
        × Any (SameDomain p (Policy.email_domain p c.email)) policy.allowed_email_domains
  pub hosted_domain :
      policy.allowed_hosted_domains ≢ []
      → (c.hosted_domain ≢ "") × Any (SameDomain p c.hosted_domain) policy.allowed_hosted_domains

module _ (p : Platform) (policy : IdentityPolicy) (c : Claims) where
  check_verified_iff :
      (check_verified policy c ≡ ok tt)
      ↔ (policy.require_email_verified ≡ true → c.email ≢ "" → c.email_verified ≡ true)
  unfolding check_verified
  check_verified_iff = grind (arith, eq_iff c.email "")

  check_email_domain_iff : (check_email_domain p policy c ≡ ok tt) ↔ (
      policy.allowed_email_domains ≢ []
      → (c.email ≢ "")
        × (Policy.email_domain p c.email ≢ "")
        × Any (SameDomain p (Policy.email_domain p c.email)) policy.allowed_email_domains)
  unfolding check_email_domain
  check_email_domain_iff = ground (
    arith,
    eq_iff c.email "",
    eq_iff (Policy.email_domain p c.email) "",
    contains_domain_iff p policy.allowed_email_domains (Policy.email_domain p c.email),
  )

  check_hosted_domain_iff : (check_hosted_domain p policy c ≡ ok tt) ↔ (
      policy.allowed_hosted_domains ≢ []
      → (c.hosted_domain ≢ "") × Any (SameDomain p c.hosted_domain) policy.allowed_hosted_domains)
  unfolding check_hosted_domain
  check_hosted_domain_iff = ground (
    arith,
    eq_iff c.hosted_domain "",
    contains_domain_iff p policy.allowed_hosted_domains c.hosted_domain,
  )

-- `ValidateIdentityClaims` accepts claims exactly when they meet each part of the policy that is
-- switched on: a present email is verified, the email's domain is listed, the hosted domain is
-- listed.
pub validate_identity_claims_iff :
    (p : Platform) (policy : IdentityPolicy) (c : Claims)
    → (validate_identity_claims p (some c) policy ≡ ok tt) ↔ Admits p policy c
unfolding validate_identity_claims
validate_identity_claims_iff p policy c =
    let v = check_verified_iff p policy c in
    let e = check_email_domain_iff p policy c in
    let h = check_hosted_domain_iff p policy c in
    (
      (λ accepted.
          let (ok_v, rest) = >>-eq-ok (check_verified policy c) _ accepted in
          let (ok_e, ok_h) = >>-eq-ok (check_email_domain p policy c) _ rest in
          record { verified = v.0 ok_v; email_domain = e.0 ok_e; hosted_domain = h.0 ok_h }),
      λ a. rw (v.1 a.verified, e.1 a.email_domain) (h.1 a.hosted_domain),
    )

-- The error for a nil pointer, a constant too.
abbrev pub claims_required : Failure
claims_required = detail invalid_token "claims are required"

-- The answers of the identity policy: acceptance, one of three sentinels, or the error for nil.
abbrev pub answers : List (Result (Unit {0}))
answers =
    ok tt
    ∷ err (sentinel email_not_verified)
    ∷ err (sentinel email_claim_missing)
    ∷ err (sentinel unauthorized_domain)
    ∷ err claims_required
    ∷ []

abbrev pub HasNoEmail : Option Claims → Type 0
HasNoEmail none = ⊥
HasNoEmail (some c) = c.email ≡ ""

-- Whatever the claims, nil included, the answer is acceptance, one of three sentinels, or the
-- invalid-token error with the text "claims are required": five constants, so that no error carries
-- a claim's value. The last is given exactly for nil, and the missing-email error exactly when email
-- domains are configured and the claims are there and have no email.
pub validate_identity_claims_errors :
    (p : Platform) (policy : IdentityPolicy) (found : Option Claims)
    → In (validate_identity_claims p found policy) answers
      × ((validate_identity_claims p found policy ≡ err claims_required) ↔ (found ≡ none))
      × ((validate_identity_claims p found policy ≡ err (sentinel email_claim_missing))
          ↔ ((policy.allowed_email_domains ≢ []) × HasNoEmail found))
unfolding validate_identity_claims check_verified check_email_domain check_hosted_domain
validate_identity_claims_errors p policy none = ground arith
validate_identity_claims_errors p policy (some c) = ground (arith, eq_iff c.email "")
