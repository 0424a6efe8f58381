-- ===== src/Email.antt =====
-- oauth/email_identity.go: the email of a token, with the evidence from its own namespace.
pub mod Laws
pub mod Order
use go_mcp_oauth_sdk.Prelude.{
  String, Bool, true, false, Option, none, some, List, [], ◌∷◌, ◌==◌, if◌then◌else◌,
}
use Prim.Native.String
use go_mcp_oauth_sdk.Text.{trim_space, has_suffix}
use go_mcp_oauth_sdk.Json.{Value, Object, as_string, get_bool}
use go_mcp_oauth_sdk.Errors.{
  Result, ok, err, sentinel, invalid_token, email_claim_missing, email_claim_ambiguous, ◌>>=◌,
}
use go_mcp_oauth_sdk.Claims.{Claims}

pub record EmailIdentity : Type 0 where
  pub email : String
  pub email_verified : Bool

-- One round of the loop up to the test for a second email: a nonblank text under a key that ends in
-- "/email", trimmed.
unfoldable pub usable_text : Value → Option String
usable_text value = elim (as_string value) [
  | none ↦ none
  | some s ↦ if trim_space s == "" then none else some (trim_space s)
]

unfoldable pub candidate : String → Value → Option String
unfolding usable_text
candidate key value = if has_suffix key "/email" then usable_text value else none

-- The loop over `claims.Extra`, from the values of `emailKey` and `email`.
unfoldable pub find_email : Object → String → String → Result (String × String)
find_email [] email_key email = ok (email_key, email)
find_email ((key, value) ∷ extra) email_key email = elim (candidate key value) [
  | none ↦ find_email extra email_key email
  | some found ↦
      if email_key == "" then find_email extra key found else err (sentinel email_claim_ambiguous)
]

-- The end of the function: the evidence for the key that was found.
unfoldable pub with_evidence : Object → String × String → Result EmailIdentity
with_evidence extra (email_key, email) =
    if email_key == ""
    then err (sentinel email_claim_missing)
    else ok (record {
      email = email;
      email_verified = elim (get_bool extra (String.◌++◌ email_key "_verified")) [
        | none ↦ false
        | some b ↦ b
      ];
    })

unfoldable pub resolve_email_identity : Option Claims → Result EmailIdentity
resolve_email_identity none = err (sentinel invalid_token)
resolve_email_identity (some claims) =
    let email = trim_space claims.email in
    let namespaced = find_email claims.extra "" "" >>= with_evidence claims.extra in
    if email == ""
    then namespaced
    else ok (record { email = email; email_verified = claims.email_verified })
