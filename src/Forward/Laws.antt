-- ===== src/Forward/Laws.antt =====
-- What reaches ClickHouse.
use Prim.Native.String
use mathlib.Core.Option
use go_mcp_oauth_sdk.Prelude.{
  String, ◌≡◌, refl, ◌≢◌, ◌↔◌, inl, inr, some, List, [], ◌∷◌, arith, ◌==◌, eq_iff, if◌then◌else◌,
  Bool-cases, Option-cases,
}
use go_mcp_oauth_sdk.Text.{trim_space, cut_prefix, has_prefix}
use go_mcp_oauth_sdk.Text.Prefix.{has_prefix-append, trim_prefix-append}
use go_mcp_oauth_sdk.Json.{Object, get_string}
use go_mcp_oauth_sdk.Config.{OauthConfig}
use go_mcp_oauth_sdk.Errors.{ok, err, sentinel, email_claim_missing}
use go_mcp_oauth_sdk.Claims.{Claims}
use go_mcp_oauth_sdk.Email.{candidate, EmailIdentity, resolve_email_identity}
use go_mcp_oauth_sdk.Email.Laws.{usable, namespaced, resolve_email_identity-eq}
use go_mcp_oauth_sdk.Forward.{
  build_clickhouse_headers, header, extract_token_from_request, email_from_namespaced_extra,
  username_from_extra,
}

extract_token-nil : extract_token_from_request [] ≡ ""
unfolding extract_token_from_request header has_prefix cut_prefix
extract_token-nil = refl

-- Any header value with the scheme in front gives the rest.
pub extract_token_bearer :
    (headers : List (String × String)) (token : String)
    → header headers "Authorization" ≡ String.◌++◌ "Bearer " token
    → extract_token_from_request headers ≡ token
unfolding extract_token_from_request
extract_token_bearer headers token h = rw h (rw (has_prefix-append, trim_prefix-append))

header_self : {value : String} → header (("Authorization", value) ∷ []) "Authorization" ≡ value
unfolding header
header_self = refl

-- A token that is forwarded is extracted again as it was; a blank one is not forwarded.
pub extract_token-build_headers :
    (cfg : OauthConfig) (token : String)
    → extract_token_from_request (build_clickhouse_headers cfg token)
      ≡ (if trim_space token == "" then "" else token)
unfolding build_clickhouse_headers
extract_token-build_headers cfg token = elim (Bool-cases (trim_space token == "")) [
  | inl blank ↦ rw blank extract_token-nil
  | inr present ↦ rw present (extract_token_bearer _ token header_self)
]

abbrev first_email : List (String × String) → String
first_email [] = ""
first_email ((key, email) ∷ _) = email

email_from_namespaced_extra-eq :
    (extra : Object) → email_from_namespaced_extra extra ≡ first_email (usable extra)
unfolding email_from_namespaced_extra usable
email_from_namespaced_extra-eq [] = refl
email_from_namespaced_extra-eq ((k, v) ∷ extra) = elim (Option-cases (candidate k v)) [
  | inl e ↦ rw (e, email_from_namespaced_extra, usable) (email_from_namespaced_extra-eq extra)
  | inr (t, e) ↦ rw (e, email_from_namespaced_extra, usable) refl
]

first_email_agrees :
    (extra : Object) (id : EmailIdentity) (us : List (String × String))
    → (namespaced extra us ≡ ok id → first_email us ≡ id.email)
      × (namespaced extra us ≡ err (sentinel email_claim_missing) → first_email us ≡ "")
first_email_agrees extra id [] = ((λ h. cc), λ h. refl)
first_email_agrees extra id ((k, t) ∷ []) = ((λ h. ground arith), λ h. cc)
first_email_agrees extra id (_ ∷ (_ ∷ us)) = ((λ h. cc), λ h. ground arith)

-- Where the standard email is blank, the user-name hint is the resolved email wherever the
-- resolver finds one, and it is "" where the resolver finds none.
pub email_hint_agrees :
    (c : Claims) (id : EmailIdentity)
    → trim_space c.email ≡ ""
    → (resolve_email_identity (some c) ≡ ok id → email_from_namespaced_extra c.extra ≡ id.email)
      × (resolve_email_identity (some c) ≡ err (sentinel email_claim_missing)
          → email_from_namespaced_extra c.extra ≡ "")
email_hint_agrees c id blank =
    rw (resolve_email_identity-eq, email_from_namespaced_extra-eq, blank)
      (first_email_agrees c.extra id (usable c.extra))

-- A user name is given exactly where the claim is named, holds a text, and that text is not blank.
pub username_from_extra_iff :
    (raw : Object) (claim_name u : String)
    → (username_from_extra raw claim_name ≡ some u) ↔ (
        (trim_space claim_name ≢ "")
        × (Option.map trim_space (get_string raw claim_name) ≡ some u)
        × (u ≢ ""))
unfolding username_from_extra
username_from_extra_iff raw claim_name u = ground (
  arith,
  eq_iff (trim_space claim_name) "",
  eq_iff u "",
  Option-cases (get_string raw claim_name),
)
