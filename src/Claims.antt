-- ===== src/Claims.antt =====
-- oauth/claims.go: the claims of a token, and their projection from the decoded JSON.
use go_mcp_oauth_sdk.Prelude.{
  String, Bool, false, none, some, List, [], ◌∷◌, if◌then◌else◌, contains,
}
use go_mcp_oauth_sdk.Prelude.Int.{ℤ, pos}
use go_mcp_oauth_sdk.Text.{parse_int, fields}
use go_mcp_oauth_sdk.Json.{
  Value, bool, float64, number, str, arr, Object, elems, get, get_string, strings,
}
use go_mcp_oauth_sdk.Platform.{Platform, to_int64, equal_fold}

pub record Claims : Type 0 where
  pub subject : String
  pub issuer : String
  pub audience : List String
  pub expires_at : ℤ
  pub issued_at : ℤ
  pub not_before : ℤ
  pub scopes : List String
  pub email : String
  pub name : String
  pub hosted_domain : String
  pub email_verified : Bool
  pub extra : Object

-- A field that stays "" where the claim is no string.
unfoldable pub string_claim : Object → String → String
string_claim raw key = elim (get_string raw key) [ none ↦ "" | some s ↦ s ]

-- A field that stays 0 where the claim is neither a float64 nor a number that fits.
unfoldable pub time_of : Platform → Value → ℤ
time_of p (float64 x) = to_int64 p x
time_of p (number s) = elim (parse_int s) [ none ↦ pos 0 | some n ↦ n ]
time_of p _ = pos 0

unfoldable pub time_claim : Platform → Object → String → ℤ
time_claim p raw key = elim (get raw key) [ none ↦ pos 0 | some v ↦ time_of p v ]

unfoldable pub verified_of : Platform → Value → Bool
verified_of p (bool b) = b
verified_of p (str s) = equal_fold p s "true"
verified_of p _ = false

unfoldable pub verified_claim : Platform → Object → Bool
verified_claim p raw = elim (get raw "email_verified") [ none ↦ false | some v ↦ verified_of p v ]

unfoldable pub audience_of : Value → List String
audience_of (str s) = s ∷ []
audience_of (arr vs) = strings (elems vs)
audience_of _ = []

unfoldable pub audience_claim : Object → List String
audience_claim raw = elim (get raw "aud") [ none ↦ [] | some v ↦ audience_of v ]

unfoldable pub scopes_of : Value → List String
scopes_of (str s) = fields s
scopes_of (arr vs) = strings (elems vs)
scopes_of _ = []

unfoldable pub scopes_claim : Object → List String
scopes_claim raw = elim (get raw "scope") [ none ↦ [] | some v ↦ scopes_of v ]

abbrev pub standard_claims : List String
standard_claims =
    "sub" ∷ "iss" ∷ "aud" ∷ "exp" ∷ "iat" ∷ "nbf" ∷ "jti" ∷ "scope" ∷ "email" ∷ "name" ∷ "hd"
    ∷ "email_verified" ∷ []

-- The loop that copies the claims whose names are not in the list.
unfoldable pub without_keys : List String → Object → Object
without_keys names [] = []
without_keys names ((k, v) ∷ o) =
    let rest = without_keys names o in if contains names k then rest else (k, v) ∷ rest

unfoldable pub claims_from_raw_claims : Platform → Object → Claims
claims_from_raw_claims p raw = record {
  subject = string_claim raw "sub";
  issuer = string_claim raw "iss";
  audience = audience_claim raw;
  expires_at = time_claim p raw "exp";
  issued_at = time_claim p raw "iat";
  not_before = time_claim p raw "nbf";
  scopes = scopes_claim raw;
  email = string_claim raw "email";
  name = string_claim raw "name";
  hosted_domain = string_claim raw "hd";
  email_verified = verified_claim p raw;
  extra = without_keys standard_claims raw;
}
