-- ===== src/Upstream/UserInfo.antt =====
-- The claims of a userinfo document beside those of a token with the same content.
use go_mcp_oauth_sdk.Prelude.{
  String, ◌≡◌, refl, Bool, false, Option, none, some, List, [], ◌∷◌, inl, inr, arith, ◌==◌, All,
  Bool-cases,
}
use go_mcp_oauth_sdk.Prelude.Int.{pos}
use go_mcp_oauth_sdk.Json.{Value, bool, str, Object, get, get_string, get_bool, as_string, as_bool}
use go_mcp_oauth_sdk.Text.{fields}
use go_mcp_oauth_sdk.Platform.{Platform}
use go_mcp_oauth_sdk.Claims.{
  standard_claims, string_claim, time_claim, verified_of, verified_claim, audience_claim, scopes_of,
  scopes_claim, without_keys, claims_from_raw_claims,
}
use go_mcp_oauth_sdk.Upstream.{userinfo_claims, claims_from_user_info}

-- The claims of a token that a userinfo document lacks.
abbrev pub token_claims : List String
token_claims = "aud" ∷ "exp" ∷ "iat" ∷ "nbf" ∷ "jti" ∷ []

-- A claim is a text, or a truth value, where it is present.
abbrev pub IsText : Option Value → Type 0
IsText none = Unit
IsText (some v) = (s : String) × (v ≡ str s)

abbrev pub IsBool : Option Value → Type 0
IsBool none = Unit
IsBool (some v) = (b : Bool) × (v ≡ bool b)

-- The two readings of a claim, of the same entry of the document.
same_scopes :
    (o : Option Value)
    → IsText o
    → elim (elim o as (λ _. Option String) [ none ↦ none | some v ↦ as_string v ])
        as (λ _. List String) [ none ↦ [] | some s ↦ fields s ]
      ≡ elim o as (λ _. List String) [ none ↦ [] | some v ↦ scopes_of v ]
unfolding scopes_of
same_scopes none h = refl
same_scopes (some v) (s, e) = rw e refl

same_verified :
    (p : Platform) (o : Option Value)
    → IsBool o
    → elim (elim o as (λ _. Option Bool) [ none ↦ none | some v ↦ as_bool v ]) as (λ _. Bool) [
      | none ↦ false
      | some b ↦ b
    ]
      ≡ elim o as (λ _. Bool) [ none ↦ false | some v ↦ verified_of p v ]
unfolding verified_of
same_verified p none h = refl
same_verified p (some v) (b, e) = rw e refl

absent :
    (k : String) (v : Value) (raw : Object) (key : String)
    → get ((k, v) ∷ raw) key ≡ none
    → ((k == key) ≡ false) × (get raw key ≡ none)
unfolding get
absent k v raw key h = elim (Bool-cases (k == key)) [
  | inl e ↦ ground arith
  | inr e ↦ (e, ground arith)
]

same_extra :
    (raw : Object)
    → All (λ key. get raw key ≡ none) token_claims
    → without_keys userinfo_claims raw ≡ without_keys standard_claims raw
unfolding without_keys
same_extra [] h = refl
same_extra ((k, v) ∷ raw) (aud, (exp, (iat, (nbf, (jti, _))))) =
    let (e1, h1) = absent k v raw "aud" aud in
    let (e2, h2) = absent k v raw "exp" exp in
    let (e3, h3) = absent k v raw "iat" iat in
    let (e4, h4) = absent k v raw "nbf" nbf in
    let (e5, h5) = absent k v raw "jti" jti in
    rw (same_extra raw (h1, (h2, (h3, (h4, (h5, tt))))), e1, e2, e3, e4, e5) (ground arith)

-- A userinfo document without `aud`, `exp`, `iat`, `nbf` and `jti`, whose scope is a text and whose
-- `email_verified` is a truth value where they are present, has the claims of a token with the same
-- content.
pub claims_from_user_info-raw_claims :
    (p : Platform) (raw : Object)
    → All (λ key. get raw key ≡ none) token_claims
    → IsText (get raw "scope")
    → IsBool (get raw "email_verified")
    → claims_from_user_info raw ≡ claims_from_raw_claims p raw
unfolding claims_from_user_info claims_from_raw_claims get_string get_bool scopes_claim
    verified_claim audience_claim time_claim
claims_from_user_info-raw_claims p raw h is_text is_bool =
    let (aud, (exp, (iat, (nbf, (jti, _))))) = h in
    let scopes = same_scopes (get raw "scope") is_text in
    let verified = same_verified p (get raw "email_verified") is_bool in
    let others = same_extra raw h in
    let audience : [] ≡ audience_claim raw = rw (audience_claim, aud) refl in
    let expires_at : pos 0 ≡ time_claim p raw "exp" = rw (time_claim, exp) refl in
    let issued_at : pos 0 ≡ time_claim p raw "iat" = rw (time_claim, iat) refl in
    let not_before : pos 0 ≡ time_claim p raw "nbf" = rw (time_claim, nbf) refl in
    λ i. record {
      subject = string_claim raw "sub";
      issuer = string_claim raw "iss";
      audience = audience i;
      expires_at = expires_at i;
      issued_at = issued_at i;
      not_before = not_before i;
      scopes = scopes i;
      email = string_claim raw "email";
      name = string_claim raw "name";
      hosted_domain = string_claim raw "hd";
      email_verified = verified i;
      extra = others i;
    }
