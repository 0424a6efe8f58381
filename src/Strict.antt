-- ===== src/Strict.antt =====
-- oauth/strict_jwt.go: validation that neither passes an opaque token nor normalises anything.
pub mod Kept
pub mod Readings
pub mod Parties
pub mod Contract
pub mod Run
pub mod Masking
use Prim.Native.String
use go_mcp_oauth_sdk.Prelude.{
  ℕ, ◌+◌, ◌/◌, ◌^◌, String, Bool, true, false, not, ◌&&◌, ◌||◌, Option, none, some, List, [], ◌∷◌,
  ◌==◌, if◌then◌else◌, any, contains, is_empty,
}
use go_mcp_oauth_sdk.Prelude.Int.{ℤ, pos, negsuc, sub_ℕ, ◌+ℤ◌, ◌-ℤ◌, ltb_ℤ, wrap64}
use go_mcp_oauth_sdk.Text.{trim_space, parse_int}
use go_mcp_oauth_sdk.Errors.{
  Failure, sentinel, plain, wrap, detail, invalid_token, token_expired, insufficient_scopes,
  transient, as_header_parse, is_kid_not_found, Result, ok, err, require, ◌>>=◌ as bind,
  ◌>>◌ as and_then,
}
use go_mcp_oauth_sdk.Json.{
  Value, null, float64, number, str, arr, Object, elems, get, as_string, below_int64, above_int64,
  truncate,
}
use go_mcp_oauth_sdk.Platform.{Platform}
use go_mcp_oauth_sdk.Claims.{Claims, claims_from_raw_claims}
use go_mcp_oauth_sdk.Policy.{has_required_scopes}
use go_mcp_oauth_sdk.Env.{Env}
use go_mcp_oauth_sdk.Verifier.{System, Action, pure, lift, fail, ◌>>=◌}
use go_mcp_oauth_sdk.Jwks.{time_now}
use go_mcp_oauth_sdk.Jwt.{looks_like_jwt, parse_and_fetch_keys}

-- The leeway is a `time.Duration`, in nanoseconds.
pub record StrictJwtPolicy : Type 0 where
  pub expected_issuer : String
  pub expected_audiences : List String
  pub leeway : ℤ
  pub required_scopes : List String

unfoldable pub is_blank : String → Bool
is_blank s = trim_space s == ""

unfoldable pub has_non_empty_expected_audience : List String → Bool
has_non_empty_expected_audience [] = false
has_non_empty_expected_audience (a ∷ audiences) =
    if not (is_blank a) then true else has_non_empty_expected_audience audiences

-- The loop over the array: each element is a text, or the whole claim is refused.
unfoldable pub string_elements : List Value → Result (List String)
string_elements [] = ok []
string_elements (str s ∷ vs) = bind (string_elements vs) (λ rest. ok (s ∷ rest))
string_elements (_ ∷ vs) = err (detail invalid_token "aud claim contains a non-string element")

unfoldable pub strict_audience_of : Value → Result (List String)
strict_audience_of (str s) = ok (s ∷ [])
strict_audience_of (arr vs) = string_elements (elems vs)
strict_audience_of null = err (detail invalid_token "missing aud claim")
strict_audience_of _ = err (detail invalid_token "malformed aud claim")

unfoldable pub strict_audience_claim : Object → Result (List String)
strict_audience_claim raw = elim (get raw "aud") [
  | none ↦ err (detail invalid_token "missing aud claim")
  | some v ↦ strict_audience_of v
]

-- The set of the expected audiences that are not blank.
unfoldable pub non_blank : List String → List String
non_blank [] = []
non_blank (e ∷ expected) = let rest = non_blank expected in if is_blank e then rest else e ∷ rest

unfoldable pub strict_audience_intersects : List String → List String → Bool
strict_audience_intersects token_audiences expected =
    any (λ a. contains (non_blank expected) a) token_audiences

-- The three results `(value, present, malformed)` as the cases that they stand for.
pub data Numeric : Type 0 where
  absent malformed : Numeric
  value : ℤ → Numeric

unfoldable pub numeric_of : Value → Numeric
numeric_of (float64 x) = if below_int64 x || above_int64 x then malformed else value (truncate x)
numeric_of (number s) = elim (parse_int s) [ none ↦ malformed | some n ↦ value n ]
numeric_of _ = malformed

unfoldable pub strict_numeric_claim : Object → String → Numeric
strict_numeric_claim raw key = elim (get raw key) [ none ↦ absent | some v ↦ numeric_of v ]

-- `int64(d / time.Second)`: the division of a Duration rounds towards zero.
unfoldable pub whole_seconds : ℤ → ℤ
whole_seconds (pos n) = pos (n / 1_000_000_000)
whole_seconds (negsuc n) = sub_ℕ 0 ((n + 1) / 1_000_000_000)

unfoldable pub issuer_matches : String → Object → Bool
issuer_matches expected raw = elim (get raw "iss") [
  | none ↦ false
  | some v ↦ elim (as_string v) [ none ↦ false | some s ↦ s == expected ]
]

-- The checks of `validateStrictRawClaims`, one after the other. `now` and `leeway` are in seconds,
-- and sums and differences are those of int64.
unfoldable pub check_issuer : String → Object → Result (Unit {0})
check_issuer expected raw =
    require (expected == "" || issuer_matches expected raw) (detail invalid_token "issuer mismatch")

unfoldable pub check_audience : List String → Object → Result (Unit {0})
check_audience expected raw = bind (strict_audience_claim raw) (λ audiences.
    require (strict_audience_intersects audiences expected)
      (detail invalid_token "audience mismatch"))

unfoldable pub check_expiry : ℤ → ℤ → Numeric → Result (Unit {0})
check_expiry now leeway (value exp) =
    require (not (ltb_ℤ exp (wrap64 (now -ℤ leeway)))) (sentinel token_expired)
check_expiry now leeway _ = err (detail invalid_token "missing or malformed exp claim")

unfoldable pub check_not_before : ℤ → ℤ → Numeric → Result (Unit {0})
check_not_before now leeway absent = ok tt
check_not_before now leeway malformed = err (detail invalid_token "malformed nbf claim")
check_not_before now leeway (value nbf) =
    require (not (ltb_ℤ (wrap64 (now +ℤ leeway)) nbf)) (detail invalid_token "token not yet valid")

unfoldable pub check_issued_at : ℤ → ℤ → Numeric → Result (Unit {0})
check_issued_at now leeway absent = ok tt
check_issued_at now leeway malformed = err (detail invalid_token "malformed iat claim")
check_issued_at now leeway (value iat) =
    require (not (ltb_ℤ (wrap64 (now +ℤ leeway)) iat))
      (detail invalid_token "token issued in the future")

unfoldable pub validate_strict_raw_claims : Object → StrictJwtPolicy → ℤ → Result (Unit {0})
validate_strict_raw_claims raw policy now =
    let leeway = whole_seconds policy.leeway in
    and_then (check_issuer policy.expected_issuer raw) (
      and_then (check_audience policy.expected_audiences raw) (
        and_then (check_expiry now leeway (strict_numeric_claim raw "exp")) (
          and_then (check_not_before now leeway (strict_numeric_claim raw "nbf"))
            (check_issued_at now leeway (strict_numeric_claim raw "iat")))))

-- The result for the first key that verifies the signature, from its claims.
unfoldable pub strict_claims : Platform → StrictJwtPolicy → ℤ → Object → Result Claims
strict_claims p policy now raw =
    let claims = claims_from_raw_claims p raw in
    and_then (validate_strict_raw_claims raw policy now) (
      if not (is_empty policy.required_scopes)
        && not (has_required_scopes claims.scopes policy.required_scopes)
      then err (sentinel insufficient_scopes)
      else ok claims)

-- The seconds since 1970 of a time that counts nanoseconds since Go's zero time.
unfoldable pub unix : ℕ → ℤ
unix t = sub_ℕ (t / 1_000_000_000) 62_135_596_800

module _ {Key Token : Type 0} (env : Env Key Token) where
  unfoldable pub strict_with_keys : StrictJwtPolicy → ℤ → Token → List Key → Result Claims
  strict_with_keys policy now parsed [] =
      err (plain "failed to verify JWT signature with discovered JWKs")
  strict_with_keys policy now parsed (key ∷ keys) = elim (env.jose.verified_claims parsed key) [
    | none ↦ strict_with_keys policy now parsed keys
    | some raw ↦ strict_claims env.platform policy now raw
  ]

  -- What the caller sees of an error of `parseAndFetchKeys`.
  unfoldable pub strict_error : Failure → Failure
  strict_error e = elim (as_header_parse e) [
    | some _ ↦ detail invalid_token "unable to parse or validate JWT header"
    | none ↦
        if is_kid_not_found e
        then wrap "failed to resolve a JWK for the token's key id: " (sentinel transient) ""
        else e
  ]

  abbrev pub reclassified : {A : Type 0} → Result A × System Key → Result A × System Key
  reclassified (ok a, s) = (ok a, s)
  reclassified (err e, s) = (err (strict_error e), s)

  -- the part of `ValidateStrictJWT` behind its guards
  unfoldable pub validate_strict_parsed : String → StrictJwtPolicy → Action Key Claims
  validate_strict_parsed token policy = do
    (parsed, keys) ← λ s. reclassified (parse_and_fetch_keys env token s)
    now ← time_now env
    lift (strict_with_keys policy (unix now) parsed keys)

  unfoldable pub validate_strict_jwt : String → StrictJwtPolicy → Action Key Claims
  validate_strict_jwt token policy =
      if not (looks_like_jwt token)
      then fail (detail invalid_token "bearer is not a compact JWT")
      else if not (has_non_empty_expected_audience policy.expected_audiences)
      then fail (detail invalid_token "at least one non-empty expected audience is required")
      else if ltb_ℤ policy.leeway (pos 0)
      then fail (detail invalid_token "leeway must not be negative")
      else validate_strict_parsed token policy
