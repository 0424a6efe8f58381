-- ===== src/Strict/Masking.antt =====
-- What the errors of the strict validation tell their caller, and what they leave of the state.
use go_mcp_oauth_sdk.Prelude.{
  String, ◌≡◌, refl, Bool, true, false, none, List, [], ◌∷◌, inl, inr, if◌then◌else◌, Option-cases,
  Bool-cases,
}
use go_mcp_oauth_sdk.Prelude.Int.{ℤ}
use go_mcp_oauth_sdk.Errors.{
  Sentinel, Failure, detail, as_header_parse, is_kid_not_found, Result, ok, err, require, ◌>>=◌,
}
use go_mcp_oauth_sdk.Json.{Value, null, str, arr, Object, elems, get}
use go_mcp_oauth_sdk.Platform.{Platform}
use go_mcp_oauth_sdk.Config.{OauthConfig}
use go_mcp_oauth_sdk.Env.{Env, IsRandom}
use go_mcp_oauth_sdk.Verifier
use go_mcp_oauth_sdk.Verifier.{System, Action, resume, pure, lift, fail}
use go_mcp_oauth_sdk.Verifier.Keeps.{Keeps}
use go_mcp_oauth_sdk.Jwks.{time_now}
use go_mcp_oauth_sdk.Jwks.Cache.{TtlFits, IsCoherent}
use go_mcp_oauth_sdk.Jwt.{parse_and_fetch_keys}
use go_mcp_oauth_sdk.Jwt.Kept.{IsCoherent-IsKept}
use go_mcp_oauth_sdk.Strict.Kept.{Keeps-strict}
use go_mcp_oauth_sdk.Strict.{
  StrictJwtPolicy, string_elements, strict_audience_of, strict_audience_claim, Numeric, absent,
  malformed, value, check_issuer, check_audience, check_expiry, check_not_before, check_issued_at,
  validate_strict_raw_claims, strict_claims, strict_with_keys, strict_error, reclassified,
  validate_strict_parsed, validate_strict_jwt,
}

-- An error that is neither `*jwtHeaderParseError` nor `*kidNotFoundError`, anywhere in its tree.
abbrev pub IsPublic {ℓ} : {A : Type ℓ} → Result A → Type 0
IsPublic (ok a) = Unit
IsPublic (err e) = (as_header_parse e ≡ none) × (is_kid_not_found e ≡ false)

IsPublic-bind {ℓ} :
    {A : Type ℓ} {B : Type 0} (m : Result A) (f : A → Result B)
    → IsPublic m
    → ((a : A) → IsPublic (f a))
    → IsPublic (m >>= f)
IsPublic-bind (ok a) f h k = k a
IsPublic-bind (err e) f h k = h

IsPublic-require :
    (b : Bool) (e : Failure) → IsPublic {A = Unit {0}} (err e) → IsPublic (require b e)
IsPublic-require true e h = tt
IsPublic-require false e h = h

string_elements-IsPublic : (vs : List Value) → IsPublic (string_elements vs)
unfolding string_elements as_header_parse is_kid_not_found
string_elements-IsPublic [] = tt
string_elements-IsPublic (str s ∷ vs) =
    IsPublic-bind (string_elements vs) _ (string_elements-IsPublic vs) (λ rest. tt)
string_elements-IsPublic (_ ∷ vs) = (refl, refl)

audience_of-IsPublic : (v : Value) → IsPublic (strict_audience_of v)
unfolding strict_audience_of as_header_parse is_kid_not_found
audience_of-IsPublic (str s) = tt
audience_of-IsPublic (arr vs) = string_elements-IsPublic (elems vs)
audience_of-IsPublic null = (refl, refl)
audience_of-IsPublic _ = (refl, refl)

audience_claim-IsPublic : (raw : Object) → IsPublic (strict_audience_claim raw)
unfolding strict_audience_claim as_header_parse is_kid_not_found
audience_claim-IsPublic raw = elim (Option-cases (get raw "aud")) [
  | inl e ↦ rw (e, strict_audience_claim) (refl, refl)
  | inr (v, e) ↦ rw (e, strict_audience_claim) (audience_of-IsPublic v)
]

check_issuer-IsPublic : (expected : String) (raw : Object) → IsPublic (check_issuer expected raw)
unfolding check_issuer as_header_parse is_kid_not_found
check_issuer-IsPublic expected raw = IsPublic-require _ _ (refl, refl)

check_audience-IsPublic :
    (expected : List String) (raw : Object) → IsPublic (check_audience expected raw)
unfolding check_audience as_header_parse is_kid_not_found
check_audience-IsPublic expected raw =
    IsPublic-bind (strict_audience_claim raw) _ (audience_claim-IsPublic raw)
      (λ audiences. IsPublic-require _ _ (refl, refl))

module _ (now leeway : ℤ) where
  check_expiry-IsPublic : (c : Numeric) → IsPublic (check_expiry now leeway c)
  unfolding check_expiry as_header_parse is_kid_not_found
  check_expiry-IsPublic (value exp) = IsPublic-require _ _ (refl, refl)
  check_expiry-IsPublic _ = (refl, refl)

  check_not_before-IsPublic : (c : Numeric) → IsPublic (check_not_before now leeway c)
  unfolding check_not_before as_header_parse is_kid_not_found
  check_not_before-IsPublic absent = tt
  check_not_before-IsPublic malformed = (refl, refl)
  check_not_before-IsPublic (value nbf) = IsPublic-require _ _ (refl, refl)

  check_issued_at-IsPublic : (c : Numeric) → IsPublic (check_issued_at now leeway c)
  unfolding check_issued_at as_header_parse is_kid_not_found
  check_issued_at-IsPublic absent = tt
  check_issued_at-IsPublic malformed = (refl, refl)
  check_issued_at-IsPublic (value iat) = IsPublic-require _ _ (refl, refl)

raw_claims-IsPublic :
    (raw : Object) (policy : StrictJwtPolicy) (now : ℤ)
    → IsPublic (validate_strict_raw_claims raw policy now)
unfolding validate_strict_raw_claims
raw_claims-IsPublic raw policy now =
    IsPublic-bind _ _ (check_issuer-IsPublic policy.expected_issuer raw) (λ _.
      IsPublic-bind _ _ (check_audience-IsPublic policy.expected_audiences raw) (λ _.
        IsPublic-bind _ _ (check_expiry-IsPublic now _ _) (λ _.
          IsPublic-bind _ _ (check_not_before-IsPublic now _ _)
            (λ _. check_issued_at-IsPublic now _ _))))

IsPublic-if :
    {A : Type 0} (b : Bool) (m n : Result A)
    → IsPublic m
    → IsPublic n
    → IsPublic (if b then m else n)
IsPublic-if true m n h k = h
IsPublic-if false m n h k = k

strict_claims-IsPublic :
    (p : Platform) (policy : StrictJwtPolicy) (now : ℤ) (raw : Object)
    → IsPublic (strict_claims p policy now raw)
unfolding strict_claims as_header_parse is_kid_not_found
strict_claims-IsPublic p policy now raw =
    IsPublic-bind _ _ (raw_claims-IsPublic raw policy now)
      (λ _. IsPublic-if _ (err _) (ok _) (refl, refl) tt)

module _ {Key Token : Type 0} (env : Env Key Token) where
  pub strict_with_keys-IsPublic :
      (policy : StrictJwtPolicy) (now : ℤ) (parsed : Token) (keys : List Key)
      → IsPublic (strict_with_keys env policy now parsed keys)
  unfolding strict_with_keys as_header_parse is_kid_not_found
  strict_with_keys-IsPublic policy now parsed [] = (refl, refl)
  strict_with_keys-IsPublic policy now parsed (key ∷ keys) =
      elim (Option-cases (env.jose.verified_claims parsed key)) [
        | inl e ↦ rw (e, strict_with_keys) (strict_with_keys-IsPublic policy now parsed keys)
        | inr (raw, e) ↦
            rw (e, strict_with_keys) (strict_claims-IsPublic env.platform policy now raw)
      ]

  pub strict_error-IsPublic : (e : Failure) → IsPublic {A = Unit {0}} (err (strict_error env e))
  unfolding strict_error as_header_parse is_kid_not_found
  strict_error-IsPublic e = elim (Option-cases (as_header_parse e)) [
    | inr (x, h) ↦ rw (h, strict_error) (refl, refl)
    | inl h ↦ elim (Bool-cases (is_kid_not_found e)) [
      | inl k ↦ rw (h, strict_error, k) (refl, refl)
      | inr k ↦ rw (h, strict_error, k) (h, k)
    ]
  ]

  reclassified-IsPublic : {A : Type 0} (r : Result A × System Key) → IsPublic (reclassified env r).0
  reclassified-IsPublic (ok a, s) = tt
  reclassified-IsPublic (err e, s) = strict_error-IsPublic e

  -- The action fails with such errors only.
  record Hides {A : Type 0} (m : Action Key A) : Type 0 where
    at : (s : System Key) → IsPublic (m s).0

  resume-Hides :
      {A B : Type 0} (r : Result A) (s : System Key) (f : A → Action Key B)
      → IsPublic r
      → ((a : A) → Hides (f a))
      → IsPublic (resume (r, s) f).0
  resume-Hides (ok a) s f h k = (k a).at s
  resume-Hides (err e) s f h k = h

  Hides-bind :
      {A B : Type 0} (m : Action Key A) (f : A → Action Key B)
      → Hides m
      → ((a : A) → Hides (f a))
      → Hides (Verifier.◌>>=◌ m f)
  unfolding Verifier.◌>>=◌
  Hides-bind m f h k = record { at = λ s. let (r, s') = m s in resume-Hides r s' f (h.at s) k }

  time_now-Hides : Hides (time_now env)
  unfolding time_now
  time_now-Hides = record { at = λ s. tt }

  parsed-Hides :
      (token : String) (policy : StrictJwtPolicy) → Hides (validate_strict_parsed env token policy)
  unfolding validate_strict_parsed
  parsed-Hides token policy =
      Hides-bind _ _ (record { at = λ s. reclassified-IsPublic (parse_and_fetch_keys env token s) })
        (λ (parsed, keys).
          Hides-bind _ _ time_now-Hides
            (λ now. record { at = λ s. strict_with_keys-IsPublic policy _ parsed keys }))

  Hides-if :
      {A : Type 0} (b : Bool) (m n : Action Key A) → Hides m → Hides n → Hides (if b then m else n)
  Hides-if true m n h k = h
  Hides-if false m n h k = k

  Hides-detail : {A : Type 0} (c : Sentinel) (t : String) → Hides (fail {A = A} (detail c t))
  unfolding as_header_parse is_kid_not_found
  Hides-detail c t = record { at = λ s. (refl, refl) }

  guarded-Hides :
      (token : String) (policy : StrictJwtPolicy) → Hides (validate_strict_jwt env token policy)
  unfolding validate_strict_jwt
  guarded-Hides token policy = search (Hides-if, Hides-detail, parsed-Hides)

  -- No error of `ValidateStrictJWT`, from any state, has a `*jwtHeaderParseError` or a
  -- `*kidNotFoundError` anywhere in its tree of wrapped errors.
  pub validate_strict_jwt-IsPublic :
      (token : String) (policy : StrictJwtPolicy) (s : System Key)
      → IsPublic (validate_strict_jwt env token policy s).0
  validate_strict_jwt-IsPublic token policy s = (guarded-Hides token policy).at s

  module _ (cfg : OauthConfig) (random : IsRandom env) (fits : TtlFits cfg) where
    -- Every run of `ValidateStrictJWT`, failed ones included, leaves a coherent cache coherent.
    -- The random numbers are below their bound, and the time to live fits.
    pub validate_strict_jwt-IsCoherent :
        (token : String) (policy : StrictJwtPolicy)
        → Keeps (IsCoherent env cfg) (validate_strict_jwt env token policy)
    validate_strict_jwt-IsCoherent token policy =
        Keeps-strict env (IsCoherent-IsKept env cfg random fits) token policy
