-- ===== src/Strict/Contract.antt =====
-- The strict checks are the contract of the policy, in exact arithmetic.
use mathlib.Core.Path.{subst}
use go_mcp_oauth_sdk.Prelude.{suc, ◌^◌, ◌≤◌, String, ◌≡◌, ◌≢◌, ◌↔◌, refl, some, List, arith, Any}
use go_mcp_oauth_sdk.Prelude.Int.{
  ℤ, pos, negsuc, pos_part, neg_part, ◌+ℤ◌, ◌-ℤ◌, ◌≤ℤ◌, wrap64, wrap64_self, IsInt64, +ℤ_parts,
  -ℤ_parts,
}
use go_mcp_oauth_sdk.Errors.{Result, ok, err, ◌>>◌}
use go_mcp_oauth_sdk.Errors.Laws.{>>-eq-ok}
use go_mcp_oauth_sdk.Json.{Value, str, Object, get}
use go_mcp_oauth_sdk.Strict.Readings.{
  Seconds, Texts, Truncated, whole_seconds-Truncated, Truncated-unique, IfPresent, Present,
  claim-Present_iff, claim-IfPresent_iff,
}
use go_mcp_oauth_sdk.Strict.{
  StrictJwtPolicy, Numeric, absent, malformed, value, strict_numeric_claim, whole_seconds,
  check_expiry, check_not_before, check_issued_at, validate_strict_raw_claims,
}
use go_mcp_oauth_sdk.Strict.Parties.{Expected, check_issuer_iff, audience_meets}

-- The contract of `validateStrictRawClaims`, with the leeway in whole seconds and no overflow.
pub record Meets (policy : StrictJwtPolicy) (now : ℤ) (raw : Object) : Type 0 where
  pub leeway : ℤ
  pub truncated : Truncated policy.leeway leeway
  pub issuer : policy.expected_issuer ≢ "" → get raw "iss" ≡ some (str policy.expected_issuer)
  pub audience :
      (v : Value) × (audiences : List String) × (get raw "aud" ≡ some v)
      × Texts v audiences
      × Any (Expected policy.expected_audiences) audiences
  pub expiry :
      (v : Value) × (exp : ℤ) × (get raw "exp" ≡ some v) × Seconds v exp × (now ≤ℤ exp +ℤ leeway)
  pub not_before :
      (v : Value) → get raw "nbf" ≡ some v → (nbf : ℤ) × Seconds v nbf × (nbf ≤ℤ now +ℤ leeway)
  pub issued_at :
      (v : Value) → get raw "iat" ≡ some v → (iat : ℤ) × Seconds v iat × (iat ≤ℤ now +ℤ leeway)

-- A sum or a difference of two such numbers is an int64: less than 2 ^ 62 seconds either way.
abbrev pub IsModest : ℤ → Type 0
IsModest a = (suc (pos_part a) ≤ 2 ^ 62) × (suc (neg_part a) ≤ 2 ^ 62)

add_exact : (a b : ℤ) → IsModest a → IsModest b → wrap64 (a +ℤ b) ≡ a +ℤ b
unfolding ◌+ℤ◌
add_exact a b h k =
    wrap64_self (a +ℤ b) (record { above = ground (arith, h, k); below = ground (arith, h, k) })

sub_exact : (a b : ℤ) → IsModest a → IsModest b → wrap64 (a -ℤ b) ≡ a -ℤ b
unfolding ◌-ℤ◌
sub_exact a b h k =
    wrap64_self (a -ℤ b) (record { above = ground (arith, h, k); below = ground (arith, h, k) })

whole_seconds-IsModest : (leeway : ℤ) → IsInt64 leeway → IsModest (whole_seconds leeway)
unfolding whole_seconds
whole_seconds-IsModest (pos n) h = let b = h.below in ground arith
whole_seconds-IsModest (negsuc n) h = let a = h.above in ground arith

module _ (now leeway : ℤ) (h : IsModest now) (k : IsModest leeway) where
  check_expiry_iff :
      (c : Numeric) → (check_expiry now leeway c ≡ ok tt) ↔ Present (λ exp. now ≤ℤ exp +ℤ leeway) c
  unfolding check_expiry
  check_expiry_iff absent = ((λ r. cc), λ r. absurd r)
  check_expiry_iff malformed = ((λ r. cc), λ r. absurd r)
  check_expiry_iff (value exp) =
      let d = -ℤ_parts now leeway in
      let e = +ℤ_parts exp leeway in rw (sub_exact now leeway h k, check_expiry) ground arith

  check_not_before_iff :
      (c : Numeric)
      → (check_not_before now leeway c ≡ ok tt) ↔ IfPresent (λ nbf. nbf ≤ℤ now +ℤ leeway) c
  unfolding check_not_before
  check_not_before_iff absent = ((λ r. tt), λ r. refl)
  check_not_before_iff malformed = ((λ r. cc), λ r. absurd r)
  check_not_before_iff (value nbf) = rw (add_exact now leeway h k, check_not_before) ground arith

  check_issued_at_iff :
      (c : Numeric)
      → (check_issued_at now leeway c ≡ ok tt) ↔ IfPresent (λ iat. iat ≤ℤ now +ℤ leeway) c
  unfolding check_issued_at
  check_issued_at_iff absent = ((λ r. tt), λ r. refl)
  check_issued_at_iff malformed = ((λ r. cc), λ r. absurd r)
  check_issued_at_iff (value iat) = rw (add_exact now leeway h k, check_issued_at) ground arith

-- The time claims of the contract, for a leeway in seconds.
abbrev ExpiryMeets : ℤ → Object → ℤ → Type 0
ExpiryMeets now raw leeway =
    (v : Value) × (exp : ℤ) × (get raw "exp" ≡ some v) × Seconds v exp × (now ≤ℤ exp +ℤ leeway)

abbrev LaterMeets : ℤ → Object → String → ℤ → Type 0
LaterMeets now raw key leeway =
    (v : Value) → get raw key ≡ some v → (n : ℤ) × Seconds v n × (n ≤ℤ now +ℤ leeway)

↔-trans : {A B C : Type 0} → A ↔ B → B ↔ C → A ↔ C
↔-trans f g = ((λ a. g.0 (f.0 a)), λ c. f.1 (g.1 c))

module _ (now leeway : ℤ) (h : IsModest now) (k : IsModest leeway) (raw : Object) where
  expiry_meets :
      (check_expiry now leeway (strict_numeric_claim raw "exp") ≡ ok tt)
      ↔ ExpiryMeets now raw leeway
  expiry_meets =
      ↔-trans (check_expiry_iff now leeway h k (strict_numeric_claim raw "exp"))
        (claim-Present_iff (λ exp. now ≤ℤ exp +ℤ leeway) raw "exp")

  not_before_meets :
      (check_not_before now leeway (strict_numeric_claim raw "nbf") ≡ ok tt)
      ↔ LaterMeets now raw "nbf" leeway
  not_before_meets =
      ↔-trans (check_not_before_iff now leeway h k (strict_numeric_claim raw "nbf"))
        (claim-IfPresent_iff (λ nbf. nbf ≤ℤ now +ℤ leeway) raw "nbf")

  issued_at_meets :
      (check_issued_at now leeway (strict_numeric_claim raw "iat") ≡ ok tt)
      ↔ LaterMeets now raw "iat" leeway
  issued_at_meets =
      ↔-trans (check_issued_at_iff now leeway h k (strict_numeric_claim raw "iat"))
        (claim-IfPresent_iff (λ iat. iat ≤ℤ now +ℤ leeway) raw "iat")

chain : (m n : Result (Unit {0})) → m ≡ ok tt → n ≡ ok tt → (m >> n) ≡ ok tt
chain (ok tt) n e e' = e'
chain (err f) n e e' = cc

-- `validateStrictRawClaims` succeeds exactly when the claims meet the policy: the issuer, if one
-- is expected, is that text; the audience claim is a text or an array of nothing but texts, one of
-- which is an expected audience that is not blank; exp is there, holds whole seconds, and these are
-- at most the leeway ago; and nbf and iat, if they are there, hold whole seconds at most the leeway
-- ahead. A claim holds whole seconds if it is a float64 in the range of int64, whose fraction is
-- dropped, or the text of an int64. The leeway is an int64 of nanoseconds, of which the whole
-- seconds count, and the time is less than 2 ^ 62 seconds from 1970.
pub validate_strict_raw_claims_iff :
    (policy : StrictJwtPolicy) (now : ℤ) (raw : Object)
    → IsModest now
    → IsInt64 policy.leeway
    → (validate_strict_raw_claims raw policy now ≡ ok tt) ↔ Meets policy now raw
unfolding validate_strict_raw_claims
validate_strict_raw_claims_iff policy now raw h k =
    let leeway = whole_seconds policy.leeway in
    let truncated = whole_seconds-Truncated policy.leeway in
    let w = whole_seconds-IsModest policy.leeway k in
    let issuer = check_issuer_iff policy.expected_issuer raw in
    let audience = audience_meets policy.expected_audiences raw in
    let expiry = expiry_meets now leeway h w raw in
    let not_before = not_before_meets now leeway h w raw in
    let issued_at = issued_at_meets now leeway h w raw in
    (
      (λ run.
          let (i, run1) = >>-eq-ok _ _ run in
          let (a, run2) = >>-eq-ok _ _ run1 in
          let (e, run3) = >>-eq-ok _ _ run2 in
          let (n, s) = >>-eq-ok _ _ run3 in
          record {
            leeway = leeway;
            truncated = truncated;
            issuer = issuer.0 i;
            audience = audience.0 a;
            expiry = expiry.0 e;
            not_before = not_before.0 n;
            issued_at = issued_at.0 s;
          }),
      λ m.
          let same = Truncated-unique policy.leeway m.leeway leeway m.truncated truncated in
          chain _ _ (issuer.1 m.issuer) (
            chain _ _ (audience.1 m.audience) (
              chain _ _ (expiry.1 (subst (ExpiryMeets now raw) same m.expiry)) (
                chain _ _ (not_before.1 (subst (LaterMeets now raw "nbf") same m.not_before))
                  (issued_at.1 (subst (LaterMeets now raw "iat") same m.issued_at))))),
    )
