-- ===== src/Jwt/External.antt =====
-- What a token that the legacy path accepts has shown.
use mathlib.Core.Path.{subst}
use go_mcp_oauth_sdk.Prelude.{
  String, ◌≡◌, ◌≢◌, ◌↔◌, refl, ap, sym, ◌∙◌, Bool, true, false, none, some, List, [], ◌∷◌, arith,
  eq_iff, Any, Any-map, inl, inr, Option-cases,
}
use go_mcp_oauth_sdk.Errors.{ok}
use go_mcp_oauth_sdk.Json.{Object}
use go_mcp_oauth_sdk.Claims.{Claims, claims_from_raw_claims}
use go_mcp_oauth_sdk.Config.{OauthConfig}
use go_mcp_oauth_sdk.Env.{Env}
use go_mcp_oauth_sdk.Jwt.{
  comparable, Verdict, unverified, wrong_issuer, wrong_audience, accepted, check_claims, judge,
  verify_with_keys,
}
use go_mcp_oauth_sdk.Jwt.Audience.{audience_matches_resource_iff}

-- The issuer and the audience are the expected ones, where these are configured.
pub record Suits (cfg : OauthConfig) (expected : String) (claims : Claims) : Type 0 where
  pub issuer : comparable cfg.issuer ≢ "" → comparable claims.issuer ≡ comparable cfg.issuer
  pub audience : expected ≢ "" → Any (λ a. comparable a ≡ comparable expected) claims.audience

-- one verdict of each kind
data Verdicts (v : Verdict) : Type 0 where
  is_unverified : v ≡ unverified → Verdicts v
  is_wrong_issuer : v ≡ wrong_issuer → Verdicts v
  is_wrong_audience : v ≡ wrong_audience → Verdicts v
  is_accepted : (c : Claims) → v ≡ accepted c → Verdicts v

verdicts : (v : Verdict) → Verdicts v
verdicts unverified = is_unverified refl
verdicts wrong_issuer = is_wrong_issuer refl
verdicts wrong_audience = is_wrong_audience refl
verdicts (accepted c) = is_accepted c refl

check_claims_iff :
    (cfg : OauthConfig) (expected : String) (claims c : Claims)
    → (check_claims cfg expected claims ≡ accepted c) ↔ (Suits cfg expected claims × (claims ≡ c))
unfolding check_claims
check_claims_iff cfg expected claims c =
    let iss = eq_iff (comparable cfg.issuer) "" in
    let iss' = eq_iff (comparable claims.issuer) (comparable cfg.issuer) in
    let aud = eq_iff expected "" in
    let aud' = audience_matches_resource_iff claims.audience expected in
    (
      (λ h. (
        record { issuer = ground (arith, iss, iss'); audience = ground (arith, aud, aud') },
        ground arith,
      )),
      λ (s, e). ground (arith, iss, iss', aud, aud', s.issuer, s.audience, e),
    )

module _ {Key Token : Type 0} (env : Env Key Token) (cfg : OauthConfig) (expected : String)
    (parsed : Token) where
  -- The key verifies the signature.
  abbrev pub Verifies : Key → Type 0
  Verifies key = (raw : Object) × (env.jose.verified_claims parsed key ≡ some raw)

  -- The key verifies the signature, and the signed claims are `c` and suit the configuration.
  abbrev pub Accepts : Claims → Key → Type 0
  Accepts c key =
      (raw : Object) × (env.jose.verified_claims parsed key ≡ some raw)
      × Suits cfg expected c
      × (claims_from_raw_claims env.platform raw ≡ c)

  judge_unverified :
      (key : Key)
      → env.jose.verified_claims parsed key ≡ none
      → judge env cfg expected parsed key ≡ unverified
  unfolding judge
  judge_unverified key e = rw (e, judge)

  judge_verified :
      (key : Key) (raw : Object)
      → env.jose.verified_claims parsed key ≡ some raw
      → judge env cfg expected parsed key
        ≡ check_claims cfg expected (claims_from_raw_claims env.platform raw)
  unfolding judge
  judge_verified key raw e = rw (e, judge)

  judge_iff :
      (key : Key) (c : Claims) → (judge env cfg expected parsed key ≡ accepted c) ↔ Accepts c key
  judge_iff key c = elim (Option-cases (env.jose.verified_claims parsed key)) [
    | inl e ↦ ((λ h. cc (judge_unverified key e)), λ (raw, e', _, _). cc (e, e'))
    | inr (raw, e) ↦
        let checked = check_claims_iff cfg expected (claims_from_raw_claims env.platform raw) c in
        let known = judge_verified key raw e in
        (
          (λ h.
              let (suits, same) = checked.0 (sym known ∙ h) in
              (raw, e, subst (Suits cfg expected) same suits, same)),
          λ (raw', e', suits, same).
              let one : raw ≡ raw' = cc (e, e') in
              let same' : claims_from_raw_claims env.platform raw ≡ c =
                ap (claims_from_raw_claims env.platform) one ∙ same in
              known ∙ checked.1 (subst (Suits cfg expected) (sym same') suits, same'),
        )
  ]

  -- A verdict other than `unverified` shows that the key verifies the signature.
  judge-Verifies :
      (key : Key) (v : Verdict)
      → judge env cfg expected parsed key ≡ v
      → v ≢ unverified
      → Verifies key
  judge-Verifies key v h other = elim (Option-cases (env.jose.verified_claims parsed key)) [
    | inl e ↦ absurd (other (sym h ∙ judge_unverified key e))
    | inr (raw, e) ↦ (raw, e)
  ]

  -- One round of the loop, for each verdict.
  module _ (s i a : Bool) (key : Key) (keys : List Key) where
    verify-unverified :
        judge env cfg expected parsed key ≡ unverified
        → verify_with_keys env cfg expected parsed s i a (key ∷ keys)
          ≡ verify_with_keys env cfg expected parsed s i a keys
    unfolding verify_with_keys
    verify-unverified e = rw (e, verify_with_keys)

    verify-wrong_issuer :
        judge env cfg expected parsed key ≡ wrong_issuer
        → verify_with_keys env cfg expected parsed s i a (key ∷ keys)
          ≡ verify_with_keys env cfg expected parsed true true a keys
    unfolding verify_with_keys
    verify-wrong_issuer e = rw (e, verify_with_keys)

    verify-wrong_audience :
        judge env cfg expected parsed key ≡ wrong_audience
        → verify_with_keys env cfg expected parsed s i a (key ∷ keys)
          ≡ verify_with_keys env cfg expected parsed true i true keys
    unfolding verify_with_keys
    verify-wrong_audience e = rw (e, verify_with_keys)

    verify-accepted :
        (c : Claims)
        → judge env cfg expected parsed key ≡ accepted c
        → verify_with_keys env cfg expected parsed s i a (key ∷ keys) ≡ ok c
    unfolding verify_with_keys
    verify-accepted c e = rw (e, verify_with_keys)

  verify_sound :
      (s i a : Bool) (keys : List Key) (c : Claims)
      → verify_with_keys env cfg expected parsed s i a keys ≡ ok c
      → Any (Accepts c) keys
  unfolding verify_with_keys
  verify_sound s i a [] c h = ground arith
  verify_sound s i a (key ∷ keys) c h = elim (verdicts (judge env cfg expected parsed key)) [
    | is_unverified e ↦
        inr (verify_sound s i a keys c (sym (verify-unverified s i a key keys e) ∙ h))
    | is_wrong_issuer e ↦
        inr (verify_sound true true a keys c (sym (verify-wrong_issuer s i a key keys e) ∙ h))
    | is_wrong_audience e ↦
        inr (verify_sound true i true keys c (sym (verify-wrong_audience s i a key keys e) ∙ h))
    | is_accepted c' e ↦ inl ((judge_iff key c).0 (cc (e, h, verify-accepted s i a key keys c' e)))
  ]

  verify_complete :
      (s i a : Bool) (keys : List Key)
      → Any (λ key. (c : Claims) × Accepts c key) keys
      → (c : Claims) × (verify_with_keys env cfg expected parsed s i a keys ≡ ok c)
  verify_complete s i a [] m = elim m [ ]
  verify_complete s i a (key ∷ keys) m = elim (verdicts (judge env cfg expected parsed key)) [
    | is_unverified e ↦
        rw (verify-unverified s i a key keys e)
          (verify_complete s i a keys (later key keys (λ c h. cc (e, (judge_iff key c).1 h)) m))
    | is_wrong_issuer e ↦
        rw (verify-wrong_issuer s i a key keys e) (
          verify_complete true true a keys
            (later key keys (λ c h. cc (e, (judge_iff key c).1 h)) m))
    | is_wrong_audience e ↦
        rw (verify-wrong_audience s i a key keys e) (
          verify_complete true i true keys
            (later key keys (λ c h. cc (e, (judge_iff key c).1 h)) m))
    | is_accepted c e ↦ (c, verify-accepted s i a key keys c e)
  ]
    where
      later :
          (key : Key) (keys : List Key)
          → ((c : Claims) → Accepts c key → ⊥)
          → Any (λ k. (c : Claims) × Accepts c k) (key ∷ keys)
          → Any (λ k. (c : Claims) × Accepts c k) keys
      later key keys refuted (inl (c, h)) = absurd (refuted c h)
      later key keys refuted (inr m) = m

  -- The loop over the keys returns claims exactly where some key verifies the signature over
  -- claims that suit the issuer and the audience; what it returns was signed and suits them.
  pub verify_with_keys_iff :
      (keys : List Key)
      → (((c : Claims) × (verify_with_keys env cfg expected parsed false false false keys ≡ ok c))
          ↔ Any (λ key. (c : Claims) × Accepts c key) keys)
        × ((c : Claims)
            → verify_with_keys env cfg expected parsed false false false keys ≡ ok c
            → Any (Accepts c) keys)
  verify_with_keys_iff keys = (
    (
      (λ (c, h).
          Any-map (Accepts c) (λ key. (c : Claims) × Accepts c key) (λ key h. (c, h)) keys
            (verify_sound false false false keys c h)),
      verify_complete false false false keys,
    ),
    verify_sound false false false keys,
  )
