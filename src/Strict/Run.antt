-- ===== src/Strict/Run.antt =====
-- A whole run of the strict validation, from its guards to the claims.
use mathlib.Core.Path.{subst}
use go_mcp_oauth_sdk.Prelude.{
  ℕ, ◌+◌, ◌≤◌, ◌<◌, String, ◌≡◌, refl, ap, ◌∙◌, true, false, not, ◌&&◌, some, List, [], ◌∷◌, inl,
  inr, arith, if◌then◌else◌, is_empty, All, In, Any, Option-cases, Bool-cases,
}
use go_mcp_oauth_sdk.Prelude.Int.{ℤ, pos, ltb_ℤ, IsInt64}
use go_mcp_oauth_sdk.Errors.{sentinel, insufficient_scopes, Result, ok, err}
use go_mcp_oauth_sdk.Errors.Laws.{>>-eq-ok}
use go_mcp_oauth_sdk.Json.{Object}
use go_mcp_oauth_sdk.Platform.{Platform}
use go_mcp_oauth_sdk.Config.{OauthConfig}
use go_mcp_oauth_sdk.Claims.{Claims, claims_from_raw_claims}
use go_mcp_oauth_sdk.Policy.{has_required_scopes}
use go_mcp_oauth_sdk.Policy.Scopes.{has_required_scopes_iff}
use go_mcp_oauth_sdk.Env.{Env, IsRandom}
use go_mcp_oauth_sdk.Verifier.{System, next_call, ◌>>=◌}
use go_mcp_oauth_sdk.Verifier.Runs.{bind_inv, fail_inv}
use go_mcp_oauth_sdk.Jwks.{time_now}
use go_mcp_oauth_sdk.Jwks.Cache.{TtlFits, IsCoherent}
use go_mcp_oauth_sdk.Jwt.{looks_like_jwt, parse_and_fetch_keys}
use go_mcp_oauth_sdk.Jwt.Supply.{Supplied, relax-Supplied, parse_and_fetch_keys-Supplied}
use go_mcp_oauth_sdk.Strict.{
  StrictJwtPolicy, has_non_empty_expected_audience, strict_claims, unix, strict_with_keys,
  reclassified, validate_strict_parsed, validate_strict_jwt,
}
use go_mcp_oauth_sdk.Strict.Contract.{Meets, IsModest, validate_strict_raw_claims_iff}

-- The claims are the projection of signed ones that pass the policy at that time, and hold its scopes.
pub record Granted (p : Platform) (policy : StrictJwtPolicy) (now : ℤ) (raw : Object)
    (claims : Claims) : Type 0 where
  pub meets : Meets policy now raw
  pub projected : claims_from_raw_claims p raw ≡ claims
  pub scopes : All (λ s. In s claims.scopes) policy.required_scopes

scoped_claims :
    (claims c : Claims) (required : List String)
    → (if not (is_empty required) && not (has_required_scopes claims.scopes required)
        then err (sentinel insufficient_scopes)
        else ok claims)
      ≡ ok c
    → (claims ≡ c) × All (λ s. In s c.scopes) required
scoped_claims claims c [] run = (ground arith, tt)
scoped_claims claims c (r ∷ required) run =
    elim (Bool-cases (has_required_scopes claims.scopes (r ∷ required))) [
      | inl held ↦
          let same : claims ≡ c = ground arith in
          (
            same,
            subst (λ d. All (λ s. In s d.scopes) (r ∷ required)) same
                ((has_required_scopes_iff claims.scopes (r ∷ required)).0 held),
          )
      | inr lacking ↦ ground arith
    ]

strict_claims-Granted :
    (p : Platform) (policy : StrictJwtPolicy) (now : ℤ) (raw : Object) (claims : Claims)
    → IsModest now
    → IsInt64 policy.leeway
    → strict_claims p policy now raw ≡ ok claims
    → Granted p policy now raw claims
unfolding strict_claims
strict_claims-Granted p policy now raw claims modest fits run =
    let (checked, scoped) = >>-eq-ok _ _ run in
    let (same, held) = scoped_claims _ claims policy.required_scopes scoped in
    record {
      meets = (validate_strict_raw_claims_iff policy now raw modest fits).0 checked;
      projected = same;
      scopes = held;
    }

module _ {Key Token : Type 0} (env : Env Key Token) (cfg : OauthConfig) where
  -- The key verifies the signature over claims that are granted.
  abbrev pub Signed : StrictJwtPolicy → ℤ → Token → Claims → Key → Type 0
  Signed policy now parsed claims key =
      (raw : Object) × (env.jose.verified_claims parsed key ≡ some raw)
      × Granted env.platform policy now raw claims

  module _ (policy : StrictJwtPolicy) (now : ℤ) (modest : IsModest now)
      (fits : IsInt64 policy.leeway) where
    pub strict_with_keys-Signed :
        (parsed : Token) (keys : List Key) (claims : Claims)
        → strict_with_keys env policy now parsed keys ≡ ok claims
        → Any (Signed policy now parsed claims) keys
    unfolding strict_with_keys
    strict_with_keys-Signed parsed [] claims run = cc
    strict_with_keys-Signed parsed (key ∷ keys) claims run =
        elim (Option-cases (env.jose.verified_claims parsed key)) [
          | inl e ↦
              inr (strict_with_keys-Signed parsed keys claims (rw (e, strict_with_keys) at run))
          | inr (raw, e) ↦ inl (
            raw,
            e,
            strict_claims-Granted env.platform policy now raw claims modest fits
                (rw (e, strict_with_keys) at run),
          )
        ]

  -- Everything that a token must have shown in a run from `s` to `t`, and the call of the clock in
  -- this run that gave the time.
  pub record Admitted (s t : System Key) (token : String) (policy : StrictJwtPolicy)
      (claims : Claims) : Type 0 where
    pub compact : looks_like_jwt token ≡ true
    pub bounded : ltb_ℤ policy.leeway (pos 0) ≡ false
    pub parsed : Token
    pub keys : List Key
    pub call : ℕ
    pub since : s.calls ≤ call
    pub until : call < t.calls
    pub supplied : Supplied env cfg s t.calls token parsed keys
    pub signed : Any (Signed policy (unix (env.clock call)) parsed claims) keys

  reclassified_ok :
      {A : Type 0} (r : Result A × System Key) (a : A)
      → (reclassified env r).0 ≡ ok a
      → r ≡ (ok a, (reclassified env r).1)
  reclassified_ok (ok b, s) a h = rw h refl
  reclassified_ok (err e, s) a h = cc

  time_now-result :
      (s : System Key) (now : ℕ) → (time_now env s).0 ≡ ok now → env.clock s.calls ≡ now
  unfolding time_now
  time_now-result s now h = ground arith

  time_now-calls : (s : System Key) → s.calls + 1 ≡ (time_now env s).1.calls
  unfolding time_now next_call ◌>>=◌
  time_now-calls s = refl

  module _ (random : IsRandom env) (ttl_fits : TtlFits cfg) where
    parsed-Admitted :
        (token : String) (policy : StrictJwtPolicy) (claims : Claims) (s t : System Key)
        → ((call : ℕ) → IsModest (unix (env.clock call)))
        → IsInt64 policy.leeway
        → IsCoherent env cfg s
        → looks_like_jwt token ≡ true
        → ltb_ℤ policy.leeway (pos 0) ≡ false
        → validate_strict_parsed env token policy s ≡ (ok claims, t)
        → Admitted s t token policy claims
    unfolding validate_strict_parsed
    parsed-Admitted token policy claims s t modest fits h compact bounded run =
        let (p, fetched, run1) =
          bind_inv (λ s. reclassified env (parse_and_fetch_keys env token s)) _ s run in
        let s1 = (reclassified env (parse_and_fetch_keys env token s)).1 in
        let (now, told, verified) = bind_inv (time_now env) _ s1 run1 in
        let same = time_now-result s1 now told in
        let supplied =
          parse_and_fetch_keys-Supplied env cfg random ttl_fits token p.0 p.1 s s1 h
            (reclassified_ok (parse_and_fetch_keys env token s) p fetched) in
        let ticked : s1.calls + 1 ≡ t.calls = time_now-calls s1 ∙ ap (λ r. r.1.calls) verified in
        record {
          compact = compact;
          bounded = bounded;
          parsed = p.0;
          keys = p.1;
          call = s1.calls;
          since = omega (arith, supplied.since, supplied.until);
          until = omega (arith, ticked);
          supplied = relax-Supplied env cfg t.calls (omega (arith, ticked)) supplied;
          signed =
              strict_with_keys-Signed policy (unix (env.clock s1.calls)) (modest s1.calls) fits p.0
                p.1 claims (rw same ground arith);
        }

    -- From a coherent cache, `ValidateStrictJWT` returns claims only for a compact token that one of
    -- the keys for its key id verifies, whose signed claims meet the policy at a time that the clock
    -- gave in this run, that hold every required scope, and of which the result is the projection.
    -- The keys were downloaded from the URI that the run resolves, at most eleven tenths of the time
    -- to live before a reading of the clock in this run. The random numbers are below their bound,
    -- the time to live and the leeway fit, and the clock is less than 2 ^ 62 seconds from 1970.
    pub validate_strict_jwt-Admitted :
        (token : String) (policy : StrictJwtPolicy) (claims : Claims) (s t : System Key)
        → ((call : ℕ) → IsModest (unix (env.clock call)))
        → IsInt64 policy.leeway
        → IsCoherent env cfg s
        → validate_strict_jwt env token policy s ≡ (ok claims, t)
        → Admitted s t token policy claims
    unfolding validate_strict_jwt
    validate_strict_jwt-Admitted token policy claims s t modest fits h run =
        elim (Bool-cases (looks_like_jwt token)) [
          | inr loose ↦ absurd (fail_inv (rw (validate_strict_jwt, loose) at run))
          | inl compact ↦
              elim (Bool-cases (has_non_empty_expected_audience policy.expected_audiences)) [
                | inr blank ↦ absurd (fail_inv (rw (validate_strict_jwt, compact, blank) at run))
                | inl listed ↦ elim (Bool-cases (ltb_ℤ policy.leeway (pos 0))) [
                  | inl negative ↦
                      absurd (fail_inv (rw (validate_strict_jwt, compact, listed, negative) at run))
                  | inr bounded ↦
                      parsed-Admitted token policy claims s t modest fits h compact bounded
                        (rw (validate_strict_jwt, compact, listed, bounded) at run)
                ]
              ]
        ]
