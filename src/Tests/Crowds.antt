-- ===== src/Tests/Crowds.antt =====
-- Goroutines that call the exported methods at the same time, in the small world, where the URI of
-- the keys is discovered.
use go_mcp_oauth_sdk.Prelude.{
  ℕ, zero, suc, ◌≤◌, All, String, ◌≡◌, ◌≢◌, refl, false, some, List, [], ◌∷◌, ◌++◌, arith,
}
use go_mcp_oauth_sdk.Errors.{plain, Result, ok, err}
use go_mcp_oauth_sdk.Program.{Program, finished}
use go_mcp_oauth_sdk.Config.{OauthConfig}
use go_mcp_oauth_sdk.Env.{AuthServerMeta}
use go_mcp_oauth_sdk.Api.{fetch_metadata, validate, validate_strict}
use go_mcp_oauth_sdk.Goroutines.{
  Answer, metadata, validated, admitted, waiting, running, answered, is_running, respond, Turn,
  call, step, take_turns, gather,
}
use go_mcp_oauth_sdk.Jwks.Metadata.{issuer_key}
use go_mcp_oauth_sdk.Verifier.{initial}
use go_mcp_oauth_sdk.Parallel.Admission.{Certified}
use go_mcp_oauth_sdk.Parallel.Discovery.{Known}
use go_mcp_oauth_sdk.Goroutines.Safety.{Fits}
use go_mcp_oauth_sdk.Goroutines.Answers.{
  Confirmed, admitted-Certified, validated-Confirmed, metadata-Known,
}
use go_mcp_oauth_sdk.Goroutines.Progress.{CallsNone, take_turns-answered}
use go_mcp_oauth_sdk.Goroutines.Alone.{steps, take_turns-respond}
use go_mcp_oauth_sdk.Tests.World.{
  env, config, policy, claims, env-IsRandom, clock-IsModest, clock-HasRoom,
}

abbrev discovering : OauthConfig
discovering = record config { jwks_url = "" }

abbrev token : String
token = "head.body.sig"

-- Two validations and a discovery begin, and take turns.
abbrev rounds : ℕ → List Turn
rounds zero = []
rounds (suc n) = step 0 ∷ (step 1 ∷ (step 2 ∷ rounds n))

abbrev turns : List Turn
turns =
    call 0 (validate_strict token policy)
    ∷ call 1 (validate token)
    ∷ call 2 (fetch_metadata "https://issuer/")
    ∷ rounds 28

abbrev issuer_meta : AuthServerMeta
issuer_meta = record { issuer = "https://issuer"; jwks_uri = "https://issuer/jwks" }

runs :
    ((take_turns env (gather discovering) turns).task 0
      ≡ answered 0 (validate_strict token policy) (ok (admitted claims)))
    × ((take_turns env (gather discovering) turns).task 1
        ≡ answered 0 (validate token) (ok (validated (some claims))))
    × ((take_turns env (gather discovering) turns).task 2
        ≡ answered 0 (fetch_metadata "https://issuer/") (ok (metadata issuer_meta)))
unfolding go_mcp_oauth_sdk.Strict.validate_strict_jwt
    go_mcp_oauth_sdk.Strict.has_non_empty_expected_audience go_mcp_oauth_sdk.Strict.is_blank
    go_mcp_oauth_sdk.Strict.validate_strict_parsed go_mcp_oauth_sdk.Jwks.time_now
    go_mcp_oauth_sdk.Strict.strict_with_keys go_mcp_oauth_sdk.Strict.strict_claims
    go_mcp_oauth_sdk.Strict.validate_strict_raw_claims go_mcp_oauth_sdk.Strict.check_issuer
    go_mcp_oauth_sdk.Strict.issuer_matches go_mcp_oauth_sdk.Strict.check_audience
    go_mcp_oauth_sdk.Strict.strict_audience_claim go_mcp_oauth_sdk.Strict.strict_audience_of
    go_mcp_oauth_sdk.Strict.string_elements go_mcp_oauth_sdk.Strict.strict_audience_intersects
    go_mcp_oauth_sdk.Strict.non_blank go_mcp_oauth_sdk.Strict.check_expiry
    go_mcp_oauth_sdk.Strict.strict_numeric_claim go_mcp_oauth_sdk.Strict.numeric_of
    go_mcp_oauth_sdk.Strict.whole_seconds go_mcp_oauth_sdk.Strict.unix
    go_mcp_oauth_sdk.Strict.check_not_before go_mcp_oauth_sdk.Strict.check_issued_at
    go_mcp_oauth_sdk.Policy.has_required_scopes go_mcp_oauth_sdk.Prelude.Int.wrap64
    go_mcp_oauth_sdk.Prelude.Int.◌+ℤ◌ go_mcp_oauth_sdk.Prelude.Int.◌-ℤ◌
    go_mcp_oauth_sdk.Jwt.looks_like_jwt go_mcp_oauth_sdk.Text.count_char
    go_mcp_oauth_sdk.Claims.claims_from_raw_claims go_mcp_oauth_sdk.Claims.string_claim
    go_mcp_oauth_sdk.Claims.time_claim go_mcp_oauth_sdk.Claims.time_of
    go_mcp_oauth_sdk.Claims.verified_claim go_mcp_oauth_sdk.Claims.audience_claim
    go_mcp_oauth_sdk.Claims.audience_of go_mcp_oauth_sdk.Claims.scopes_claim
    go_mcp_oauth_sdk.Claims.scopes_of go_mcp_oauth_sdk.Claims.without_keys go_mcp_oauth_sdk.Json.get
    go_mcp_oauth_sdk.Json.get_string go_mcp_oauth_sdk.Json.strings go_mcp_oauth_sdk.Text.parse_int
    go_mcp_oauth_sdk.Text.fields go_mcp_oauth_sdk.Verifier.◌>>=◌
    go_mcp_oauth_sdk.Jwks.resolve_jwks_url go_mcp_oauth_sdk.Text.trim_space
    go_mcp_oauth_sdk.Text.trim_left go_mcp_oauth_sdk.Text.trim_right go_mcp_oauth_sdk.Text.is_space
    go_mcp_oauth_sdk.Jwt.parse_and_fetch_keys go_mcp_oauth_sdk.Jwt.parse_token
    go_mcp_oauth_sdk.Jwt.candidate_keys go_mcp_oauth_sdk.Verifier.new_verifier
    go_mcp_oauth_sdk.Jwks.fetch_jwk_set go_mcp_oauth_sdk.Jwks.is_cached
    go_mcp_oauth_sdk.Jwks.refetch go_mcp_oauth_sdk.Jwks.decode_reply
    go_mcp_oauth_sdk.Validator.validate_token go_mcp_oauth_sdk.Validator.validate_jwt
    go_mcp_oauth_sdk.Validator.validate_claims go_mcp_oauth_sdk.Validator.enforce
    go_mcp_oauth_sdk.Validator.audience_rejection go_mcp_oauth_sdk.Validator.time_rejection
    go_mcp_oauth_sdk.Validator.scope_rejection
    go_mcp_oauth_sdk.Validator.validate_upstream_identity_token
    go_mcp_oauth_sdk.Jwt.parse_and_verify_external_jwt go_mcp_oauth_sdk.Verifier.get_verifier
    go_mcp_oauth_sdk.Jwt.verify_with_keys go_mcp_oauth_sdk.Jwt.judge
    go_mcp_oauth_sdk.Jwt.check_claims go_mcp_oauth_sdk.Jwt.comparable
    go_mcp_oauth_sdk.Jwt.audience_matches_resource go_mcp_oauth_sdk.Text.trim_slashes
    go_mcp_oauth_sdk.Text.is_slash go_mcp_oauth_sdk.Goroutines.take_turns
    go_mcp_oauth_sdk.Goroutines.take_turn go_mcp_oauth_sdk.Goroutines.proceed
    go_mcp_oauth_sdk.Goroutines.program go_mcp_oauth_sdk.Program.◌>>=◌
    go_mcp_oauth_sdk.Program.after go_mcp_oauth_sdk.Program.atomic
    go_mcp_oauth_sdk.Parallel.lookup_keys go_mcp_oauth_sdk.Parallel.get_keys
    go_mcp_oauth_sdk.Parallel.with_outcome_after go_mcp_oauth_sdk.Parallel.use_cached_keys
    go_mcp_oauth_sdk.Parallel.fetch_keys_program go_mcp_oauth_sdk.Parallel.lookup_meta
    go_mcp_oauth_sdk.Parallel.get_meta go_mcp_oauth_sdk.Parallel.store_meta_now
    go_mcp_oauth_sdk.Parallel.use_cached_meta go_mcp_oauth_sdk.Parallel.fetch_meta_program
    go_mcp_oauth_sdk.Parallel.resolve_with go_mcp_oauth_sdk.Parallel.refetch_program
    go_mcp_oauth_sdk.Parallel.candidates_program go_mcp_oauth_sdk.Parallel.parse_and_fetch_program
    go_mcp_oauth_sdk.Parallel.external_program go_mcp_oauth_sdk.Parallel.claims_program
    go_mcp_oauth_sdk.Parallel.logged_after go_mcp_oauth_sdk.Parallel.jwt_program
    go_mcp_oauth_sdk.Parallel.token_program_with go_mcp_oauth_sdk.Parallel.token_program
    go_mcp_oauth_sdk.Parallel.strict_parsed_program go_mcp_oauth_sdk.Parallel.strict_program
    go_mcp_oauth_sdk.Jwks.record_attempt go_mcp_oauth_sdk.Jwks.store_keys
    go_mcp_oauth_sdk.Jwks.with_outcome go_mcp_oauth_sdk.Jwks.store_meta
    go_mcp_oauth_sdk.Jwks.decode_discovery go_mcp_oauth_sdk.Jwks.discovered_uri
    go_mcp_oauth_sdk.Jwks.jittered_expiry go_mcp_oauth_sdk.Jwks.jwks_cache_ttl
    go_mcp_oauth_sdk.Jwks.add_time go_mcp_oauth_sdk.Verifier.next_call
    go_mcp_oauth_sdk.Validator.legacy_failure_entry
runs = (refl, refl, refl)

rounds-Fits : (n : ℕ) → All Fits (rounds n)
rounds-Fits zero = tt
rounds-Fits (suc n) = (tt, (tt, (tt, rounds-Fits n)))

turns-Fits : All Fits turns
turns-Fits = (record { above = omega arith; below = omega arith }, (tt, (tt, rounds-Fits 28)))

admitted-Certified_example :
    (n : ℕ) × (n ≤ (take_turns env (gather discovering) turns).shared.calls)
    × Certified env discovering token policy 0 n claims
admitted-Certified_example =
    admitted-Certified env discovering env-IsRandom (omega arith) clock-IsModest turns 0 0 token
      policy claims turns-Fits runs.0

validated-Confirmed_example :
    (n : ℕ) × (n ≤ (take_turns env (gather discovering) turns).shared.calls)
    × Confirmed env discovering token 0 n claims
validated-Confirmed_example =
    validated-Confirmed env discovering env-IsRandom (omega arith) clock-IsModest turns 1 0 token
      claims clock-HasRoom (omega arith, omega arith) turns-Fits runs.1

metadata-Known_example :
    (n : ℕ) × (n ≤ (take_turns env (gather discovering) turns).shared.calls)
    × Known env discovering 0 (issuer_key "https://issuer/") n issuer_meta
metadata-Known_example =
    metadata-Known env discovering env-IsRandom (omega arith) clock-IsModest turns 2 0
      "https://issuer/" issuer_meta turns-Fits runs.2

-- Goroutine 0 has taken one step when the others begin.
abbrev first_turns : List Turn
first_turns = call 0 (validate token) ∷ step 0 ∷ call 1 (validate_strict token policy) ∷ step 1 ∷ []

rounds-CallsNone : (n : ℕ) → All (CallsNone 0) (rounds n)
rounds-CallsNone zero = tt
rounds-CallsNone (suc n) = (tt, (tt, (tt, rounds-CallsNone n)))

-- What is left of the call of goroutine 0.
abbrev rest : Program String Answer
rest = elim ((take_turns env (gather discovering) first_turns).task 0) [
  | waiting ↦ finished (err (plain ""))
  | running b r p ↦ p
  | answered b r result ↦ finished result
]

first_run :
    (take_turns env (gather discovering) first_turns).task 0 ≡ running 0 (validate token) rest
unfolding take_turns go_mcp_oauth_sdk.Goroutines.take_turn go_mcp_oauth_sdk.Goroutines.proceed
    go_mcp_oauth_sdk.Goroutines.program go_mcp_oauth_sdk.Program.◌>>=◌
    go_mcp_oauth_sdk.Program.after go_mcp_oauth_sdk.Parallel.token_program
    go_mcp_oauth_sdk.Program.atomic
first_run = refl

take_turns-answered_example :
    (result : Result Answer) × ((take_turns env
          (take_turns env (gather discovering) first_turns)
          (rounds 28)).task
        0
      ≡ answered 0 (validate token) result)
take_turns-answered_example =
    take_turns-answered env discovering first_turns (rounds 28) 0 0 (validate token) rest first_run
      (rounds-CallsNone 28) (omega arith)

take_turns-respond_example :
    ((take_turns env (gather discovering) (call 1 (validate token) ∷ steps 28 1)).shared
      ≡ (respond env (validate token) (initial discovering)).1)
    × ((take_turns env (gather discovering) (call 1 (validate token) ∷ steps 28 1)).task 1
        ≡ answered 0 (validate token) (respond env (validate token) (initial discovering)).0)
    × ((j : ℕ)
        → 1 ≢ j
        → (take_turns env (gather discovering) (call 1 (validate token) ∷ steps 28 1)).task j
          ≡ (gather {Key = String} discovering).task j)
take_turns-respond_example = take_turns-respond env (gather discovering) 1 (validate token) refl
