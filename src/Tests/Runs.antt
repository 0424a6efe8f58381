-- ===== src/Tests/Runs.antt =====
-- Runs of the cache and of the validators in the small world.
use go_mcp_oauth_sdk.Prelude.{
  ℕ, ◌+◌, ◌≤◌, String, ◌≡◌, ◌↔◌, refl, ap, Bool, true, false, Option, none, some, List, [], ◌∷◌,
  arith, if◌then◌else◌, Any,
}
use go_mcp_oauth_sdk.Prelude.Int.{ℤ, pos, IsInt64}
use go_mcp_oauth_sdk.Errors
use go_mcp_oauth_sdk.Errors.{
  Failure, Result, ok, err, plain, is, transient, invalid_token, sentinel,
}
use go_mcp_oauth_sdk.Env.{Env, Reply, response, malformed, unreachable}
use go_mcp_oauth_sdk.Claims.{Claims}
use go_mcp_oauth_sdk.Verifier.{System, Verifier, initial, jwks_health}
use go_mcp_oauth_sdk.Jwks.{decode_reply, fetch_jwk_set, is_cached, time_now}
use go_mcp_oauth_sdk.Jwks.Cache.{IsCoherent, IsCoherent-initial, TtlFits}
use go_mcp_oauth_sdk.Jwks.Health.{
  SameCache, MayPass, fetch_jwk_set-failure, decode_reply-transient_iff,
}
use go_mcp_oauth_sdk.Jwt.{parse_and_fetch_keys, refetch_for, verify_with_keys}
use go_mcp_oauth_sdk.Jwt.External.{Accepts, verify_with_keys_iff}
use go_mcp_oauth_sdk.Jwt.Rotation.{selection, refetch_for_lem}
use go_mcp_oauth_sdk.Jwt.Supply.{Supplied, parse_and_fetch_keys-Supplied}
use go_mcp_oauth_sdk.Strict.{validate_strict_jwt}
use go_mcp_oauth_sdk.Strict.Run.{Admitted, validate_strict_jwt-Admitted}
use go_mcp_oauth_sdk.Validator.{validate_token, validate_upstream_identity_token}
use go_mcp_oauth_sdk.Validator.Soft.{Unchecked, validate_token-soft_iff}
use go_mcp_oauth_sdk.Validator.Run.{Attested, validate_upstream_identity_token-Attested}
use go_mcp_oauth_sdk.Validator.Vouched.{Vouched, validate_token-Vouched}
use Prim.Native.String
use go_mcp_oauth_sdk.Errors.{text, is_kid_not_found, header_parse, wrap}
use go_mcp_oauth_sdk.Verifier.{error_field}
use go_mcp_oauth_sdk.Jwt.{parse_token, unwrap_header_error, jwt_parse_failed_prefix}
use go_mcp_oauth_sdk.Validator.{legacy_failure_entry}
use go_mcp_oauth_sdk.Tests.World.{
  claims, env, config, policy, env-IsRandom, clock-IsModest, clock-HasRoom,
}

abbrev start : System String
start = initial config

abbrev uri : String
uri = "https://issuer/jwks"

abbrev token : String
token = "header.payload.signature"

abbrev both : List String
both = "key0" ∷ ("key1" ∷ [])

start-IsCoherent : IsCoherent env config start
start-IsCoherent = IsCoherent-initial env config

fits : TtlFits config
fits = omega arith

-- After 30 s of leeway the token would be accepted until 1764403290.
strict_run :
    validate_strict_jwt env token policy start
    ≡ (ok claims, (validate_strict_jwt env token policy start).1)
unfolding go_mcp_oauth_sdk.Strict.validate_strict_jwt
    go_mcp_oauth_sdk.Strict.has_non_empty_expected_audience go_mcp_oauth_sdk.Strict.is_blank
    go_mcp_oauth_sdk.Strict.validate_strict_parsed go_mcp_oauth_sdk.Jwks.time_now
    go_mcp_oauth_sdk.Strict.strict_with_keys go_mcp_oauth_sdk.Strict.strict_claims
    go_mcp_oauth_sdk.Strict.validate_strict_raw_claims go_mcp_oauth_sdk.Strict.check_issuer
    go_mcp_oauth_sdk.Strict.issuer_matches go_mcp_oauth_sdk.Strict.check_audience
    go_mcp_oauth_sdk.Strict.strict_audience_claim go_mcp_oauth_sdk.Strict.strict_audience_of
    go_mcp_oauth_sdk.Strict.string_elements go_mcp_oauth_sdk.Strict.strict_audience_intersects
    go_mcp_oauth_sdk.Strict.non_blank go_mcp_oauth_sdk.Strict.check_expiry
    go_mcp_oauth_sdk.Strict.strict_numeric_claim go_mcp_oauth_sdk.Strict.numeric_of
    go_mcp_oauth_sdk.Strict.whole_seconds go_mcp_oauth_sdk.Strict.unix
    go_mcp_oauth_sdk.Strict.check_not_before go_mcp_oauth_sdk.Strict.check_issued_at
    go_mcp_oauth_sdk.Policy.has_required_scopes go_mcp_oauth_sdk.Prelude.Int.wrap64
    go_mcp_oauth_sdk.Prelude.Int.◌+ℤ◌ go_mcp_oauth_sdk.Prelude.Int.◌-ℤ◌
    go_mcp_oauth_sdk.Jwt.looks_like_jwt go_mcp_oauth_sdk.Text.count_char
    go_mcp_oauth_sdk.Claims.claims_from_raw_claims go_mcp_oauth_sdk.Claims.string_claim
    go_mcp_oauth_sdk.Claims.time_claim go_mcp_oauth_sdk.Claims.time_of
    go_mcp_oauth_sdk.Claims.verified_claim go_mcp_oauth_sdk.Claims.audience_claim
    go_mcp_oauth_sdk.Claims.audience_of go_mcp_oauth_sdk.Claims.scopes_claim
    go_mcp_oauth_sdk.Claims.scopes_of go_mcp_oauth_sdk.Claims.without_keys go_mcp_oauth_sdk.Json.get
    go_mcp_oauth_sdk.Json.get_string go_mcp_oauth_sdk.Json.strings go_mcp_oauth_sdk.Text.parse_int
    go_mcp_oauth_sdk.Text.fields go_mcp_oauth_sdk.Verifier.◌>>=◌
    go_mcp_oauth_sdk.Jwks.resolve_jwks_url go_mcp_oauth_sdk.Text.trim_space
    go_mcp_oauth_sdk.Text.trim_left go_mcp_oauth_sdk.Text.trim_right go_mcp_oauth_sdk.Text.is_space
    go_mcp_oauth_sdk.Jwt.parse_and_fetch_keys go_mcp_oauth_sdk.Jwt.parse_token
    go_mcp_oauth_sdk.Jwt.candidate_keys go_mcp_oauth_sdk.Verifier.new_verifier
    go_mcp_oauth_sdk.Jwks.fetch_jwk_set go_mcp_oauth_sdk.Jwks.is_cached
    go_mcp_oauth_sdk.Jwks.refetch go_mcp_oauth_sdk.Jwks.decode_reply
strict_run = refl

legacy_run : validate_token env token start ≡ (ok (some claims), (validate_token env token start).1)
unfolding go_mcp_oauth_sdk.Validator.validate_token go_mcp_oauth_sdk.Validator.validate_jwt
    go_mcp_oauth_sdk.Validator.validate_claims go_mcp_oauth_sdk.Validator.enforce
    go_mcp_oauth_sdk.Validator.audience_rejection go_mcp_oauth_sdk.Validator.time_rejection
    go_mcp_oauth_sdk.Validator.scope_rejection go_mcp_oauth_sdk.Policy.has_required_scopes
    go_mcp_oauth_sdk.Jwks.time_now go_mcp_oauth_sdk.Strict.unix go_mcp_oauth_sdk.Prelude.Int.wrap64
    go_mcp_oauth_sdk.Prelude.Int.◌+ℤ◌ go_mcp_oauth_sdk.Jwt.looks_like_jwt
    go_mcp_oauth_sdk.Text.count_char go_mcp_oauth_sdk.Validator.validate_upstream_identity_token
    go_mcp_oauth_sdk.Jwt.parse_and_verify_external_jwt go_mcp_oauth_sdk.Verifier.get_verifier
    go_mcp_oauth_sdk.Jwt.verify_with_keys go_mcp_oauth_sdk.Jwt.judge
    go_mcp_oauth_sdk.Jwt.check_claims go_mcp_oauth_sdk.Jwt.comparable
    go_mcp_oauth_sdk.Jwt.audience_matches_resource go_mcp_oauth_sdk.Text.trim_slashes
    go_mcp_oauth_sdk.Text.is_slash go_mcp_oauth_sdk.Claims.claims_from_raw_claims
    go_mcp_oauth_sdk.Claims.string_claim go_mcp_oauth_sdk.Claims.time_claim
    go_mcp_oauth_sdk.Claims.time_of go_mcp_oauth_sdk.Claims.verified_claim
    go_mcp_oauth_sdk.Claims.audience_claim go_mcp_oauth_sdk.Claims.audience_of
    go_mcp_oauth_sdk.Claims.scopes_claim go_mcp_oauth_sdk.Claims.scopes_of
    go_mcp_oauth_sdk.Claims.without_keys go_mcp_oauth_sdk.Json.get go_mcp_oauth_sdk.Json.get_string
    go_mcp_oauth_sdk.Json.strings go_mcp_oauth_sdk.Text.parse_int go_mcp_oauth_sdk.Text.fields
    go_mcp_oauth_sdk.Verifier.◌>>=◌ go_mcp_oauth_sdk.Jwks.resolve_jwks_url
    go_mcp_oauth_sdk.Text.trim_space go_mcp_oauth_sdk.Text.trim_left
    go_mcp_oauth_sdk.Text.trim_right go_mcp_oauth_sdk.Text.is_space
    go_mcp_oauth_sdk.Jwt.parse_and_fetch_keys go_mcp_oauth_sdk.Jwt.parse_token
    go_mcp_oauth_sdk.Jwt.candidate_keys go_mcp_oauth_sdk.Verifier.new_verifier
    go_mcp_oauth_sdk.Jwks.fetch_jwk_set go_mcp_oauth_sdk.Jwks.is_cached
    go_mcp_oauth_sdk.Jwks.refetch go_mcp_oauth_sdk.Jwks.decode_reply
legacy_run = refl

upstream_run :
    validate_upstream_identity_token env token "api" start
    ≡ (ok claims, (validate_upstream_identity_token env token "api" start).1)
unfolding go_mcp_oauth_sdk.Validator.validate_upstream_identity_token
    go_mcp_oauth_sdk.Jwt.parse_and_verify_external_jwt go_mcp_oauth_sdk.Verifier.get_verifier
    go_mcp_oauth_sdk.Jwt.verify_with_keys go_mcp_oauth_sdk.Jwt.judge
    go_mcp_oauth_sdk.Jwt.check_claims go_mcp_oauth_sdk.Jwt.comparable
    go_mcp_oauth_sdk.Jwt.audience_matches_resource go_mcp_oauth_sdk.Text.trim_slashes
    go_mcp_oauth_sdk.Text.is_slash go_mcp_oauth_sdk.Claims.claims_from_raw_claims
    go_mcp_oauth_sdk.Claims.string_claim go_mcp_oauth_sdk.Claims.time_claim
    go_mcp_oauth_sdk.Claims.time_of go_mcp_oauth_sdk.Claims.verified_claim
    go_mcp_oauth_sdk.Claims.audience_claim go_mcp_oauth_sdk.Claims.audience_of
    go_mcp_oauth_sdk.Claims.scopes_claim go_mcp_oauth_sdk.Claims.scopes_of
    go_mcp_oauth_sdk.Claims.without_keys go_mcp_oauth_sdk.Json.get go_mcp_oauth_sdk.Json.get_string
    go_mcp_oauth_sdk.Json.strings go_mcp_oauth_sdk.Text.parse_int go_mcp_oauth_sdk.Text.fields
    go_mcp_oauth_sdk.Verifier.◌>>=◌ go_mcp_oauth_sdk.Jwks.resolve_jwks_url
    go_mcp_oauth_sdk.Text.trim_space go_mcp_oauth_sdk.Text.trim_left
    go_mcp_oauth_sdk.Text.trim_right go_mcp_oauth_sdk.Text.is_space
    go_mcp_oauth_sdk.Jwt.parse_and_fetch_keys go_mcp_oauth_sdk.Jwt.parse_token
    go_mcp_oauth_sdk.Jwt.candidate_keys go_mcp_oauth_sdk.Verifier.new_verifier
    go_mcp_oauth_sdk.Jwks.fetch_jwk_set go_mcp_oauth_sdk.Jwks.is_cached
    go_mcp_oauth_sdk.Jwks.refetch go_mcp_oauth_sdk.Jwks.decode_reply
upstream_run = refl

keys_run :
    parse_and_fetch_keys env token start
    ≡ (ok (token, both), (parse_and_fetch_keys env token start).1)
unfolding go_mcp_oauth_sdk.Verifier.◌>>=◌ go_mcp_oauth_sdk.Jwks.resolve_jwks_url
    go_mcp_oauth_sdk.Text.trim_space go_mcp_oauth_sdk.Text.trim_left
    go_mcp_oauth_sdk.Text.trim_right go_mcp_oauth_sdk.Text.is_space
    go_mcp_oauth_sdk.Jwt.parse_and_fetch_keys go_mcp_oauth_sdk.Jwt.parse_token
    go_mcp_oauth_sdk.Jwt.candidate_keys go_mcp_oauth_sdk.Verifier.new_verifier
    go_mcp_oauth_sdk.Jwks.fetch_jwk_set go_mcp_oauth_sdk.Jwks.is_cached
    go_mcp_oauth_sdk.Jwks.refetch go_mcp_oauth_sdk.Jwks.decode_reply
keys_run = refl

fetch_run : (fetch_jwk_set env uri start).0 ≡ ok both
unfolding go_mcp_oauth_sdk.Verifier.new_verifier go_mcp_oauth_sdk.Jwks.fetch_jwk_set
    go_mcp_oauth_sdk.Jwks.is_cached go_mcp_oauth_sdk.Jwks.refetch go_mcp_oauth_sdk.Jwks.decode_reply
fetch_run = refl

-- The same world with a server that answers 503.
abbrev down : Env String String
down = record env { get_jwks = λ call uri. response 503 (malformed "") }

abbrev outage : Failure
outage = elim (fetch_jwk_set down uri start).0 [ ok a ↦ plain "" | err e ↦ e ]

outage_run : (fetch_jwk_set down uri start).0 ≡ err outage
unfolding go_mcp_oauth_sdk.Verifier.new_verifier go_mcp_oauth_sdk.Jwks.fetch_jwk_set
    go_mcp_oauth_sdk.Jwks.is_cached go_mcp_oauth_sdk.Jwks.refetch go_mcp_oauth_sdk.Jwks.decode_reply
outage_run = refl

leeway-IsInt64 : IsInt64 policy.leeway
leeway-IsInt64 = record { above = omega arith; below = omega arith }

validate_strict_jwt-Admitted_example :
    Admitted env config start (validate_strict_jwt env token policy start).1 token policy claims
validate_strict_jwt-Admitted_example =
    validate_strict_jwt-Admitted env config env-IsRandom fits token policy claims start
      (validate_strict_jwt env token policy start).1 clock-IsModest leeway-IsInt64 start-IsCoherent
      strict_run

validate_token-Vouched_example :
    Vouched env config start (validate_token env token start).1 token claims
validate_token-Vouched_example =
    validate_token-Vouched env config env-IsRandom fits clock-HasRoom token claims start
      (validate_token env token start).1 (omega arith, omega arith) start-IsCoherent legacy_run

validate_token-soft_iff_example :
    ((validate_token env "opaque" start).0 ≡ ok none) ↔ Unchecked config "opaque"
unfolding go_mcp_oauth_sdk.Verifier.new_verifier
validate_token-soft_iff_example = validate_token-soft_iff env "opaque" start

validate_upstream_identity_token-Attested_example :
    Attested env config start
      (validate_upstream_identity_token env token "api" start).1.calls
      token
      "api"
      claims
validate_upstream_identity_token-Attested_example =
    validate_upstream_identity_token-Attested env config env-IsRandom fits token "api" claims start
      (validate_upstream_identity_token env token "api" start).1 start-IsCoherent upstream_run

fetch_jwk_set-failure_example :
    SameCache (fetch_jwk_set down uri start).1.verifier start.verifier
    × (jwks_health (fetch_jwk_set down uri start).1.verifier
        ≡ (down.clock start.calls, start.verifier.jwks_last_fetch_success, some outage))
fetch_jwk_set-failure_example = fetch_jwk_set-failure down uri start outage outage_run

abbrev no_answer : Reply String
no_answer = unreachable "timeout"

abbrev no_answer_error : Failure
no_answer_error =
    Errors.wrap_two "failed to fetch jwks: " (sentinel transient) ": " (plain "timeout")

no_answer_run : decode_reply no_answer ≡ err no_answer_error
unfolding decode_reply
no_answer_run = refl

decode_reply-transient_iff_example : (is transient no_answer_error ≡ true) ↔ MayPass no_answer
decode_reply-transient_iff_example =
    decode_reply-transient_iff no_answer no_answer_error no_answer_run

verify_with_keys_iff_example :
    (((c : Claims) × (verify_with_keys env config "api" token false false false both ≡ ok c))
      ↔ Any (λ key. (c : Claims) × Accepts env config "api" token c key) both)
    × ((c : Claims)
        → verify_with_keys env config "api" token false false false both ≡ ok c
        → Any (Accepts env config "api" token c) both)
verify_with_keys_iff_example = verify_with_keys_iff env config "api" token both

refetch_for_lem_example :
    (refetch_for env uri token "k2" start).0
    ≡ (Errors.◌>>=◌ (decode_reply (env.get_jwks (start.calls + 1) uri)) (selection env token "k2"))
refetch_for_lem_example = refetch_for_lem env token uri "k2" start

parse_and_fetch_keys-Supplied_example :
    Supplied env config start (parse_and_fetch_keys env token start).1.calls token token both
parse_and_fetch_keys-Supplied_example =
    parse_and_fetch_keys-Supplied env config env-IsRandom fits token token both start
      (parse_and_fetch_keys env token start).1 start-IsCoherent keys_run

-- The small world with a parser that refuses every token.
abbrev picky : Env String String
picky = record env {
  jose = record env.jose { parse_signed = λ token algorithms. err (plain "unexpected alg") };
}

abbrev refusal : Failure
refusal = header_parse (wrap (String.◌++◌ jwt_parse_failed_prefix " ") (plain "unexpected alg") "")

refusal_run : parse_token picky token ≡ err refusal
unfolding parse_token
refusal_run = refl
