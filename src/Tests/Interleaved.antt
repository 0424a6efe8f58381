-- ===== src/Tests/Interleaved.antt =====
-- Goroutines that fetch keys at the same time, in the small world.
use go_mcp_oauth_sdk.Prelude.{
  ℕ, String, ◌≡◌, ◌≢◌, refl, Bool, true, false, List, [], ◌∷◌, ◌++◌, arith, ltb, if◌then◌else◌,
}
use go_mcp_oauth_sdk.Prelude.Int.{pos}
use go_mcp_oauth_sdk.Errors.{ok}
use go_mcp_oauth_sdk.Jwks.{fetch_auth_server_meta}
use go_mcp_oauth_sdk.Env.{Env, response, key_set}
use go_mcp_oauth_sdk.Verifier.{System, initial, new_verifier}
use go_mcp_oauth_sdk.Jwks.{
  fetch_jwk_set, decode_reply, is_cached, invalidate_jwks_cache, record_attempt, store_keys,
  with_outcome, jittered_expiry, jwks_cache_ttl, add_time,
}
use go_mcp_oauth_sdk.Jwks.Cache.{Downloaded}
use go_mcp_oauth_sdk.Api.{
  Request, fetch_metadata, validate, validate_identity, validate_strict, serve_all,
}
use go_mcp_oauth_sdk.Api.Reach.{served-Downloaded}
use go_mcp_oauth_sdk.Concurrent.{
  returned, Event, begin, move, invalidate, advance, perform, perform_all, start,
}
use go_mcp_oauth_sdk.Concurrent.Safety.{returned-Fetched}
use go_mcp_oauth_sdk.Concurrent.Origins.{Fetched}
use go_mcp_oauth_sdk.Tests.World.{env, config, policy, noon, env-IsRandom}

abbrev uri : String
uri = "https://issuer/jwks"

abbrev both : List String
both = "key0" ∷ ("key1" ∷ [])

-- Two calls take turns, and a third goroutine invalidates the cache in between.
abbrev turns : List Event
turns =
    begin 0 uri
    ∷ begin 1 uri
    ∷ move 0
    ∷ move 1
    ∷ move 0
    ∷ move 1
    ∷ move 0
    ∷ move 1
    ∷ move 0
    ∷ invalidate 2
    ∷ move 1
    ∷ move 0
    ∷ move 1
    ∷ move 0
    ∷ move 1
    ∷ []

turns_run : (perform_all env (start config) turns).phase 1 ≡ returned uri noon (ok both)
unfolding perform_all perform advance new_verifier is_cached record_attempt decode_reply store_keys
    with_outcome
turns_run = refl

returned-Fetched_example :
    Fetched env config uri both noon (perform_all env (start config) turns).shared.calls
returned-Fetched_example =
    returned-Fetched env config env-IsRandom (omega arith) turns 1 uri noon both turns_run

-- The keys change at the source: the third call of the outside world and later ones see new keys.
abbrev rotating : Env String String
rotating = record env {
  get_jwks = λ call uri. response 200 (key_set (if ltb call 2 then "old" ∷ [] else "new" ∷ []));
}

-- Goroutine 0 has its answer before the keys change, goroutine 1 invalidates the cache, and 0
-- stores: then the next fetch of 1 does not download, but returns the old keys.
abbrev overtaken : List Event
overtaken =
    begin 0 uri
    ∷ move 0
    ∷ move 0
    ∷ move 0
    ∷ move 0
    ∷ invalidate 1
    ∷ move 0
    ∷ begin 1 uri
    ∷ move 1
    ∷ move 1
    ∷ []

overtaken_run :
    (perform_all rotating (start config) overtaken).phase 1 ≡ returned uri noon (ok ("old" ∷ []))
unfolding perform_all perform advance new_verifier is_cached record_attempt decode_reply store_keys
    with_outcome invalidate_jwks_cache jittered_expiry jwks_cache_ttl add_time
    go_mcp_oauth_sdk.Prelude.Int.◌+ℤ◌ go_mcp_oauth_sdk.Prelude.Int.wrap64
overtaken_run = refl

-- Calls of the exported methods, one after another.
abbrev calls : List Request
calls =
    fetch_metadata "https://issuer/"
    ∷ validate "opaque"
    ∷ validate "a.b.c"
    ∷ validate_identity "a.b.c" "api"
    ∷ validate_strict "a.b.c" policy
    ∷ []

served_run : (fetch_jwk_set env uri (serve_all env (initial config) calls)).0 ≡ ok both
unfolding go_mcp_oauth_sdk.Claims.audience_claim go_mcp_oauth_sdk.Claims.audience_of
    go_mcp_oauth_sdk.Claims.claims_from_raw_claims go_mcp_oauth_sdk.Claims.scopes_claim
    go_mcp_oauth_sdk.Claims.scopes_of go_mcp_oauth_sdk.Claims.string_claim
    go_mcp_oauth_sdk.Claims.time_claim go_mcp_oauth_sdk.Claims.time_of
    go_mcp_oauth_sdk.Claims.verified_claim go_mcp_oauth_sdk.Claims.without_keys
    go_mcp_oauth_sdk.Json.get go_mcp_oauth_sdk.Json.get_string go_mcp_oauth_sdk.Json.strings
    go_mcp_oauth_sdk.Jwks.cached_or_discover go_mcp_oauth_sdk.Jwks.decode_discovery
    go_mcp_oauth_sdk.Jwks.decode_reply go_mcp_oauth_sdk.Jwks.discover
    go_mcp_oauth_sdk.Jwks.fetch_auth_server_meta go_mcp_oauth_sdk.Jwks.fetch_jwk_set
    go_mcp_oauth_sdk.Jwks.is_cached go_mcp_oauth_sdk.Jwks.refetch
    go_mcp_oauth_sdk.Jwks.resolve_jwks_url go_mcp_oauth_sdk.Jwks.store_meta
    go_mcp_oauth_sdk.Jwks.time_now go_mcp_oauth_sdk.Jwt.audience_matches_resource
    go_mcp_oauth_sdk.Jwt.candidate_keys go_mcp_oauth_sdk.Jwt.check_claims
    go_mcp_oauth_sdk.Jwt.comparable go_mcp_oauth_sdk.Jwt.judge go_mcp_oauth_sdk.Jwt.looks_like_jwt
    go_mcp_oauth_sdk.Jwt.parse_and_fetch_keys go_mcp_oauth_sdk.Jwt.parse_and_verify_external_jwt
    go_mcp_oauth_sdk.Jwt.parse_token go_mcp_oauth_sdk.Jwt.verify_with_keys
    go_mcp_oauth_sdk.Policy.has_required_scopes go_mcp_oauth_sdk.Prelude.Int.wrap64
    go_mcp_oauth_sdk.Prelude.Int.◌+ℤ◌ go_mcp_oauth_sdk.Prelude.Int.◌-ℤ◌
    go_mcp_oauth_sdk.Strict.check_audience go_mcp_oauth_sdk.Strict.check_expiry
    go_mcp_oauth_sdk.Strict.check_issued_at go_mcp_oauth_sdk.Strict.check_issuer
    go_mcp_oauth_sdk.Strict.check_not_before go_mcp_oauth_sdk.Strict.has_non_empty_expected_audience
    go_mcp_oauth_sdk.Strict.is_blank go_mcp_oauth_sdk.Strict.issuer_matches
    go_mcp_oauth_sdk.Strict.non_blank go_mcp_oauth_sdk.Strict.numeric_of
    go_mcp_oauth_sdk.Strict.strict_audience_claim go_mcp_oauth_sdk.Strict.strict_audience_intersects
    go_mcp_oauth_sdk.Strict.strict_audience_of go_mcp_oauth_sdk.Strict.strict_claims
    go_mcp_oauth_sdk.Strict.strict_numeric_claim go_mcp_oauth_sdk.Strict.strict_with_keys
    go_mcp_oauth_sdk.Strict.string_elements go_mcp_oauth_sdk.Strict.unix
    go_mcp_oauth_sdk.Strict.validate_strict_jwt go_mcp_oauth_sdk.Strict.validate_strict_parsed
    go_mcp_oauth_sdk.Strict.validate_strict_raw_claims go_mcp_oauth_sdk.Strict.whole_seconds
    go_mcp_oauth_sdk.Text.count_char go_mcp_oauth_sdk.Text.fields go_mcp_oauth_sdk.Text.is_slash
    go_mcp_oauth_sdk.Text.is_space go_mcp_oauth_sdk.Text.parse_int go_mcp_oauth_sdk.Text.trim_left
    go_mcp_oauth_sdk.Text.trim_right go_mcp_oauth_sdk.Text.trim_slashes
    go_mcp_oauth_sdk.Text.trim_space go_mcp_oauth_sdk.Validator.audience_rejection
    go_mcp_oauth_sdk.Validator.enforce go_mcp_oauth_sdk.Validator.scope_rejection
    go_mcp_oauth_sdk.Validator.time_rejection go_mcp_oauth_sdk.Validator.validate_claims
    go_mcp_oauth_sdk.Validator.validate_jwt go_mcp_oauth_sdk.Validator.validate_token
    go_mcp_oauth_sdk.Validator.validate_upstream_identity_token
    go_mcp_oauth_sdk.Verifier.get_verifier go_mcp_oauth_sdk.Verifier.log
    go_mcp_oauth_sdk.Verifier.new_verifier go_mcp_oauth_sdk.Verifier.◌>>=◌ jittered_expiry
    jwks_cache_ttl add_time
served_run = refl

served-Downloaded_example :
    Downloaded env config uri both
      (env.clock (serve_all env (initial config) calls).calls)
      (fetch_jwk_set env uri (serve_all env (initial config) calls)).1.calls
served-Downloaded_example =
    served-Downloaded env config env-IsRandom (omega arith) calls uri both served_run
