-- ===== src/Tests/Refusals.antt =====
-- Two strict validations at the same time, in a world whose key set never has the token's key id.
use go_mcp_oauth_sdk.Prelude.{◌≡◌, refl, none, false, [], ◌∷◌, List, String, ℕ, zero, suc}
use go_mcp_oauth_sdk.Errors.{
  Failure, sentinel, wrap, transient, as_header_parse, is_kid_not_found, err,
}
use go_mcp_oauth_sdk.Env.{Env}
use go_mcp_oauth_sdk.Api.{validate_strict}
use go_mcp_oauth_sdk.Goroutines.{answered, Turn, call, step, take_turns, gather}
use go_mcp_oauth_sdk.Goroutines.Masking.{refused-IsPublic}
use go_mcp_oauth_sdk.Tests.World.{env, config, policy}

abbrev rotated : Env String String
rotated = record env { jose = record env.jose { find_keys = λ keys id. [] } }

abbrev rounds : ℕ → List Turn
rounds zero = []
rounds (suc n) = step 0 ∷ (step 1 ∷ rounds n)

abbrev turns : List Turn
turns =
    call 0 (validate_strict "head.body.sig" policy)
    ∷ call 1 (validate_strict "head.body.sig" policy)
    ∷ rounds 28

abbrev refusal : Failure
refusal = wrap "failed to resolve a JWK for the token's key id: " (sentinel transient) ""

refused_run :
    (take_turns rotated (gather config) turns).task 0
    ≡ answered 0 (validate_strict "head.body.sig" policy) (err refusal)
unfolding go_mcp_oauth_sdk.Strict.has_non_empty_expected_audience go_mcp_oauth_sdk.Strict.is_blank
    go_mcp_oauth_sdk.Strict.strict_error go_mcp_oauth_sdk.Errors.as_header_parse
    go_mcp_oauth_sdk.Errors.is_kid_not_found go_mcp_oauth_sdk.Jwks.time_now
    go_mcp_oauth_sdk.Jwt.looks_like_jwt go_mcp_oauth_sdk.Text.count_char
    go_mcp_oauth_sdk.Text.trim_space go_mcp_oauth_sdk.Text.trim_left
    go_mcp_oauth_sdk.Text.trim_right go_mcp_oauth_sdk.Text.is_space go_mcp_oauth_sdk.Jwt.parse_token
    go_mcp_oauth_sdk.Jwt.found_after_refetch go_mcp_oauth_sdk.Verifier.new_verifier
    go_mcp_oauth_sdk.Verifier.next_call go_mcp_oauth_sdk.Verifier.◌>>=◌
    go_mcp_oauth_sdk.Verifier.log go_mcp_oauth_sdk.Jwks.is_cached go_mcp_oauth_sdk.Jwks.decode_reply
    go_mcp_oauth_sdk.Jwks.record_attempt go_mcp_oauth_sdk.Jwks.store_keys
    go_mcp_oauth_sdk.Jwks.with_outcome go_mcp_oauth_sdk.Jwks.invalidate_jwks_cache
    go_mcp_oauth_sdk.Jwks.jittered_expiry go_mcp_oauth_sdk.Jwks.jwks_cache_ttl
    go_mcp_oauth_sdk.Jwks.add_time go_mcp_oauth_sdk.Goroutines.take_turns
    go_mcp_oauth_sdk.Goroutines.take_turn go_mcp_oauth_sdk.Goroutines.proceed
    go_mcp_oauth_sdk.Goroutines.program go_mcp_oauth_sdk.Program.◌>>=◌
    go_mcp_oauth_sdk.Program.after go_mcp_oauth_sdk.Program.atomic
    go_mcp_oauth_sdk.Parallel.lookup_keys go_mcp_oauth_sdk.Parallel.get_keys
    go_mcp_oauth_sdk.Parallel.with_outcome_after go_mcp_oauth_sdk.Parallel.use_cached_keys
    go_mcp_oauth_sdk.Parallel.fetch_keys_program go_mcp_oauth_sdk.Parallel.resolve_with
    go_mcp_oauth_sdk.Parallel.refetch_program go_mcp_oauth_sdk.Parallel.candidates_program
    go_mcp_oauth_sdk.Parallel.parse_and_fetch_program
    go_mcp_oauth_sdk.Parallel.strict_parsed_program go_mcp_oauth_sdk.Parallel.strict_program
refused_run = refl

refused-IsPublic_example : (as_header_parse refusal ≡ none) × (is_kid_not_found refusal ≡ false)
refused-IsPublic_example =
    refused-IsPublic rotated config turns 0 0 "head.body.sig" policy refusal refused_run
