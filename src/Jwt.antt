-- ===== src/Jwt.antt =====
-- oauth/jwt.go: parsing a token, finding the keys for it, and verifying it for the callers that
-- compare issuer and audience without trailing slashes.
pub mod Kept
pub mod Counts
pub mod Audience
pub mod Rotation
pub mod Supply
pub mod External
use Prim.Native.String
use go_mcp_oauth_sdk.Prelude.{
  ℕ, String, Bool, true, false, not, ◌&&◌, ◌||◌, Option, none, some, List, [], ◌∷◌, ◌==◌, eqb,
  if◌then◌else◌, is_empty, length,
}
use go_mcp_oauth_sdk.Text.{trim_space, trim_slashes, count_char}
use go_mcp_oauth_sdk.Errors.{
  Failure, sentinel, plain, wrap, header_parse, kid_not_found, as_header_parse, invalid_token,
  Result, ok, err,
}
use go_mcp_oauth_sdk.Json.{Object}
use go_mcp_oauth_sdk.Claims.{Claims, claims_from_raw_claims}
use go_mcp_oauth_sdk.Config.{OauthConfig}
use go_mcp_oauth_sdk.Env.{
  Algorithm, rs256, rs384, rs512, es256, es384, es512, ps256, ps384, ps512, ed_dsa, Env,
}
use go_mcp_oauth_sdk.Verifier.{
  System, Action, info, count_field, log, pure, lift, fail, ◌>>=◌, ◌>>◌, get_verifier,
}
use go_mcp_oauth_sdk.Jwks.{fetch_jwk_set, invalidate_jwks_cache, resolve_jwks_url}

unfoldable pub looks_like_jwt : String → Bool
looks_like_jwt token = eqb (count_char b'.' token) 2

-- a URL as the legacy path compares it: trimmed, and without trailing slashes
unfoldable pub comparable : String → String
comparable s = trim_slashes (trim_space s)

unfoldable pub audience_matches_resource : List String → String → Bool
audience_matches_resource [] expected = false
audience_matches_resource (c ∷ claims) expected =
    if c == expected
    then true
    else if comparable c == comparable expected
    then true
    else audience_matches_resource claims expected

abbrev pub signature_algorithms : List Algorithm
signature_algorithms =
    rs256 ∷ rs384 ∷ rs512 ∷ es256 ∷ es384 ∷ es512 ∷ ps256 ∷ ps384 ∷ ps512 ∷ ed_dsa ∷ []

abbrev pub jwt_parse_failed_prefix : String
jwt_parse_failed_prefix = "failed to parse signed JWT:"

abbrev pub jwt_missing_header_text : String
jwt_missing_header_text = "missing JWT header"

-- What one candidate key makes of the token.
pub data Verdict : Type 0 where
  unverified wrong_issuer wrong_audience : Verdict
  accepted : Claims → Verdict

-- the checks on claims whose signature is verified
unfoldable pub check_claims : OauthConfig → String → Claims → Verdict
check_claims cfg expected_audience claims =
    if not (comparable cfg.issuer == "") && not (comparable claims.issuer == comparable cfg.issuer)
    then wrong_issuer
    else if not (expected_audience == "")
        && not (audience_matches_resource claims.audience expected_audience)
    then wrong_audience
    else accepted claims

module _ {Key Token : Type 0} (env : Env Key Token) where
  -- `jwt.ParseSigned` and the test of the headers: the token with the key id of its first header
  unfoldable pub parse_token : String → Result (Token × String)
  parse_token token = elim (env.jose.parse_signed token signature_algorithms) [
    | err e ↦ err (header_parse (wrap (String.◌++◌ jwt_parse_failed_prefix " ") e ""))
    | ok parsed ↦ elim (env.jose.header_key_ids parsed) [
      | [] ↦ err (header_parse (plain jwt_missing_header_text))
      | key_id ∷ _ ↦ ok (parsed, key_id)
    ]
  ]

  -- the keys after the second fetch
  unfoldable pub found_after_refetch : Token → List Key → Action Key (Token × List Key)
  found_after_refetch parsed keys = if is_empty keys then fail kid_not_found else do
    log info (count_field "matched_keys" (length keys) ∷ [])
        "oauth: JWKS re-fetched after key rotation; new kid found"
    pure (parsed, keys)

  unfoldable pub refetch_for : String → Token → String → Action Key (Token × List Key)
  refetch_for uri parsed key_id = do
    invalidate_jwks_cache
    key_set ← fetch_jwk_set env uri
    found_after_refetch parsed (env.jose.find_keys key_set key_id)

  unfoldable pub candidate_keys : String → Token → String → List Key → Action Key (Token × List Key)
  candidate_keys uri parsed key_id key_set =
      let found = env.jose.find_keys key_set key_id in
      if key_id == ""
      then pure (parsed, key_set)
      else if is_empty found
      then refetch_for uri parsed key_id
      else pure (parsed, found)

  unfoldable pub parse_and_fetch_keys : String → Action Key (Token × List Key)
  parse_and_fetch_keys token = do
    uri ← resolve_jwks_url env
    (parsed, key_id) ← lift (parse_token token)
    key_set ← fetch_jwk_set env uri
    candidate_keys uri parsed key_id key_set

  unfoldable pub judge : OauthConfig → String → Token → Key → Verdict
  unfolding check_claims
  judge cfg expected_audience parsed key = elim (env.jose.verified_claims parsed key) [
    | none ↦ unverified
    | some raw ↦ check_claims cfg expected_audience (claims_from_raw_claims env.platform raw)
  ]

  -- The loop over the keys, with the source's three flags.
  unfoldable pub verify_with_keys :
      OauthConfig → String → Token → Bool → Bool → Bool → List Key → Result Claims
  verify_with_keys cfg expected_audience parsed signature_verified issuer_rejected audience_rejected
        [] =
      if signature_verified && (issuer_rejected || audience_rejected)
      then err (sentinel invalid_token)
      else err (plain "failed to verify JWT signature with discovered JWKs")
  verify_with_keys cfg expected_audience parsed signature_verified issuer_rejected audience_rejected
        (key ∷ keys) =
      elim (judge cfg expected_audience parsed key) [
        | unverified ↦
            verify_with_keys cfg expected_audience parsed signature_verified issuer_rejected
              audience_rejected keys
        | wrong_issuer ↦
            verify_with_keys cfg expected_audience parsed true true audience_rejected keys
        | wrong_audience ↦
            verify_with_keys cfg expected_audience parsed true issuer_rejected true keys
        | accepted claims ↦ ok claims
      ]

  -- the error with the wrapper of `parseAndFetchKeys` taken off
  unfoldable pub unwrap_header_error : Failure → Failure
  unwrap_header_error e = elim (as_header_parse e) [ none ↦ e | some inner ↦ inner ]

  abbrev pub unwrapped : {A : Type 0} → Result A × System Key → Result A × System Key
  unwrapped (ok a, s) = (ok a, s)
  unwrapped (err e, s) = (err (unwrap_header_error e), s)

  unfoldable pub parse_and_verify_external_jwt : String → String → Action Key Claims
  parse_and_verify_external_jwt token expected_audience = do
    (parsed, keys) ← λ s. unwrapped (parse_and_fetch_keys token s)
    v ← get_verifier
    lift (verify_with_keys v.cfg expected_audience parsed false false false keys)
