-- ===== src/Parallel.antt =====
-- The exported methods of `Verifier` in oauth/discovery.go, validator.go and strict_jwt.go, called by
-- any number of goroutines on one verifier, interleaved. Each method is cut where it holds no lock:
-- at a reading of the clock, a locked section, a request to the network, and an entry of the log.
pub mod Runs
pub mod Ends
pub mod Origins
pub mod Fetches
pub mod Discovery
pub mod Provision
pub mod Supply
pub mod Admission
pub mod Approval
pub mod Vetting
pub mod Masking
use go_mcp_oauth_sdk.Prelude.{
  ℕ, ◌+◌, String, Bool, true, false, not, ◌&&◌, Option, none, some, List, [], ◌∷◌, ◌==◌, ltb, eqb,
  if◌then◌else◌, is_empty,
}
use go_mcp_oauth_sdk.Prelude.Int.{pos, ltb_ℤ}
use go_mcp_oauth_sdk.Text.{trim_space, trim_slashes}
use go_mcp_oauth_sdk.Errors.{
  Failure, sentinel, plain, detail, missing_token, invalid_token, Result, ok, err,
}
use go_mcp_oauth_sdk.Config.{OauthConfig}
use go_mcp_oauth_sdk.Claims.{Claims}
use go_mcp_oauth_sdk.Env.{AuthServerMeta, Env}
use go_mcp_oauth_sdk.Verifier.{
  System, Action, initial, debug, error, log, pure, lift, get_verifier, next_call, ◌>>=◌ as bind,
}
use go_mcp_oauth_sdk.Jwks.{
  is_cached, invalidate_jwks_cache, decode_reply, time_now, record_attempt, store_keys,
  with_outcome, store_meta, decode_discovery, discovered_uri,
}
use go_mcp_oauth_sdk.Jwt.{
  looks_like_jwt, parse_token, found_after_refetch, unwrap_header_error, verify_with_keys,
}
use go_mcp_oauth_sdk.Strict.{
  StrictJwtPolicy, has_non_empty_expected_audience, unix, strict_with_keys, strict_error,
}
use go_mcp_oauth_sdk.Validator.{
  audience_rejection, time_rejection, scope_rejection, enforce, logged,
}
use go_mcp_oauth_sdk.Api.{Request, fetch_metadata, validate, validate_identity, validate_strict}
use go_mcp_oauth_sdk.Program.{Program, finished, section, atomic, done, after, ◌>>=◌, ◌>>◌}

-- The result with its error changed.
abbrev pub map_error : {A : Type 0} → (Failure → Failure) → Result A → Result A
map_error f (ok a) = ok a
map_error f (err e) = err (f e)

-- The configuration, which never changes.
abbrev pub read_config : {Key : Type 0} → Action Key OauthConfig
read_config s = (ok s.verifier.cfg, s)

-- The cached keys, under the read lock.
unfoldable pub lookup_keys : {Key : Type 0} → String → ℕ → Action Key (Option (List Key))
lookup_keys uri now s =
    (ok (if is_cached s.verifier uri now then some s.verifier.jwks_cache else none), s)

module _ {Key Token : Type 0} (env : Env Key Token) where
  -- a GET of the key set
  unfoldable pub get_keys : String → Action Key (List Key)
  get_keys uri s = (decode_reply (env.get_jwks s.calls uri), record s { calls = s.calls + 1 })

  -- the deferred function of `fetchJWKSet`, under the lock of the health record
  unfoldable pub with_outcome_after : Program Key (List Key) → Program Key (List Key)
  with_outcome_after p = after p (λ r. atomic (λ s. with_outcome env (r, s)))

  unfoldable pub use_cached_keys : String → ℕ → Option (List Key) → Program Key (List Key)
  use_cached_keys uri now (some keys) = done keys
  use_cached_keys uri now none = do
    atomic (record_attempt env now)
    with_outcome_after
        (do keys ← atomic (get_keys uri); atomic (store_keys env uri now keys); done keys)

  unfoldable pub fetch_keys_program : String → Program Key (List Key)
  fetch_keys_program uri = do
    now ← atomic (time_now env)
    cached ← atomic (lookup_keys uri now)
    use_cached_keys uri now cached

  -- The cached metadata, under the read lock: the clock is read only if the URL is the one asked for.
  unfoldable pub lookup_meta : String → Action Key (Option AuthServerMeta)
  lookup_meta issuer s =
      let v = s.verifier in
      if v.as_meta_cache_url == issuer
      then (
        ok (
            if ltb (env.clock s.calls) v.as_meta_expires_at && not (v.as_meta_cache.issuer == "")
            then some v.as_meta_cache
            else none),
        record s { calls = s.calls + 1 },
      )
      else (ok none, s)

  -- `auth.GetAuthServerMetadata`, with the errors of its results
  unfoldable pub get_meta : String → Action Key AuthServerMeta
  get_meta issuer s = (
    decode_discovery env issuer (env.get_metadata s.calls issuer),
    record s { calls = s.calls + 1 },
  )

  -- the write of the metadata under the write lock, which reads the clock
  unfoldable pub store_meta_now : String → AuthServerMeta → Action Key (Unit {0})
  store_meta_now issuer meta = bind (time_now env) (λ now. store_meta env issuer now meta)

  unfoldable pub use_cached_meta : String → Option AuthServerMeta → Program Key AuthServerMeta
  use_cached_meta issuer (some meta) = done meta
  use_cached_meta issuer none = do
    meta ← atomic (get_meta issuer)
    atomic (store_meta_now issuer meta)
    done meta

  unfoldable pub fetch_meta_program : String → Program Key AuthServerMeta
  fetch_meta_program raw_issuer =
      let issuer = trim_slashes (trim_space raw_issuer) in
      if issuer == ""
      then finished (err (plain "issuer is required"))
      else do cached ← atomic (lookup_meta issuer); use_cached_meta issuer cached

  unfoldable pub resolve_with : OauthConfig → Program Key String
  resolve_with cfg =
      let explicit = trim_space cfg.jwks_url in
      let issuer = trim_space cfg.issuer in
      if not (explicit == "")
      then done explicit
      else if issuer == ""
      then finished (err (plain "oauth issuer or jwks_url must be configured"))
      else do meta ← fetch_meta_program issuer; finished (discovered_uri env meta)

  unfoldable pub refetch_program : String → Token → String → Program Key (Token × List Key)
  refetch_program uri parsed key_id = do
    atomic invalidate_jwks_cache
    key_set ← fetch_keys_program uri
    atomic (found_after_refetch env parsed (env.jose.find_keys key_set key_id))

  unfoldable pub candidates_program :
      String → Token → String → List Key → Program Key (Token × List Key)
  candidates_program uri parsed key_id key_set =
      let found = env.jose.find_keys key_set key_id in
      if key_id == ""
      then done (parsed, key_set)
      else if is_empty found
      then refetch_program uri parsed key_id
      else done (parsed, found)

  unfoldable pub parse_and_fetch_program : String → Program Key (Token × List Key)
  parse_and_fetch_program token = do
    cfg ← atomic read_config
    uri ← resolve_with cfg
    (parsed, key_id) ← finished (parse_token env token)
    key_set ← fetch_keys_program uri
    candidates_program uri parsed key_id key_set

  unfoldable pub external_program : String → String → Program Key Claims
  external_program token expected_audience = do
    (parsed, keys) ←
        after (parse_and_fetch_program token)
          (λ r. finished (map_error (unwrap_header_error env) r))
    cfg ← atomic read_config
    finished (verify_with_keys env cfg expected_audience parsed false false false keys)

  unfoldable pub claims_program : Claims → Program Key Claims
  claims_program claims = do
    cfg ← atomic read_config
    atomic (enforce (audience_rejection cfg claims))
    now ← atomic (time_now env)
    atomic (enforce (time_rejection (unix now) claims))
    atomic (enforce (scope_rejection cfg claims))
    done claims

  -- the entry of `logLegacyValidationFailure`
  unfoldable pub logged_after : Program Key Claims → Program Key Claims
  logged_after p = after p (λ r. atomic (λ s. logged env (r, s)))

  unfoldable pub jwt_program : String → Program Key (Option Claims)
  jwt_program token = do
    cfg ← atomic read_config
    claims ← logged_after (external_program token cfg.audience)
    validated ← claims_program claims
    done (some validated)

  unfoldable pub token_program_with : OauthConfig → String → Program Key (Option Claims)
  token_program_with cfg token =
      if not cfg.enabled
      then done none
      else if token == ""
      then finished (err (sentinel missing_token))
      else if not (looks_like_jwt token)
      then (if cfg.strict_jwt_only
          then (atomic
                (log error [] "OAuth token is not a JWT; StrictJWTOnly rejects opaque bearers")
              >> finished (err (sentinel invalid_token)))
          else (atomic (log debug [] "Bearer is opaque (not a JWT); skipping local validation")
              >> done none))
      else if trim_space cfg.jwks_url == "" && trim_space cfg.issuer == ""
      then (atomic (
            log debug []
              "JWT received but neither oauth_issuer nor jwks_url is configured; skipping local validation")
          >> done none)
      else jwt_program token

  unfoldable pub token_program : String → Program Key (Option Claims)
  token_program token = do cfg ← atomic read_config; token_program_with cfg token

  unfoldable pub strict_parsed_program : String → StrictJwtPolicy → Program Key Claims
  strict_parsed_program token policy = do
    (parsed, keys) ←
        after (parse_and_fetch_program token) (λ r. finished (map_error (strict_error env) r))
    now ← atomic (time_now env)
    finished (strict_with_keys env policy (unix now) parsed keys)

  unfoldable pub strict_program : String → StrictJwtPolicy → Program Key Claims
  strict_program token policy =
      if not (looks_like_jwt token)
      then finished (err (detail invalid_token "bearer is not a compact JWT"))
      else if not (has_non_empty_expected_audience policy.expected_audiences)
      then finished
          (err (detail invalid_token "at least one non-empty expected audience is required"))
      else if ltb_ℤ policy.leeway (pos 0)
      then finished (err (detail invalid_token "leeway must not be negative"))
      else strict_parsed_program token policy
