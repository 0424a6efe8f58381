-- ===== src/Jwks.antt =====
-- oauth/jwks.go and oauth/discovery.go: finding, downloading and caching the keys.
pub mod Jitter
pub mod Steps
pub mod Cache
pub mod Health
pub mod Metadata
use Prim.Native.String
use go_mcp_oauth_sdk.Prelude.{
  ℕ, zero, ◌+◌, ◌-◌, ◌*◌, ◌/◌, ◌^◌, String, Bool, true, false, not, ◌&&◌, Option, none, some, List,
  [], ◌∷◌, ◌==◌, ltb, leb, eqb, if◌then◌else◌, is_empty,
}
use go_mcp_oauth_sdk.Prelude.Int.{ℤ, pos, pos_part, sub_ℕ, ◌+ℤ◌, ltb_ℤ, wrap64}
use go_mcp_oauth_sdk.Text.{trim_space, trim_slashes, itoa}
use go_mcp_oauth_sdk.Errors.{Failure, sentinel, plain, wrap, wrap_two, transient, Result, ok, err}
use go_mcp_oauth_sdk.Config.{OauthConfig}
use go_mcp_oauth_sdk.Platform.{Platform}
use go_mcp_oauth_sdk.Env.{
  Body, malformed, key_set, Reply, bad_request, unreachable, unreadable, response, AuthServerMeta,
  Discovery, failed, missing, found, Env,
}
use go_mcp_oauth_sdk.Verifier.{
  Verifier, System, Action, pure, lift, fail, ◌>>=◌, ◌>>◌, get_verifier, next_call,
}

-- Five minutes, in nanoseconds.
abbrev pub default_jwks_cache_ttl : ℤ
default_jwks_cache_ttl = pos 300_000_000_000

unfoldable pub jwks_cache_ttl : OauthConfig → ℤ
jwks_cache_ttl cfg =
    if ltb_ℤ (pos 0) cfg.jwks_cache_ttl then cfg.jwks_cache_ttl else default_jwks_cache_ttl

-- `time.Time.Add`, for a duration that does not lead before Go's zero time.
unfoldable pub add_time : ℕ → ℤ → ℕ
add_time t d = pos_part (pos t +ℤ d)

-- `rand` stands for `rand.Int64N` at this call. A positive ttl is its own quotient's dividend.
unfoldable pub jittered_expiry : (ℕ → ℕ) → ℕ → ℤ → ℕ
jittered_expiry rand now ttl =
    let span = pos_part ttl / 5 in
    if not (ltb_ℤ (pos 0) ttl)
    then now
    else if eqb span 0
    then add_time now ttl
    else add_time now (wrap64 (ttl +ℤ sub_ℕ (rand span) (pos_part ttl / 10)))

-- The decoding of a reply, with the error of each early return.
unfoldable pub status_text : ℕ → String
status_text status = String.◌++◌ "jwks endpoint returned status " (itoa 20 status)

unfoldable pub decode_reply : {Key : Type 0} → Reply Key → Result (List Key)
decode_reply (bad_request t) = err (wrap "failed to build jwks request: " (plain t) "")
decode_reply (unreachable t) =
    err (wrap_two "failed to fetch jwks: " (sentinel transient) ": " (plain t))
decode_reply (unreadable t) =
    err (wrap_two "failed to read jwks response: " (sentinel transient) ": " (plain t))
decode_reply (response status body) =
    if leb 500 status
    then err (wrap (String.◌++◌ (status_text status) ": ") (sentinel transient) "")
    else if leb 300 status
    then err (plain (status_text status))
    else elim body [
      | malformed t ↦ err (wrap "failed to parse jwks response: " (plain t) "")
      | key_set keys ↦ ok keys
    ]

-- The test of the cached key set, under the read lock.
unfoldable pub is_cached : {Key : Type 0} → Verifier Key → String → ℕ → Bool
is_cached v uri now =
    not (is_empty v.jwks_cache) && v.jwks_cache_url == uri && ltb now v.jwks_cache_expires_at

unfoldable pub invalidate_jwks_cache : {Key : Type 0} → Action Key (Unit {0})
invalidate_jwks_cache s =
    (ok tt, record s { verifier = record s.verifier { jwks_cache_expires_at = 0 } })

module _ {Key Token : Type 0} (env : Env Key Token) where
  -- `time.Now()`
  unfoldable pub time_now : Action Key ℕ
  unfolding next_call ◌>>=◌
  time_now = do call ← next_call; pure (env.clock call)

  -- `v.jwksLastFetchAttempt = now`
  unfoldable pub record_attempt : ℕ → Action Key (Unit {0})
  record_attempt now s =
      (ok tt, record s { verifier = record s.verifier { jwks_last_fetch_attempt = now } })

  -- the last lines of `fetchJWKSet`, under the write lock
  unfoldable pub store_keys : String → ℕ → List Key → Action Key (Unit {0})
  store_keys uri now keys s = (
    ok tt,
    record s {
      calls = s.calls + 1;
      verifier = record s.verifier {
        jwks_cache = keys;
        jwks_cache_url = uri;
        jwks_cache_expires_at =
            jittered_expiry (env.random s.calls) now (jwks_cache_ttl s.verifier.cfg);
      };
    },
  )

  unfoldable pub download : String → ℕ → Action Key (List Key)
  unfolding next_call ◌>>=◌ store_keys
  download uri now = do
    call ← next_call
    keys ← lift (decode_reply (env.get_jwks call uri))
    store_keys uri now keys
    pure keys

  -- The deferred function of `fetchJWKSet`: it keeps the outcome, and reads the clock after success.
  unfoldable pub with_outcome : Result (List Key) × System Key → Result (List Key) × System Key
  with_outcome (ok keys, s) = (
    ok keys,
    record s {
      calls = s.calls + 1;
      verifier = record s.verifier {
        jwks_last_fetch_success = env.clock s.calls;
        jwks_last_fetch_error = none;
      };
    },
  )
  with_outcome (err e, s) =
      (err e, record s { verifier = record s.verifier { jwks_last_fetch_error = some e } })

  -- `fetchJWKSet` beyond the cache
  unfoldable pub refetch : String → ℕ → Action Key (List Key)
  unfolding record_attempt download with_outcome ◌>>=◌
  refetch uri now s = with_outcome ((record_attempt now >> download uri now) s)

  unfoldable pub fetch_jwk_set : String → Action Key (List Key)
  unfolding time_now get_verifier ◌>>=◌
  fetch_jwk_set uri = do
    now ← time_now
    v ← get_verifier
    if is_cached v uri now then pure v.jwks_cache else refetch uri now

  -- oauth/discovery.go
  unfoldable pub store_meta : String → ℕ → AuthServerMeta → Action Key (Unit {0})
  store_meta issuer now meta s = (
    ok tt,
    record s {
      calls = s.calls + 1;
      verifier = record s.verifier {
        as_meta_cache = meta;
        as_meta_cache_url = issuer;
        as_meta_expires_at =
            jittered_expiry (env.random s.calls) now (jwks_cache_ttl s.verifier.cfg);
      };
    },
  )

  unfoldable pub decode_discovery : String → Discovery → Result AuthServerMeta
  decode_discovery issuer (failed t) = err (
      wrap_two
        (String.◌++◌ "failed to discover authorization server metadata for issuer "
          (String.◌++◌ (env.platform.quote issuer) ": "))
        (sentinel transient) ": " (plain t))
  decode_discovery issuer missing = err (
      plain (
        String.◌++◌ "no authorization server metadata found for issuer "
          (env.platform.quote issuer)))
  decode_discovery issuer (found meta) = ok meta

  unfoldable pub discover : String → Action Key AuthServerMeta
  unfolding next_call time_now store_meta ◌>>=◌
  discover issuer = do
    call ← next_call
    meta ← lift (decode_discovery issuer (env.get_metadata call issuer))
    now ← time_now
    store_meta issuer now meta
    pure meta

  -- The test of the cached metadata, whose URL is the one asked for: the clock is read only then.
  unfoldable pub cached_or_discover : String → Verifier Key → Action Key AuthServerMeta
  unfolding time_now discover ◌>>=◌
  cached_or_discover issuer v = do
    now ← time_now
    if ltb now v.as_meta_expires_at && not (v.as_meta_cache.issuer == "")
        then pure v.as_meta_cache
        else discover issuer

  unfoldable pub fetch_auth_server_meta : String → Action Key AuthServerMeta
  unfolding get_verifier cached_or_discover discover ◌>>=◌
  fetch_auth_server_meta raw_issuer =
      let issuer = trim_slashes (trim_space raw_issuer) in
      if issuer == "" then fail (plain "issuer is required") else do
        v ← get_verifier
        if v.as_meta_cache_url == issuer then cached_or_discover issuer v else discover issuer

  unfoldable pub discovered_uri : AuthServerMeta → Result String
  discovered_uri meta =
      let uri = trim_space meta.jwks_uri in
      if uri == "" then err (plain "openid discovery did not return jwks_uri") else ok uri

  unfoldable pub resolve_jwks_url : Action Key String
  unfolding get_verifier fetch_auth_server_meta ◌>>=◌
  resolve_jwks_url = do
    v ← get_verifier
    let explicit = trim_space v.cfg.jwks_url
    let issuer = trim_space v.cfg.issuer
    if not (explicit == "")
        then pure explicit
        else if issuer == ""
        then fail (plain "oauth issuer or jwks_url must be configured")
        else do meta ← fetch_auth_server_meta issuer; lift (discovered_uri meta)
