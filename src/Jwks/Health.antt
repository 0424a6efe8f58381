-- ===== src/Jwks/Health.antt =====
-- The health record that `fetchJWKSet` keeps beside the cache, and which failures are transient.
use go_mcp_oauth_sdk.Prelude.{
  ◌+◌, ◌≤◌, String, ◌≡◌, ◌↔◌, refl, true, none, some, List, arith, if◌then◌else◌,
}
use go_mcp_oauth_sdk.Errors.{Failure, is, transient, ok, err}
use go_mcp_oauth_sdk.Env.{
  malformed, key_set, Reply, bad_request, unreachable, unreadable, response, Env,
}
use go_mcp_oauth_sdk.Verifier.{Verifier, System, jwks_health}
use go_mcp_oauth_sdk.Jwks.{decode_reply, is_cached, fetch_jwk_set}
use go_mcp_oauth_sdk.Jwks.Steps.{from_cache, downloaded, failed, ending}

-- The two verifiers hold the same keys, from the same URI, until the same time.
pub record SameCache {Key : Type 0} (v w : Verifier Key) : Type 0 where
  pub keys : v.jwks_cache ≡ w.jwks_cache
  pub url : v.jwks_cache_url ≡ w.jwks_cache_url
  pub expires_at : v.jwks_cache_expires_at ≡ w.jwks_cache_expires_at

module _ {Key Token : Type 0} (env : Env Key Token) (uri : String) (s : System Key) where
  -- A fetch that fails leaves the cached keys, their URI and their deadline as they were, and the
  -- health record then shows the time of this attempt, the earlier success and this error.
  pub fetch_jwk_set-failure :
      (e : Failure)
      → (fetch_jwk_set env uri s).0 ≡ err e
      → SameCache (fetch_jwk_set env uri s).1.verifier s.verifier
        × (jwks_health (fetch_jwk_set env uri s).1.verifier
            ≡ (env.clock s.calls, s.verifier.jwks_last_fetch_success, some e))
  unfolding jwks_health
  fetch_jwk_set-failure e h = elim (ending env uri s) [
    | from_cache _ run ↦ ground (arith, run)
    | downloaded keys _ _ run ↦ ground (arith, run)
    | failed x _ _ run ↦
        let same : x ≡ e = ground (arith, run) in
        rw (run, same) (record { keys = refl; url = refl; expires_at = refl }, refl)
  ]

  -- A fetch that succeeds either answers from the cache and leaves the health record as it was, or
  -- leaves one that shows the time of this attempt, a later reading of the clock, and no error.
  pub fetch_jwk_set-success :
      (keys : List Key)
      → (fetch_jwk_set env uri s).0 ≡ ok keys
      → (jwks_health (fetch_jwk_set env uri s).1.verifier ≡ (
          if is_cached s.verifier uri (env.clock s.calls)
          then jwks_health s.verifier
          else (env.clock s.calls, env.clock (s.calls + 1 + 1 + 1), none)))
  unfolding jwks_health
  fetch_jwk_set-success keys h = elim (ending env uri s) [
    | from_cache hit run ↦ rw (run, hit) refl
    | downloaded _ miss _ run ↦ rw (run, miss) refl
    | failed x _ _ run ↦ ground (arith, run)
  ]

-- The failures that may go away: no response, a body that breaks off, and a server's own error.
abbrev pub MayPass : {Key : Type 0} → Reply Key → Type 0
MayPass (bad_request t) = ⊥
MayPass (unreachable t) = Unit
MayPass (unreadable t) = Unit
MayPass (response status body) = 500 ≤ status

-- The error of a failed download wraps `ErrTransient` exactly if there was no response, its body
-- could not be read, or its status was 500 or more.
pub decode_reply-transient_iff :
    {Key : Type 0} (r : Reply Key) (e : Failure)
    → decode_reply r ≡ err e
    → (is transient e ≡ true) ↔ MayPass r
unfolding decode_reply is
decode_reply-transient_iff (bad_request t) e h = ground arith
decode_reply-transient_iff (unreachable t) e h = ground arith
decode_reply-transient_iff (unreadable t) e h = ground arith
decode_reply-transient_iff (response status (malformed t)) e h = ground arith
decode_reply-transient_iff (response status (key_set keys)) e h = ground arith
