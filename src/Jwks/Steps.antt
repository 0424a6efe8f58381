-- ===== src/Jwks/Steps.antt =====
-- The three ways in which `fetchJWKSet` ends, each with the state that it leaves.
use go_mcp_oauth_sdk.Prelude.{
  ℕ, ◌+◌, String, ◌≡◌, ◌∙◌, true, false, none, some, List, inl, inr, Bool-cases,
}
use go_mcp_oauth_sdk.Errors.{Failure, ok, err}
use go_mcp_oauth_sdk.Errors.Laws.{Result-cases}
use go_mcp_oauth_sdk.Env.{Env}
use go_mcp_oauth_sdk.Verifier.{System}
use go_mcp_oauth_sdk.Jwks.{
  jwks_cache_ttl, jittered_expiry, decode_reply, is_cached, refetch, fetch_jwk_set,
}

module _ {Key Token : Type 0} (env : Env Key Token) where
  -- the state once the clock was read
  abbrev pub ticked : System Key → System Key
  ticked s = record s { calls = s.calls + 1 }

  -- The state after a download that failed with `e`, and after one that gave `keys`.
  abbrev pub after_failure : ℕ → Failure → System Key → System Key
  after_failure now e s = record s {
    calls = s.calls + 1;
    verifier = record s.verifier { jwks_last_fetch_attempt = now; jwks_last_fetch_error = some e };
  }

  abbrev pub after_download : String → ℕ → List Key → System Key → System Key
  after_download uri now keys s = record s {
    calls = s.calls + 1 + 1 + 1;
    verifier = record s.verifier {
      jwks_cache = keys;
      jwks_cache_url = uri;
      jwks_cache_expires_at =
          jittered_expiry (env.random (s.calls + 1)) now (jwks_cache_ttl s.verifier.cfg);
      jwks_last_fetch_attempt = now;
      jwks_last_fetch_success = env.clock (s.calls + 1 + 1);
      jwks_last_fetch_error = none;
    };
  }

  module _ (uri : String) (now : ℕ) (s : System Key) where
    refetch-ok :
        (keys : List Key)
        → decode_reply (env.get_jwks s.calls uri) ≡ ok keys
        → refetch env uri now s ≡ (ok keys, after_download uri now keys s)
    unfolding refetch
    refetch-ok keys e = rw (e, refetch)

    refetch-err :
        (e : Failure)
        → decode_reply (env.get_jwks s.calls uri) ≡ err e
        → refetch env uri now s ≡ (err e, after_failure now e s)
    unfolding refetch
    refetch-err x e = rw (e, refetch)

  module _ (uri : String) (s : System Key) where
    -- `now` is the time that the first clock call gives, and the download has the next number.
    pub data Ending : Type 0 where
      from_cache :
          is_cached s.verifier uri (env.clock s.calls) ≡ true
          → fetch_jwk_set env uri s ≡ (ok s.verifier.jwks_cache, ticked s)
          → Ending
      downloaded :
          (keys : List Key)
          → is_cached s.verifier uri (env.clock s.calls) ≡ false
          → decode_reply (env.get_jwks (s.calls + 1) uri) ≡ ok keys
          → fetch_jwk_set env uri s
            ≡ (ok keys, after_download uri (env.clock s.calls) keys (ticked s))
          → Ending
      failed :
          (e : Failure)
          → is_cached s.verifier uri (env.clock s.calls) ≡ false
          → decode_reply (env.get_jwks (s.calls + 1) uri) ≡ err e
          → fetch_jwk_set env uri s ≡ (err e, after_failure (env.clock s.calls) e (ticked s))
          → Ending

    fetch-cached :
        is_cached s.verifier uri (env.clock s.calls) ≡ true
        → fetch_jwk_set env uri s ≡ (ok s.verifier.jwks_cache, ticked s)
    unfolding fetch_jwk_set
    fetch-cached h = rw h

    fetch-stale :
        is_cached s.verifier uri (env.clock s.calls) ≡ false
        → fetch_jwk_set env uri s ≡ refetch env uri (env.clock s.calls) (ticked s)
    unfolding fetch_jwk_set
    fetch-stale h = rw h

    pub ending : Ending
    ending = elim (Bool-cases (is_cached s.verifier uri (env.clock s.calls))) [
      | inl cached ↦ from_cache cached (fetch-cached cached)
      | inr stale ↦ elim (Result-cases (decode_reply (env.get_jwks (s.calls + 1) uri))) [
        | inl (keys, e) ↦
            downloaded keys stale e
              (fetch-stale stale ∙ refetch-ok uri (env.clock s.calls) (ticked s) keys e)
        | inr (x, e) ↦
            failed x stale e
              (fetch-stale stale ∙ refetch-err uri (env.clock s.calls) (ticked s) x e)
      ]
    ]
