-- ===== src/Api/Reach.antt =====
-- What holds in every state that calls of the exported methods reach.
use go_mcp_oauth_sdk.Prelude.{◌≤◌, String, ◌≡◌, refl, ◌∙◌, List, arith}
use go_mcp_oauth_sdk.Errors.{ok}
use go_mcp_oauth_sdk.Config.{OauthConfig}
use go_mcp_oauth_sdk.Env.{AuthServerMeta, Env, IsRandom}
use go_mcp_oauth_sdk.Verifier.{System, initial}
use go_mcp_oauth_sdk.Verifier.Keeps.{Keeps}
use go_mcp_oauth_sdk.Jwks.{fetch_jwk_set, invalidate_jwks_cache, fetch_auth_server_meta}
use go_mcp_oauth_sdk.Jwks.Steps.{from_cache, downloaded, failed, ending}
use go_mcp_oauth_sdk.Jwks.Cache.{TtlFits, Downloaded, IsCoherent-initial, fetch-Downloaded}
use go_mcp_oauth_sdk.Jwks.Metadata.{
  issuer_key, HasMeta, HasMeta-initial, HasMeta-ticked, relax-Discovered, Obtained,
  fetch_auth_server_meta-HasMeta, fetch_auth_server_meta-Obtained,
}
use go_mcp_oauth_sdk.Api.{Request, serve_all}
use go_mcp_oauth_sdk.Jwt.Kept.{IsKept, IsCoherent-IsKept}
use go_mcp_oauth_sdk.Api.Kept.{serve_all-kept}

module _ {Key Token : Type 0} (env : Env Key Token) (cfg : OauthConfig) (random : IsRandom env)
    (fits : TtlFits cfg) where
  -- Fetching keys does not touch the metadata.
  HasMeta-later :
      (s t : System Key)
      → HasMeta env cfg s
      → t.verifier.cfg ≡ s.verifier.cfg
      → t.verifier.as_meta_cache ≡ s.verifier.as_meta_cache
      → t.verifier.as_meta_cache_url ≡ s.verifier.as_meta_cache_url
      → t.verifier.as_meta_expires_at ≡ s.verifier.as_meta_expires_at
      → s.calls ≤ t.calls
      → HasMeta env cfg t
  HasMeta-later s t h a b c d later = record {
    configured = a ∙ h.configured;
    origin = λ present.
        rw (b, c, d)
          (relax-Discovered env cfg _ _ (omega arith) later (h.origin (rw (← b) present)));
  }

  fetch-HasMeta : (uri : String) → Keeps (HasMeta env cfg) (fetch_jwk_set env uri)
  fetch-HasMeta uri = record {
    at = λ s h. elim (ending env uri s) [
      | from_cache _ e ↦ rw e (HasMeta-ticked env cfg s h)
      | downloaded keys _ _ e ↦ rw e (HasMeta-later s _ h refl refl refl refl (omega arith))
      | failed x _ _ e ↦ rw e (HasMeta-later s _ h refl refl refl refl (omega arith))
    ];
  }

  invalidate-HasMeta : Keeps (HasMeta env cfg) invalidate_jwks_cache
  unfolding invalidate_jwks_cache
  invalidate-HasMeta = record {
    at = λ s h. record { configured = h.configured; origin = h.origin };
  }

  HasMeta-IsKept : IsKept env (HasMeta env cfg)
  HasMeta-IsKept = record {
    call = λ s h. HasMeta-ticked env cfg s h;
    logs = λ s entries h. record { configured = h.configured; origin = h.origin };
    fetch = fetch-HasMeta;
    forget = invalidate-HasMeta;
    discover = λ issuer. fetch_auth_server_meta-HasMeta env cfg random fits issuer;
  }

  -- After any calls of the exported methods on a new verifier, failed ones included, the keys that
  -- `fetchJWKSet` returns for a URI came in a successful reply of that very URI, and the clock
  -- stood, just before that download, at most eleven tenths of the time to live before its reading
  -- now. The random numbers are below their bound, and the time to live fits.
  pub served-Downloaded :
      (requests : List Request) (uri : String) (keys : List Key)
      → (fetch_jwk_set env uri (serve_all env (initial cfg) requests)).0 ≡ ok keys
      → Downloaded env cfg uri keys
          (env.clock (serve_all env (initial cfg) requests).calls)
          (fetch_jwk_set env uri (serve_all env (initial cfg) requests)).1.calls
  served-Downloaded requests uri keys got =
      let coherent =
        serve_all-kept env (IsCoherent-IsKept env cfg random fits) (initial cfg) requests
          (IsCoherent-initial env cfg) in
      fetch-Downloaded env cfg random fits uri keys _ coherent got

  -- After any calls of the exported methods on a new verifier, failed ones included,
  -- `fetchAuthServerMeta` returns metadata for an issuer only if it discovers them now for that
  -- issuer, without white space and trailing slashes, or if they were discovered for it earlier and
  -- the clock, read right after that, stood at most eleven tenths of the time to live before its
  -- reading now. The random numbers are below their bound, and the time to live fits.
  pub served-Obtained :
      (requests : List Request) (issuer : String) (meta : AuthServerMeta)
      → (fetch_auth_server_meta env issuer (serve_all env (initial cfg) requests)).0 ≡ ok meta
      → Obtained env cfg
          (issuer_key issuer)
          meta
          (serve_all env (initial cfg) requests)
          (fetch_auth_server_meta env issuer (serve_all env (initial cfg) requests)).1
  served-Obtained requests issuer meta got =
      let kept =
        serve_all-kept env HasMeta-IsKept (initial cfg) requests (HasMeta-initial env cfg) in
      fetch_auth_server_meta-Obtained env cfg random fits issuer _ meta kept got
