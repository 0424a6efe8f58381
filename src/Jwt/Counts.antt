-- ===== src/Jwt/Counts.antt =====
-- The number of calls of the outside world never falls.
use go_mcp_oauth_sdk.Prelude.{ℕ, ◌+◌, ◌≤◌, String, arith}
use go_mcp_oauth_sdk.Env.{AuthServerMeta, Env}
use go_mcp_oauth_sdk.Verifier.{System, Verifier, next_call}
use go_mcp_oauth_sdk.Verifier.Keeps.{Keeps, keeps_rules}
use go_mcp_oauth_sdk.Jwks.{
  time_now, store_meta, discover, cached_or_discover, fetch_auth_server_meta, fetch_jwk_set,
  invalidate_jwks_cache, resolve_jwks_url,
}
use go_mcp_oauth_sdk.Jwks.Steps.{from_cache, downloaded, failed, ending}
use go_mcp_oauth_sdk.Jwt.Kept.{IsKept}

module _ {Key Token : Type 0} (env : Env Key Token) where
  -- A fetch reads the clock at least.
  pub fetch_counts :
      (uri : String) (s : System Key) → s.calls + 1 ≤ (fetch_jwk_set env uri s).1.calls
  fetch_counts uri s = elim (ending env uri s) [
    | from_cache _ e ↦ rw e (omega arith)
    | downloaded keys _ _ e ↦ rw e (omega arith)
    | failed x _ _ e ↦ rw e (omega arith)
  ]

  module _ (n : ℕ) where
    -- At least `n` calls were made.
    abbrev pub Counted : System Key → Type 0
    Counted s = n ≤ s.calls

    Keeps-next_call : Keeps Counted next_call
    unfolding next_call
    Keeps-next_call = record { at = λ s h. omega arith }

    Keeps-clock : Keeps Counted (time_now env)
    unfolding time_now
    Keeps-clock = search (keeps_rules, Keeps-next_call)

    Keeps-store_meta :
        (issuer : String) (now : ℕ) (meta : AuthServerMeta)
        → Keeps Counted (store_meta env issuer now meta)
    unfolding store_meta
    Keeps-store_meta issuer now meta = record { at = λ s h. omega arith }

    Keeps-discover : (issuer : String) → Keeps Counted (discover env issuer)
    unfolding discover
    Keeps-discover issuer = search (keeps_rules, Keeps-next_call, Keeps-clock, Keeps-store_meta)

    Keeps-cached_or_discover :
        (issuer : String) (v : Verifier Key) → Keeps Counted (cached_or_discover env issuer v)
    unfolding cached_or_discover
    Keeps-cached_or_discover issuer v = search (keeps_rules, Keeps-clock, Keeps-discover)

    Keeps-fetch_meta : (issuer : String) → Keeps Counted (fetch_auth_server_meta env issuer)
    unfolding fetch_auth_server_meta
    Keeps-fetch_meta issuer = search (keeps_rules, Keeps-cached_or_discover, Keeps-discover)

    Keeps-invalidate : Keeps Counted invalidate_jwks_cache
    unfolding invalidate_jwks_cache
    Keeps-invalidate = record { at = λ s h. h }

    Keeps-fetch : (uri : String) → Keeps Counted (fetch_jwk_set env uri)
    Keeps-fetch uri = record { at = λ s h. omega (arith, fetch_counts uri s) }

    pub Keeps-resolve : Keeps Counted (resolve_jwks_url env)
    unfolding resolve_jwks_url
    Keeps-resolve = search (keeps_rules, Keeps-fetch_meta)

    pub Counted-IsKept : IsKept env Counted
    Counted-IsKept = record {
      call = λ s h. omega arith;
      logs = λ s entries h. h;
      fetch = Keeps-fetch;
      forget = Keeps-invalidate;
      discover = Keeps-fetch_meta;
    }
