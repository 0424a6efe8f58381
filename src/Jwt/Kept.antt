-- ===== src/Jwt/Kept.antt =====
-- What the parts of a call keep, finding the keys of a token keeps: an invariant of the caches need only
-- be shown for the log, the clock, the fetch, the invalidation and the discovery.
use go_mcp_oauth_sdk.Prelude.{◌+◌, String, List}
use go_mcp_oauth_sdk.Errors.{Result, ok, err}
use go_mcp_oauth_sdk.Env.{Env, IsRandom}
use go_mcp_oauth_sdk.Verifier.{System, Level, LogField, LogEntry, log, next_call, ◌>>=◌}
use go_mcp_oauth_sdk.Verifier.Keeps.{Keeps, keeps_rules}
use go_mcp_oauth_sdk.Jwks.{
  time_now, fetch_jwk_set, invalidate_jwks_cache, fetch_auth_server_meta, resolve_jwks_url,
}
use go_mcp_oauth_sdk.Jwt.{
  found_after_refetch, refetch_for, candidate_keys, parse_and_fetch_keys, unwrapped,
  parse_and_verify_external_jwt,
}
use go_mcp_oauth_sdk.Config.{OauthConfig}
use go_mcp_oauth_sdk.Jwks.Cache.{
  TtlFits, IsCoherent, IsCoherent-ticked, invalidate-IsCoherent, fetch-IsCoherent,
  fetch_auth_server_meta-IsCoherent,
}

module _ {Key Token : Type 0} (env : Env Key Token) where
  -- The parts keep `P`.
  pub record IsKept (P : System Key → Type 0) : Type 0 where
    pub call : (s : System Key) → P s → P (record s { calls = s.calls + 1 })
    pub logs : (s : System Key) (entries : List LogEntry) → P s → P (record s { logs = entries })
    pub fetch : (uri : String) → Keeps P (fetch_jwk_set env uri)
    pub forget : Keeps P invalidate_jwks_cache
    pub discover : (issuer : String) → Keeps P (fetch_auth_server_meta env issuer)

  module _ {P : System Key → Type 0} (k : IsKept P) where
    pub Keeps-log :
        (level : Level) (fields : List LogField) (message : String)
        → Keeps P (log level fields message)
    unfolding log
    Keeps-log level fields message = record { at = λ s h. k.logs s _ h }

    pub Keeps-time_now : Keeps P (time_now env)
    unfolding time_now next_call ◌>>=◌
    Keeps-time_now = record { at = λ s h. k.call s h }

    Keeps-resolve : Keeps P (resolve_jwks_url env)
    unfolding resolve_jwks_url
    Keeps-resolve = search (keeps_rules, k.discover)

    pub Keeps-found :
        (parsed : Token) (keys : List Key) → Keeps P (found_after_refetch env parsed keys)
    unfolding found_after_refetch
    Keeps-found parsed keys = search (keeps_rules, Keeps-log)

    Keeps-fetch : (uri : String) → Keeps P (fetch_jwk_set env uri)
    Keeps-fetch uri = k.fetch uri

    Keeps-forget : Keeps P invalidate_jwks_cache
    Keeps-forget = k.forget

    Keeps-refetch_for :
        (uri : String) (parsed : Token) (key_id : String)
        → Keeps P (refetch_for env uri parsed key_id)
    unfolding refetch_for
    Keeps-refetch_for uri parsed key_id =
        search (keeps_rules, Keeps-found, Keeps-fetch, Keeps-forget)

    pub Keeps-candidate_keys :
        (uri : String) (parsed : Token) (key_id : String) (set : List Key)
        → Keeps P (candidate_keys env uri parsed key_id set)
    unfolding candidate_keys
    Keeps-candidate_keys uri parsed key_id set = search (keeps_rules, Keeps-refetch_for)

    pub Keeps-parse_and_fetch : (token : String) → Keeps P (parse_and_fetch_keys env token)
    unfolding parse_and_fetch_keys
    Keeps-parse_and_fetch token =
        search (keeps_rules, Keeps-resolve, Keeps-fetch, Keeps-candidate_keys)

    -- Changing an error does not touch the caches.
    at-unwrapped : {A : Type 0} (r : Result A × System Key) → P r.1 → P (unwrapped env r).1
    at-unwrapped (ok a, s) h = h
    at-unwrapped (err e, s) h = h

    pub Keeps-unwrapped :
        (token : String) → Keeps P (λ s. unwrapped env (parse_and_fetch_keys env token s))
    Keeps-unwrapped token = record {
      at = λ s h.
          at-unwrapped (parse_and_fetch_keys env token s) ((Keeps-parse_and_fetch token).at s h);
    }

    pub Keeps-external :
        (token expected : String) → Keeps P (parse_and_verify_external_jwt env token expected)
    unfolding parse_and_verify_external_jwt
    Keeps-external token expected = search (keeps_rules, Keeps-unwrapped)

-- The key cache stays coherent.
pub IsCoherent-IsKept :
    {Key Token : Type 0} (env : Env Key Token) (cfg : OauthConfig)
    → IsRandom env
    → TtlFits cfg
    → IsKept env (IsCoherent env cfg)
IsCoherent-IsKept env cfg random fits = record {
  call = λ s h. IsCoherent-ticked env cfg s h;
  logs = λ s entries h. record { configured = h.configured; origin = h.origin };
  fetch = λ uri. fetch-IsCoherent env cfg random fits uri;
  forget = invalidate-IsCoherent env cfg;
  discover = λ issuer. fetch_auth_server_meta-IsCoherent env cfg issuer;
}
