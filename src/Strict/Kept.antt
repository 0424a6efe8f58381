-- ===== src/Strict/Kept.antt =====
-- What the parts of a call keep, the strict validation keeps.
use go_mcp_oauth_sdk.Prelude.{String}
use go_mcp_oauth_sdk.Errors.{Result, ok, err}
use go_mcp_oauth_sdk.Env.{Env}
use go_mcp_oauth_sdk.Verifier.{System}
use go_mcp_oauth_sdk.Verifier.Keeps.{Keeps, keeps_rules}
use go_mcp_oauth_sdk.Jwks.{time_now}
use go_mcp_oauth_sdk.Jwt.{parse_and_fetch_keys}
use go_mcp_oauth_sdk.Strict.{
  StrictJwtPolicy, reclassified, validate_strict_parsed, validate_strict_jwt,
}
use go_mcp_oauth_sdk.Jwt.Kept.{IsKept, Keeps-time_now, Keeps-parse_and_fetch}

module _ {Key Token : Type 0} (env : Env Key Token) where
  module _ {P : System Key → Type 0} (k : IsKept env P) where
    -- Changing an error does not touch the caches.
    at-reclassified : {A : Type 0} (r : Result A × System Key) → P r.1 → P (reclassified env r).1
    at-reclassified (ok a, s) h = h
    at-reclassified (err e, s) h = h

    Keeps-reclassified :
        (token : String) → Keeps P (λ s. reclassified env (parse_and_fetch_keys env token s))
    Keeps-reclassified token = record {
      at = λ s h.
          at-reclassified (parse_and_fetch_keys env token s)
            ((Keeps-parse_and_fetch env k token).at s h);
    }

    Keeps-now : Keeps P (time_now env)
    Keeps-now = Keeps-time_now env k

    Keeps-strict_parsed :
        (token : String) (policy : StrictJwtPolicy)
        → Keeps P (validate_strict_parsed env token policy)
    unfolding validate_strict_parsed
    Keeps-strict_parsed token policy = search (keeps_rules, Keeps-reclassified, Keeps-now)

    pub Keeps-strict :
        (token : String) (policy : StrictJwtPolicy) → Keeps P (validate_strict_jwt env token policy)
    unfolding validate_strict_jwt
    Keeps-strict token policy = search (keeps_rules, Keeps-strict_parsed)
