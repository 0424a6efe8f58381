-- ===== src/Validator/Kept.antt =====
-- What the parts of a call keep, the legacy validation keeps.
use go_mcp_oauth_sdk.Prelude.{String, not, ◌&&◌, ◌==◌, Option, none, some, [], inl, inr, Bool-cases}
use go_mcp_oauth_sdk.Text.{trim_space}
use go_mcp_oauth_sdk.Errors.{Result, ok, err}
use go_mcp_oauth_sdk.Claims.{Claims}
use go_mcp_oauth_sdk.Env.{Env}
use go_mcp_oauth_sdk.Verifier.{System, Level, log, lift, ◌>>◌, ◌>>=◌}
use go_mcp_oauth_sdk.Verifier.Keeps.{Keeps, Keeps-if, keeps_rules}
use go_mcp_oauth_sdk.Jwks.{time_now}
use go_mcp_oauth_sdk.Jwt.{looks_like_jwt, parse_and_verify_external_jwt}
use go_mcp_oauth_sdk.Validator.{
  Rejection, enforce, validate_claims, logged, validate_jwt, validate_token,
}
use go_mcp_oauth_sdk.Jwt.Kept.{IsKept, Keeps-log, Keeps-time_now, Keeps-external}

module _ {Key Token : Type 0} (env : Env Key Token) where
  module _ {P : System Key → Type 0} (k : IsKept env P) where
    -- Logging an error does not touch the caches.
    at-logged : (r : Result Claims × System Key) → P r.1 → P (logged env r).1
    at-logged (ok a, s) h = h
    at-logged (err e, s) h = k.logs s _ h

    pub Keeps-logged :
        (token expected : String)
        → Keeps P (λ s. logged env (parse_and_verify_external_jwt env token expected s))
    Keeps-logged token expected = record {
      at = λ s h.
          at-logged (parse_and_verify_external_jwt env token expected s)
            ((Keeps-external env k token expected).at s h);
    }

    Keeps-enforce : (r : Option Rejection) → Keeps P (enforce r)
    unfolding enforce
    Keeps-enforce none = record { at = λ s h. h }
    Keeps-enforce (some x) = record { at = λ s h. k.logs s _ h }

    Keeps-now : Keeps P (time_now env)
    Keeps-now = Keeps-time_now env k

    pub Keeps-claims : (claims : Claims) → Keeps P (validate_claims env claims)
    unfolding validate_claims
    Keeps-claims claims = search (keeps_rules, Keeps-enforce, Keeps-now) depth 9

    Keeps-jwt : (token : String) → Keeps P (validate_jwt env token)
    unfolding validate_jwt
    Keeps-jwt token = search (keeps_rules, Keeps-logged, Keeps-claims)

    -- A line of the log before a result or an error.
    Keeps-line :
        {A : Type 0} (level : Level) (message : String) (r : Result A)
        → Keeps P (log level [] message >> lift r)
    unfolding ◌>>=◌
    Keeps-line level message r = search (keeps_rules, Keeps-log env k)

    pub Keeps-validate_token : (token : String) → Keeps P (validate_token env token)
    unfolding validate_token
    Keeps-validate_token token = record {
      at = λ s h.
          let cfg = s.verifier.cfg in
          elim (Bool-cases (not cfg.enabled)) [
            | inl a ↦ rw (validate_token, a) h
            | inr a ↦ elim (Bool-cases (token == "")) [
              | inl b ↦ rw (validate_token, a, b) h
              | inr b ↦ elim (Bool-cases (not (looks_like_jwt token))) [
                | inl c ↦
                    rw (validate_token, a, b, c)
                      ((Keeps-if cfg.strict_jwt_only _ _ (Keeps-line _ _ _) (Keeps-line _ _ _)).at s
                        h)
                | inr c ↦
                    elim (Bool-cases
                      (trim_space cfg.jwks_url == "" && trim_space cfg.issuer == "")) [
                        | inl d ↦ rw (validate_token, a, b, c, d) ((Keeps-line _ _ _).at s h)
                        | inr d ↦ rw (validate_token, a, b, c, d) ((Keeps-jwt token).at s h)
                      ]
              ]
            ]
          ];
    }
