-- ===== src/Parallel/Vetting.antt =====
-- The legacy validation while other goroutines run.
use go_mcp_oauth_sdk.Prelude.{
  ℕ, ◌≤◌, String, ◌≡◌, refl, ap, sym, true, false, not, ◌&&◌, Option, none, some, [], arith, ◌==◌,
}
use mathlib.Core.Path.{subst}
use go_mcp_oauth_sdk.Text.{trim_space}
use go_mcp_oauth_sdk.Errors.{Result, ok, err}
use go_mcp_oauth_sdk.Config.{OauthConfig}
use go_mcp_oauth_sdk.Claims.{Claims}
use go_mcp_oauth_sdk.Env.{Env, IsRandom}
use go_mcp_oauth_sdk.Verifier.{Level, log}
use go_mcp_oauth_sdk.Jwks.Cache.{TtlFits}
use go_mcp_oauth_sdk.Jwt.{looks_like_jwt, unwrap_header_error, verify_with_keys}
use go_mcp_oauth_sdk.Jwt.External.{verify_with_keys_iff}
use go_mcp_oauth_sdk.Strict.{unix}
use go_mcp_oauth_sdk.Validator.{
  Rejection, audience_rejection, time_rejection, scope_rejection, enforce, logged,
}
use go_mcp_oauth_sdk.Program.{finished, atomic, ◌>>=◌}
use go_mcp_oauth_sdk.Program.Safe.{
  Yields, OnSuccess, Safe-after, Safe-bind, Safe-if, Safe-when, Safe-more, Safe-verdict,
}
use go_mcp_oauth_sdk.Parallel.{
  external_program, claims_program, logged_after, jwt_program, token_program_with, token_program,
}
use go_mcp_oauth_sdk.Parallel.Origins.{IsIntact, IsIntact-later}
use go_mcp_oauth_sdk.Parallel.Fetches.{ReadSince, clock-Safe}
use go_mcp_oauth_sdk.Parallel.Provision.{Provided, relax-Provided}
use go_mcp_oauth_sdk.Parallel.Supply.{config-Safe, parse_and_fetch-Safe}
use go_mcp_oauth_sdk.Parallel.Admission.{map_error-Safe}
use go_mcp_oauth_sdk.Parallel.Approval.{
  Vetted, relax-Vetted, Passed, ApprovedIfAny, relax-ApprovedIfAny,
}

module _ {Key Token : Type 0} (env : Env Key Token) (cfg : OauthConfig) where
  enforce-Safe :
      (n : ℕ) (r : Option Rejection)
      → Yields (IsIntact env cfg) (λ m _. r ≡ none) n (atomic (enforce r))
  unfolding atomic enforce
  enforce-Safe n none = λ s i le. (IsIntact-later env cfg s _ i (ground arith), refl)
  enforce-Safe n (some (entry, e)) = λ s i le. (IsIntact-later env cfg s _ i (ground arith), tt)

  claims-Safe :
      (n : ℕ) (claims : Claims)
      → Yields
          (IsIntact env cfg)
          (λ m c. (claims ≡ c) × Passed env cfg n m c)
          n
          (claims_program env claims)
  unfolding claims_program
  claims-Safe n claims =
      let I = IsIntact env cfg in
      let Q = λ (m : ℕ) (c : Claims). (claims ≡ c) × Passed env cfg n m c in
      Safe-bind I (λ m c. c ≡ cfg) Q n _ _ (config-Safe env cfg n)
        (λ m c le same.
          Safe-bind I (λ k _. audience_rejection c claims ≡ none) Q m _ _ (enforce-Safe m _)
            (λ k _ le' _.
              Safe-bind I (ReadSince env cfg k) Q k _ _ (clock-Safe env cfg k) (λ l now le'' read.
                Safe-bind I (λ j _. time_rejection (unix now) claims ≡ none) Q l _ _
                  (enforce-Safe l _)
                  (λ j _ le3 timely.
                    Safe-bind I (λ i _. scope_rejection c claims ≡ none) Q j _ _ (enforce-Safe j _)
                      (λ i _ le4 scoped.
                        let (call, since, until, told) = read in
                        (
                          refl,
                          record {
                            call = call;
                            since = omega arith;
                            until = omega arith;
                            in_time = rw told timely;
                            scopes = rw (← same) scoped;
                          },
                        ))))))

  -- The log is no part of what is kept.
  logged_result-Safe :
      (Q : ℕ → Claims → Type 0)
      → ((m m' : ℕ) (c : Claims) → m ≤ m' → Q m c → Q m' c)
      → (m : ℕ) (r : Result Claims) → OnSuccess (IsIntact env cfg) Q m r
      → Yields (IsIntact env cfg) Q m (atomic (λ s. logged env (r, s)))
  unfolding atomic
  logged_result-Safe Q mono m (ok c) q =
      λ s i le. (IsIntact-later env cfg s _ i (ground arith), mono m s.calls c le q)
  logged_result-Safe Q mono m (err e) q =
      λ s i le. (IsIntact-later env cfg s _ i (ground arith), tt)

  -- An entry of the log and no claims.
  soft-Safe :
      (n : ℕ) (Q : ℕ → Option Claims → Type 0) (level : Level) (message : String)
      (r : Result (Option Claims))
      → ((m : ℕ) → OnSuccess (IsIntact env cfg) Q m r)
      → Yields (IsIntact env cfg) Q n (atomic (log level [] message) >>= λ _. finished r)
  unfolding atomic log
  soft-Safe n Q level message r always =
      let I = IsIntact env cfg in
      Safe-bind I (λ m _. Unit {0}) Q n _ _
        (λ s i le. (IsIntact-later env cfg s _ i (ground arith), tt)) (λ m _ le _. always m)

  module _ (random : IsRandom env) (fits : TtlFits cfg) where
    -- Claims that `ValidateUpstreamIdentityToken` returns are vetted.
    pub external-Safe :
        (n : ℕ) (token expected : String)
        → Yields
            (IsIntact env cfg)
            (Vetted env cfg token expected n)
            n
            (external_program env token expected)
    unfolding external_program
    external-Safe n token expected =
        let I = IsIntact env cfg in
        let Q = Vetted env cfg token expected n in
        Safe-bind I (Provided env cfg token n) Q n _ _
          (map_error-Safe env cfg (Provided env cfg token n) (unwrap_header_error env) n _
            (parse_and_fetch-Safe env cfg random fits n token))
          (λ m found le provided.
            Safe-bind I (λ k c. c ≡ cfg) Q m _ _ (config-Safe env cfg m)
              (λ k c le' same.
                let verdict = verify_with_keys env c expected found.0 false false false found.1 in
                Safe-verdict I Q k verdict (λ claims verified. record {
                  parsed = found.0;
                  keys = found.1;
                  provided = relax-Provided env cfg n k (omega arith) (omega arith) provided;
                  signed =
                      (verify_with_keys_iff env cfg expected found.0 found.1).1 claims
                        (rw (← same) verified);
                })))

    logged-Safe :
        (n : ℕ) (token expected : String)
        → Yields
            (IsIntact env cfg)
            (Vetted env cfg token expected n)
            n
            (logged_after env (external_program env token expected))
    unfolding logged_after
    logged-Safe n token expected =
        let I = IsIntact env cfg in
        let Q = Vetted env cfg token expected n in
        Safe-after I (OnSuccess I Q) (OnSuccess I Q) n _ _ (external-Safe n token expected)
          (λ m r le q.
            logged_result-Safe Q (λ k k' c later v. relax-Vetted env cfg n k' (omega arith) later v)
              m r q)

    jwt-Safe :
        (n : ℕ) (token : String)
        → cfg.enabled ≡ true
        → looks_like_jwt token ≡ true
        → Yields (IsIntact env cfg) (ApprovedIfAny env cfg token n) n (jwt_program env token)
    unfolding jwt_program
    jwt-Safe n token on compact =
        let I = IsIntact env cfg in
        let Q = ApprovedIfAny env cfg token n in
        Safe-bind I (λ m c. c ≡ cfg) Q n _ _ (config-Safe env cfg n)
          (λ m c le same.
            Safe-bind I (Vetted env cfg token c.audience m) Q m _ _ (logged-Safe m token c.audience)
              (λ k claims le' vetted.
                Safe-bind I (λ l d. (claims ≡ d) × Passed env cfg k l d) Q k _ _
                  (claims-Safe k claims)
                  (λ l d le'' passed.
                    let relaxed = relax-Vetted env cfg n l le (omega arith) vetted in
                    record {
                      enabled = on;
                      compact = compact;
                      vetted =
                          subst (λ e. Vetted env cfg token e n l d) (ap (λ g. g.audience) same)
                            (subst (Vetted env cfg token c.audience n l) passed.0 relaxed);
                      passed = record {
                        call = passed.1.call;
                        since = omega (arith, passed.1.since);
                        until = passed.1.until;
                        in_time = passed.1.in_time;
                        scopes = passed.1.scopes;
                      };
                    })))

    token_with-Safe :
        (n : ℕ) (token : String)
        → Yields
            (IsIntact env cfg)
            (ApprovedIfAny env cfg token n)
            n
            (token_program_with env cfg token)
    unfolding token_program_with
    token_with-Safe n token =
        let I = IsIntact env cfg in
        let Q = ApprovedIfAny env cfg token n in
        let no_endpoint = trim_space cfg.jwks_url == "" && trim_space cfg.issuer == "" in
        Safe-when I _ n (not cfg.enabled) _ _ (λ off. tt)
          (λ on. Safe-if I _ n (token == "") _ _ tt (
            Safe-when I _ n (not (looks_like_jwt token)) _ _
              (λ opaque.
                Safe-if I _ n cfg.strict_jwt_only _ _ (soft-Safe n Q _ _ _ (λ m. tt))
                  (soft-Safe n Q _ _ _ (λ m. tt)))
              (λ compact.
                Safe-if I _ n no_endpoint _ _ (soft-Safe n Q _ _ _ (λ m. tt))
                  (jwt-Safe n token (ground arith) (ground arith)))))

    -- Claims that `ValidateToken` returns are approved.
    pub token-Safe :
        (n : ℕ) (token : String)
        → Yields (IsIntact env cfg) (ApprovedIfAny env cfg token n) n (token_program env token)
    unfolding token_program
    token-Safe n token =
        let I = IsIntact env cfg in
        Safe-bind I (λ m c. c ≡ cfg) (ApprovedIfAny env cfg token n) n _ _ (config-Safe env cfg n)
          (λ m c le same.
            subst (λ c. Yields I (ApprovedIfAny env cfg token n) m (token_program_with env c token))
              (sym same)
              (Safe-more I (ApprovedIfAny env cfg token m) (ApprovedIfAny env cfg token n) m _
                (token_with-Safe m token)
                (λ k found le' approved.
                  relax-ApprovedIfAny env cfg token m k n found le approved)))
