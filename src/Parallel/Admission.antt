-- ===== src/Parallel/Admission.antt =====
-- The strict validation while other goroutines run.
use go_mcp_oauth_sdk.Prelude.{
  ℕ, ◌≤◌, ◌<◌, String, ◌≡◌, true, false, not, List, inl, inr, arith, Bool-cases, Any,
}
use go_mcp_oauth_sdk.Prelude.Int.{pos, ltb_ℤ, IsInt64}
use go_mcp_oauth_sdk.Errors.{Failure, Result, ok, err}
use go_mcp_oauth_sdk.Config.{OauthConfig}
use go_mcp_oauth_sdk.Claims.{Claims}
use go_mcp_oauth_sdk.Env.{Env, IsRandom}
use go_mcp_oauth_sdk.Jwks.Cache.{TtlFits}
use go_mcp_oauth_sdk.Jwt.{looks_like_jwt}
use go_mcp_oauth_sdk.Strict.{
  StrictJwtPolicy, has_non_empty_expected_audience, unix, strict_with_keys, strict_error,
}
use go_mcp_oauth_sdk.Strict.Contract.{IsModest}
use go_mcp_oauth_sdk.Strict.Run.{Signed, strict_with_keys-Signed}
use go_mcp_oauth_sdk.Program.{Program, finished, after}
use go_mcp_oauth_sdk.Program.Safe.{Yields, OnSuccess, Safe-after, Safe-bind, Safe-if, Safe-verdict}
use go_mcp_oauth_sdk.Parallel.{map_error, strict_parsed_program, strict_program}
use go_mcp_oauth_sdk.Parallel.Origins.{IsIntact}
use go_mcp_oauth_sdk.Parallel.Fetches.{ReadSince, clock-Safe}
use go_mcp_oauth_sdk.Parallel.Provision.{Provided, relax-Provided}
use go_mcp_oauth_sdk.Parallel.Supply.{parse_and_fetch-Safe}

module _ {Key Token : Type 0} (env : Env Key Token) (cfg : OauthConfig) where
  -- Everything that a token has shown, in a call that began at `first`, and the reading of the clock
  -- in this call that gave the time.
  pub record Certified (token : String) (policy : StrictJwtPolicy) (first limit : ℕ)
      (claims : Claims) : Type 0 where
    pub compact : looks_like_jwt token ≡ true
    pub bounded : ltb_ℤ policy.leeway (pos 0) ≡ false
    pub parsed : Token
    pub keys : List Key
    pub call : ℕ
    pub since : first ≤ call
    pub until : call < limit
    pub provided : Provided env cfg token first limit (parsed, keys)
    pub signed : Any (Signed env cfg policy (unix (env.clock call)) parsed claims) keys

  -- Another error is no other result.
  map_error-OnSuccess :
      {A : Type 0} (Q : ℕ → A → Type 0) (f : Failure → Failure) (m : ℕ) (r : Result A)
      → OnSuccess (IsIntact env cfg) Q m r
      → OnSuccess (IsIntact env cfg) Q m (map_error f r)
  map_error-OnSuccess Q f m (ok a) q = q
  map_error-OnSuccess Q f m (err e) q = tt

  pub map_error-Safe :
      {A : Type 0} (Q : ℕ → A → Type 0) (f : Failure → Failure) (n : ℕ) (p : Program Key A)
      → Yields (IsIntact env cfg) Q n p
      → Yields (IsIntact env cfg) Q n (after p (λ r. finished (map_error f r)))
  map_error-Safe Q f n p h =
      let I = IsIntact env cfg in
      Safe-after I (OnSuccess I Q) (OnSuccess I Q) n p _ h
        (λ m r le q. map_error-OnSuccess Q f m r q)

  module _ (random : IsRandom env) (fits : TtlFits cfg)
      (modest : (call : ℕ) → IsModest (unix (env.clock call))) (token : String)
      (policy : StrictJwtPolicy) (bound : IsInt64 policy.leeway) where
    strict_parsed-Safe :
        (n : ℕ)
        → looks_like_jwt token ≡ true
        → ltb_ℤ policy.leeway (pos 0) ≡ false
        → Yields
            (IsIntact env cfg)
            (Certified token policy n)
            n
            (strict_parsed_program env token policy)
    unfolding strict_parsed_program
    strict_parsed-Safe n compact bounded =
        let I = IsIntact env cfg in
        let Q = Certified token policy n in
        Safe-bind I (Provided env cfg token n) Q n _ _
          (map_error-Safe (Provided env cfg token n) (strict_error env) n _
            (parse_and_fetch-Safe env cfg random fits n token))
          (λ m found le provided.
            Safe-bind I (ReadSince env cfg m) Q m _ _ (clock-Safe env cfg m) (λ k now le' read.
              let (call, since, until, told) = read in
              let verdict = strict_with_keys env policy (unix now) found.0 found.1 in
              Safe-verdict I Q k verdict (λ claims verified. record {
                compact = compact;
                bounded = bounded;
                parsed = found.0;
                keys = found.1;
                call = call;
                since = omega arith;
                until = omega arith;
                provided = relax-Provided env cfg n k (omega arith) (omega arith) provided;
                signed =
                    strict_with_keys-Signed env cfg policy (unix (env.clock call)) (modest call)
                      bound found.0 found.1 claims (rw told verified);
              })))

    -- Claims that `ValidateStrictJWT` returns are certified.
    pub strict-Safe :
        (n : ℕ)
        → Yields (IsIntact env cfg) (Certified token policy n) n (strict_program env token policy)
    unfolding strict_program
    strict-Safe n =
        let I = IsIntact env cfg in
        let listed = has_non_empty_expected_audience policy.expected_audiences in
        elim (Bool-cases (looks_like_jwt token)) [
          | inr loose ↦ rw loose tt
          | inl compact ↦ elim (Bool-cases (ltb_ℤ policy.leeway (pos 0))) [
            | inl negative ↦ rw (compact, negative) (Safe-if I _ n (not listed) _ _ tt tt)
            | inr bounded ↦
                rw (compact, bounded)
                  (Safe-if I _ n (not listed) _ _ tt (strict_parsed-Safe n compact bounded))
          ]
        ]
