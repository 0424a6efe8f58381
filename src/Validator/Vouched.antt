-- ===== src/Validator/Vouched.antt =====
-- What `ValidateToken` has seen of a token that it returns claims for.
use mathlib.Core.Path.{subst}
use go_mcp_oauth_sdk.Prelude.{
  ℕ, ◌+◌, ◌≤◌, ◌<◌, String, ◌≡◌, sym, ap, ◌∙◌, true, ◌&&◌, Option, none, some, inl, inr, arith,
  ◌==◌, Bool-cases, All, In, Option-cases,
}
use go_mcp_oauth_sdk.Text.{trim_space}
use go_mcp_oauth_sdk.Errors.{Result, ok}
use go_mcp_oauth_sdk.Config.{OauthConfig}
use go_mcp_oauth_sdk.Claims.{Claims}
use go_mcp_oauth_sdk.Env.{Env, IsRandom}
use go_mcp_oauth_sdk.Verifier.{System, log, get_verifier, ◌>>=◌}
use go_mcp_oauth_sdk.Verifier.Runs.{bind_inv, pure_inv, fail_inv}
use go_mcp_oauth_sdk.Jwks.{time_now}
use go_mcp_oauth_sdk.Jwks.Cache.{TtlFits, IsCoherent}
use go_mcp_oauth_sdk.Jwt.{looks_like_jwt, parse_and_verify_external_jwt}
use go_mcp_oauth_sdk.Strict.{unix}
use go_mcp_oauth_sdk.Validator.{
  audience_rejection, time_rejection, scope_rejection, enforce, validate_claims, validate_jwt,
  validate_token, validate_upstream_identity_token,
}
use go_mcp_oauth_sdk.Validator.Times.{HasRoom, InTime, time_rejection_iff, scope_rejection_iff}
use go_mcp_oauth_sdk.Jwt.Kept.{IsCoherent-IsKept}
use go_mcp_oauth_sdk.Jwt.Counts.{Counted-IsKept}
use go_mcp_oauth_sdk.Validator.Kept.{Keeps-logged}
use go_mcp_oauth_sdk.Validator.Run.{
  Attested, relax-Attested, logged_external, logged_ok, with_verifier,
  validate_upstream_identity_token-Attested,
}

module _ {Key Token : Type 0} (env : Env Key Token) (cfg : OauthConfig) where
  -- What a token has shown that the legacy path returns claims for, in a run from `s` to `t`, and the
  -- call of the clock in this run that gave the time.
  pub record Vouched (s t : System Key) (token : String) (claims : Claims) : Type 0 where
    pub enabled : cfg.enabled ≡ true
    pub compact : looks_like_jwt token ≡ true
    pub attested : Attested env cfg s t.calls token cfg.audience claims
    pub call : ℕ
    pub since : s.calls ≤ call
    pub until : call < t.calls
    pub in_time : InTime (unix (env.clock call)) claims
    pub scopes : All (λ s. In s claims.scopes) cfg.required_scopes

  -- The last two checks of `ValidateClaims`, passed.
  record Checked (s t : System Key) (claims c : Claims) : Type 0 where
    same : claims ≡ c
    call : ℕ
    since : s.calls ≤ call
    until : call < t.calls
    in_time : time_rejection (unix (env.clock call)) claims ≡ none
    scopes : scope_rejection cfg claims ≡ none

  read_clock :
      (claims c : Claims) (s t : System Key)
      → ◌≡◌ {A = Result Claims × System Key} (ok claims, record s { calls = s.calls + 1 }) (ok c, t)
      → s.calls + 1 ≡ t.calls
  read_clock claims c s t run = ap (λ r. r.1.calls) run

  validate_claims-Checked :
      (claims c : Claims) (s t : System Key)
      → s.verifier.cfg ≡ cfg
      → validate_claims env claims s ≡ (ok c, t)
      → Checked s t claims c
  unfolding validate_claims enforce get_verifier time_now ◌>>=◌
  validate_claims-Checked claims c s t configured run =
      let now = unix (env.clock s.calls) in
      elim (Option-cases (audience_rejection s.verifier.cfg claims)) [
        | inr (x, a) ↦ absurd (fail_inv (rw a at run))
        | inl a ↦ elim (Option-cases (time_rejection now claims)) [
          | inr (x, b) ↦ absurd (fail_inv (rw (a, b) at run))
          | inl b ↦ elim (Option-cases (scope_rejection s.verifier.cfg claims)) [
            | inr (x, d) ↦ absurd (fail_inv (rw (a, b, d) at run))
            | inl d ↦ record {
              same = pure_inv claims c _ t (rw (a, b, d) at run);
              call = s.calls;
              since = omega arith;
              until = omega (arith, read_clock claims c s t (rw (a, b, d) at run));
              in_time = b;
              scopes = rw configured at d;
            }
          ]
        ]
      ]

  module _ (random : IsRandom env) (fits : TtlFits cfg)
      (clock_room : (call : ℕ) → HasRoom (unix (env.clock call))) where
    -- the claims of `validate_jwt`
    record Validated (s t : System Key) (token : String) (c : Claims) : Type 0 where
      attested : Attested env cfg s t.calls token cfg.audience c
      between : System Key
      later : s.calls ≤ between.calls
      checked : Checked between t c c

    some_inv : {a b : Claims} → some a ≡ some b → a ≡ b
    some_inv h = cc

    validate_jwt-Validated :
        (token : String) (c : Claims) (s t : System Key)
        → IsCoherent env cfg s
        → validate_jwt env token s ≡ (ok (some c), t)
        → Validated s t token c
    unfolding validate_jwt validate_upstream_identity_token
    validate_jwt-Validated token c s t h run =
        let run1 = sym (with_verifier env cfg _ s) ∙ run in
        let attempt = logged_external env cfg token s.verifier.cfg.audience in
        let (claims, verified, run2) = bind_inv attempt _ s run1 in
        let s2 = (attempt s).1 in
        let h2 =
          (Keeps-logged env (IsCoherent-IsKept env cfg random fits) token
              s.verifier.cfg.audience).at
            s h in
        let (d, checked, run3) = bind_inv (validate_claims env claims) _ s2 run2 in
        let s3 = (validate_claims env claims s2).1 in
        let k = validate_claims-Checked claims d s2 s3 h2.configured (ap (λ r. (r, s3)) checked) in
        let same : d ≡ c = some_inv (pure_inv (some d) (some c) s3 t run3) in
        let ended : s3 ≡ t = ap (λ r. r.1) run3 in
        let counted : s3.calls ≡ t.calls = ap (λ u. u.calls) ended in
        let attested = relax-Attested env cfg t.calls (omega (arith, k.since, k.until, counted)) (
          validate_upstream_identity_token-Attested env cfg random fits token
            s.verifier.cfg.audience claims s s2 h
            (logged_ok env cfg (parse_and_verify_external_jwt env token s.verifier.cfg.audience s)
              claims verified)) in
        record {
          attested =
              subst (λ e. Attested env cfg s t.calls token e c) (ap (λ g. g.audience) h.configured)
                (subst (Attested env cfg s t.calls token s.verifier.cfg.audience) (k.same ∙ same)
                  attested);
          between = s2;
          later =
              (Keeps-logged env (Counted-IsKept env s.calls) token s.verifier.cfg.audience).at s
                (omega arith);
          checked =
              subst (λ u. Checked s2 u c c) ended
                (subst (λ d. Checked s2 s3 d d) same (subst (λ e. Checked s2 s3 e d) k.same k));
        }

    none_inv :
        {c : Claims} {s t : System Key}
        → ◌≡◌ {A = Result (Option Claims) × System Key} (ok none, s) (ok (some c), t)
        → ⊥
    none_inv h = ground arith

    validate_token-jwt :
        (token : String) (c : Claims) (s t : System Key)
        → validate_token env token s ≡ (ok (some c), t)
        → (s.verifier.cfg.enabled ≡ true)
          × (looks_like_jwt token ≡ true)
          × (validate_jwt env token s ≡ (ok (some c), t))
    unfolding validate_token log ◌>>=◌
    validate_token-jwt token c s t run = elim (Bool-cases s.verifier.cfg.enabled) [
      | inr off ↦ ground (arith, off)
      | inl on ↦ elim (Bool-cases (token == "")) [
        | inl e ↦ ground (arith, on, e)
        | inr e ↦ elim (Bool-cases (looks_like_jwt token)) [
          | inr o ↦ ground (arith, on, e, o)
          | inl j ↦
              elim (Bool-cases (
                trim_space s.verifier.cfg.jwks_url == ""
                && trim_space s.verifier.cfg.issuer == "")) [
                  | inl k ↦ absurd (none_inv (rw (validate_token, on, e, j, k) at run))
                  | inr k ↦ (on, j, ground (arith, on, e, j, k))
                ]
        ]
      ]
    ]

    -- From a coherent cache, `ValidateToken` returns claims only where OAuth is on and for a
    -- compact token that one of the keys for its key id verifies, over claims that suit the
    -- configured issuer and audience, that hold every required scope, and of which, at a time that
    -- the clock gave in this run, a positive exp is at most sixty seconds ago and a positive nbf or
    -- iat at most sixty seconds ahead. The keys were downloaded from the URI that the run resolves,
    -- at most eleven tenths of the time to live before a reading of the clock in this run. The
    -- random numbers are below their bound, the time to live fits, and sixty seconds can be added
    -- to exp and to the clock's times without overflow.
    pub validate_token-Vouched :
        (token : String) (c : Claims) (s t : System Key)
        → HasRoom c.expires_at
        → IsCoherent env cfg s
        → validate_token env token s ≡ (ok (some c), t)
        → Vouched s t token c
    validate_token-Vouched token c s t room h run =
        let (on, compact, run') = validate_token-jwt token c s t run in
        let v = validate_jwt-Validated token c s t h run' in
        let k = v.checked in
        record {
          enabled = sym (ap (λ g. g.enabled) h.configured) ∙ on;
          compact = compact;
          attested = v.attested;
          call = k.call;
          since = omega (arith, v.later, k.since);
          until = k.until;
          in_time =
              (time_rejection_iff (unix (env.clock k.call)) c (clock_room k.call) room).0 k.in_time;
          scopes = (scope_rejection_iff cfg c).0 k.scopes;
        }
