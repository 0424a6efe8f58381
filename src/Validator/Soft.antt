-- ===== src/Validator/Soft.antt =====
-- Which bearers `ValidateToken` lets through without validating them.
use go_mcp_oauth_sdk.Prelude.{
  String, ◌≡◌, ◌≢◌, ◌↔◌, refl, ap, true, false, none, some, inl, inr, arith, eq_iff, Bool-cases,
  eq-cases,
}
use go_mcp_oauth_sdk.Text.{trim_space}
use go_mcp_oauth_sdk.Errors.{ok}
use go_mcp_oauth_sdk.Config.{OauthConfig}
use go_mcp_oauth_sdk.Env.{Env}
use go_mcp_oauth_sdk.Verifier.{System, log, get_verifier, ◌>>=◌}
use go_mcp_oauth_sdk.Verifier.Runs.{bind_inv, pure_inv}
use go_mcp_oauth_sdk.Jwt.{looks_like_jwt}
use go_mcp_oauth_sdk.Validator.{validate_claims, validate_jwt, validate_token}

-- Neither a JWKS URL nor an issuer: there is no key to validate with.
abbrev pub HasNoKeys : OauthConfig → Type 0
HasNoKeys cfg = (trim_space cfg.jwks_url ≡ "") × (trim_space cfg.issuer ≡ "")

-- The bearers that pass unvalidated.
pub data Unchecked (cfg : OauthConfig) (token : String) : Type 0 where
  disabled : cfg.enabled ≡ false → Unchecked cfg token
  opaque :
      token ≢ "" → looks_like_jwt token ≡ false → cfg.strict_jwt_only ≡ false → Unchecked cfg token
  keyless : token ≢ "" → looks_like_jwt token ≡ true → HasNoKeys cfg → Unchecked cfg token

module _ {Key Token : Type 0} (env : Env Key Token) where
  some≢none : {A : Type 0} (a : A) → some a ≢ none
  some≢none a h = cc

  -- What `validate_jwt` returns is claims.
  validate_jwt-some : (token : String) (s : System Key) → (validate_jwt env token s).0 ≢ ok none
  unfolding validate_jwt get_verifier
  validate_jwt-some token s h =
      let t = (validate_jwt env token s).1 in
      let (v, _, run1) = bind_inv get_verifier _ s (ap (λ r. (r, t)) h) in
      let (claims, _, run2) = bind_inv _ _ s run1 in
      let (validated, _, run3) = bind_inv (validate_claims env claims) _ _ run2 in
      some≢none validated (pure_inv (some validated) none _ t run3)

  validate_token-soft :
      (token : String) (s : System Key)
      → (validate_token env token s).0 ≡ ok none
      → Unchecked s.verifier.cfg token
  unfolding validate_token log ◌>>=◌
  validate_token-soft token s h = elim (Bool-cases s.verifier.cfg.enabled) [
    | inr off ↦ disabled off
    | inl on ↦ elim (eq-cases token "") [
      | inl (e, _) ↦ ground (arith, on, e)
      | inr (e, ne) ↦ elim (Bool-cases (looks_like_jwt token)) [
        | inr o ↦ opaque ne o (ground (arith, on, e, o))
        | inl j ↦
            let no_url = eq_iff (trim_space s.verifier.cfg.jwks_url) "" in
            let no_issuer = eq_iff (trim_space s.verifier.cfg.issuer) "" in
            let never = validate_jwt-some token s in
            keyless ne j (ground (arith, on, e, j), ground (arith, on, e, j))
      ]
    ]
  ]

  validate_token-Unchecked :
      (token : String) (s : System Key)
      → Unchecked s.verifier.cfg token
      → (validate_token env token s).0 ≡ ok none
  unfolding validate_token log ◌>>=◌
  validate_token-Unchecked token s (disabled off) = rw off refl
  validate_token-Unchecked token s (opaque ne o l) = let e = eq_iff token "" in ground (arith, o, l)
  validate_token-Unchecked token s (keyless ne j (a, b)) =
      let e = eq_iff token "" in
      let ea = eq_iff (trim_space s.verifier.cfg.jwks_url) "" in
      let eb = eq_iff (trim_space s.verifier.cfg.issuer) "" in ground (arith)

  -- `ValidateToken` returns neither claims nor an error, from any state, exactly where OAuth is off,
  -- or the token is not empty and is either opaque while opaque bearers are allowed, or a JWT for
  -- which neither a JWKS URL nor an issuer is configured.
  pub validate_token-soft_iff :
      (token : String) (s : System Key)
      → ((validate_token env token s).0 ≡ ok none) ↔ Unchecked s.verifier.cfg token
  validate_token-soft_iff token s = (validate_token-soft token s, validate_token-Unchecked token s)
