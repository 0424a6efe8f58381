-- ===== src/Validator/Run.antt =====
-- A whole run of the legacy validation that returns claims.
use mathlib.Core.Path.{subst}
use go_mcp_oauth_sdk.Prelude.{
  ℕ, ◌≤◌, String, arith, ◌≡◌, refl, ap, false, Option, none, some, List, Any,
}
use go_mcp_oauth_sdk.Errors.{Result, ok, err}
use go_mcp_oauth_sdk.Config.{OauthConfig}
use go_mcp_oauth_sdk.Claims.{Claims}
use go_mcp_oauth_sdk.Env.{Env, IsRandom}
use go_mcp_oauth_sdk.Verifier.{Verifier, System, Action, lift, get_verifier, ◌>>=◌}
use go_mcp_oauth_sdk.Verifier.Runs.{bind_inv}
use go_mcp_oauth_sdk.Jwks.Cache.{TtlFits, IsCoherent}
use go_mcp_oauth_sdk.Jwt.{
  parse_and_fetch_keys, unwrapped, parse_and_verify_external_jwt, verify_with_keys,
}
use go_mcp_oauth_sdk.Jwt.External.{Accepts, verify_with_keys_iff}
use go_mcp_oauth_sdk.Jwt.Kept.{IsCoherent-IsKept, Keeps-unwrapped}
use go_mcp_oauth_sdk.Jwt.Supply.{Supplied, relax-Supplied, parse_and_fetch_keys-Supplied}
use go_mcp_oauth_sdk.Validator.{Rejection, enforce, logged, validate_upstream_identity_token}

enforce_inv :
    {Key : Type 0} (r : Option Rejection) (s : System Key)
    → (enforce r s).0 ≡ ok tt
    → (r ≡ none) × ((enforce r s).1 ≡ s)
unfolding enforce
enforce_inv none s h = (refl, refl)
enforce_inv (some x) s h = cc

module _ {Key Token : Type 0} (env : Env Key Token) (cfg : OauthConfig) where
  -- A token signed by a key that was recently downloaded, as of a run from `s` whose calls come before
  -- `last`, over claims that suit the configured issuer and the expected audience.
  pub record Attested (s : System Key) (last : ℕ) (token expected : String) (claims : Claims)
      : Type 0 where
    pub parsed : Token
    pub keys : List Key
    pub supplied : Supplied env cfg s last token parsed keys
    pub signed : Any (Accepts env cfg expected parsed claims) keys

  pub relax-Attested :
      {s : System Key} {last : ℕ} {token expected : String} {claims : Claims} (last' : ℕ)
      → last ≤ last'
      → Attested s last token expected claims
      → Attested s last' token expected claims
  relax-Attested last' later a = record {
    parsed = a.parsed;
    keys = a.keys;
    supplied = relax-Supplied env cfg last' later a.supplied;
    signed = a.signed;
  }

  unwrapped_ok :
      {A : Type 0} (r : Result A × System Key) (a : A)
      → (unwrapped env r).0 ≡ ok a
      → r ≡ (ok a, (unwrapped env r).1)
  unwrapped_ok (ok b, s) a h = rw h refl
  unwrapped_ok (err e, s) a h = cc

  pub logged_ok :
      (r : Result Claims × System Key) (a : Claims)
      → (logged env r).0 ≡ ok a
      → r ≡ (ok a, (logged env r).1)
  logged_ok (ok b, s) a h = rw h refl
  logged_ok (err e, s) a h = cc

  pub with_verifier :
      {A : Type 0} (f : Verifier Key → Action Key A) (s : System Key)
      → (get_verifier >>= f) s ≡ f s.verifier s
  unfolding get_verifier ◌>>=◌
  with_verifier f s = refl

  abbrev pub logged_external : String → String → Action Key Claims
  logged_external token expected s = logged env (parse_and_verify_external_jwt env token expected s)

  -- The verification reads the configuration that the verifier was made with.
  verified_with :
      (parsed : Token) (keys : List Key) (expected : String) (claims : Claims) (s t : System Key)
      → s.verifier.cfg ≡ cfg
      → (get_verifier
            >>= (λ v. lift (verify_with_keys env v.cfg expected parsed false false false keys)))
          s
        ≡ (ok claims, t)
      → verify_with_keys env cfg expected parsed false false false keys ≡ ok claims
  unfolding get_verifier ◌>>=◌
  verified_with parsed keys expected claims s t same run =
      subst (λ c. verify_with_keys env c expected parsed false false false keys ≡ ok claims) same
        (ap (λ r. r.0) run)

  -- The verification calls nothing.
  verified_calls :
      (parsed : Token) (keys : List Key) (expected : String) {claims : Claims} (s : System Key)
      {t : System Key}
      → (get_verifier
            >>= (λ v. lift (verify_with_keys env v.cfg expected parsed false false false keys)))
          s
        ≡ (ok claims, t)
      → s.calls ≡ t.calls
  unfolding get_verifier ◌>>=◌
  verified_calls parsed keys expected s run = ap (λ r. r.1.calls) run

  module _ (random : IsRandom env) (fits : TtlFits cfg) where
    -- From a coherent cache, `ValidateUpstreamIdentityToken` returns claims only for a token that
    -- one of the keys for its key id verifies, over claims that suit the issuer and the expected
    -- audience. The keys were downloaded from the URI that the run resolves, at most eleven tenths
    -- of the time to live before a reading of the clock in this run. Nothing is said of the token's
    -- times. The random numbers are below their bound, and the time to live fits.
    pub validate_upstream_identity_token-Attested :
        (token expected : String) (claims : Claims) (s t : System Key)
        → IsCoherent env cfg s
        → validate_upstream_identity_token env token expected s ≡ (ok claims, t)
        → Attested s t.calls token expected claims
    unfolding validate_upstream_identity_token parse_and_verify_external_jwt
    validate_upstream_identity_token-Attested token expected claims s t h run =
        let s1 = (unwrapped env (parse_and_fetch_keys env token s)).1 in
        let (p, fetched, run1) =
          bind_inv (λ s. unwrapped env (parse_and_fetch_keys env token s)) _ s run in
        record {
          parsed = p.0;
          keys = p.1;
          supplied =
              relax-Supplied env cfg t.calls
                (omega (arith, verified_calls p.0 p.1 expected s1 run1))
                (parse_and_fetch_keys-Supplied env cfg random fits token p.0 p.1 s s1 h
                  (unwrapped_ok (parse_and_fetch_keys env token s) p fetched));
          signed = (verify_with_keys_iff env cfg expected p.0 p.1).1 claims (
              verified_with p.0 p.1 expected claims s1 t
                ((Keeps-unwrapped env (IsCoherent-IsKept env cfg random fits) token).at s
                  h).configured
                run1);
        }
