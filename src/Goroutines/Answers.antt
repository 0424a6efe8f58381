-- ===== src/Goroutines/Answers.antt =====
-- What the answers of the exported methods show, however the calls interleave.
use go_mcp_oauth_sdk.Prelude.{ℕ, ◌≤◌, ◌<◌, String, ◌≡◌, true, some, List, All, In}
use go_mcp_oauth_sdk.Errors.{ok}
use go_mcp_oauth_sdk.Config.{OauthConfig}
use go_mcp_oauth_sdk.Claims.{Claims}
use go_mcp_oauth_sdk.Env.{AuthServerMeta, Env, IsRandom}
use go_mcp_oauth_sdk.Jwks.Cache.{TtlFits}
use go_mcp_oauth_sdk.Jwks.Metadata.{issuer_key}
use go_mcp_oauth_sdk.Jwt.{looks_like_jwt}
use go_mcp_oauth_sdk.Strict.{StrictJwtPolicy, unix}
use go_mcp_oauth_sdk.Strict.Contract.{IsModest}
use go_mcp_oauth_sdk.Validator.Times.{HasRoom, InTime, time_rejection_iff, scope_rejection_iff}
use go_mcp_oauth_sdk.Parallel.Discovery.{Known}
use go_mcp_oauth_sdk.Parallel.Admission.{Certified}
use go_mcp_oauth_sdk.Parallel.Approval.{Vetted}
use go_mcp_oauth_sdk.Api.{fetch_metadata, validate, validate_strict}
use go_mcp_oauth_sdk.Goroutines.{metadata, validated, admitted, answered, Turn, take_turns, gather}
use go_mcp_oauth_sdk.Goroutines.Safety.{Fits, vouched}

module _ {Key Token : Type 0} (env : Env Key Token) (cfg : OauthConfig) where
  -- What the legacy path has seen of a token, in a call that began at `first`.
  pub record Confirmed (token : String) (first limit : ℕ) (claims : Claims) : Type 0 where
    pub enabled : cfg.enabled ≡ true
    pub compact : looks_like_jwt token ≡ true
    pub vetted : Vetted env cfg token cfg.audience first limit claims
    pub call : ℕ
    pub since : first ≤ call
    pub until : call < limit
    pub in_time : InTime (unix (env.clock call)) claims
    pub scopes : All (λ s. In s claims.scopes) cfg.required_scopes

module _ {Key Token : Type 0} (env : Env Key Token) (cfg : OauthConfig) (random : IsRandom env)
    (fits : TtlFits cfg) (modest : (call : ℕ) → IsModest (unix (env.clock call))) where
  -- Whatever calls of the exported methods goroutines make on a new verifier, and however these
  -- interleave: claims that `ValidateStrictJWT` returns are the projection of signed ones that
  -- meet the policy at a time that the clock gave since this call began, and hold every
  -- required scope. The token is compact, and a key for its key id, or any key where it has
  -- none, verifies it. The keys came from the configured URI or, where there is none, from one
  -- that metadata of the configured issuer name, and a reading of the clock before their
  -- download was at most eleven tenths of the time to live before one since this call began.
  -- The random numbers are below their bound, the time to live and every leeway fit, and the
  -- clock is less than 2 ^ 62 seconds from 1970.
  pub admitted-Certified :
      (turns : List Turn) (i first : ℕ) (token : String) (policy : StrictJwtPolicy)
      (claims : Claims)
      → All Fits turns
      → (take_turns env (gather cfg) turns).task i
        ≡ answered first (validate_strict token policy) (ok (admitted claims))
      → (n : ℕ) × (n ≤ (take_turns env (gather cfg) turns).shared.calls)
        × Certified env cfg token policy first n claims
  admitted-Certified turns i first token policy claims fit e =
      vouched env cfg random fits modest turns i first (validate_strict token policy)
        (admitted claims) fit e

  -- Whatever calls of the exported methods goroutines make on a new verifier, and however these
  -- interleave: claims that `ValidateToken` returns are those of a compact token, with OAuth
  -- on, that a key for its key id, or any key where it has none, verifies. They suit the
  -- configured issuer and audience and hold every required scope, and at a time that the clock
  -- gave since this call began, a positive exp is at most sixty seconds ago and a positive nbf
  -- or iat at most sixty seconds ahead. The keys came from the configured URI or, where there
  -- is none, from one that metadata of the configured issuer name, and a reading of the clock
  -- before their download was at most eleven tenths of the time to live before one since this
  -- call began. The random numbers are below their bound, the time to live and every leeway
  -- fit, the clock is less than 2 ^ 62 seconds from 1970, and sixty seconds can be added to exp
  -- and to the clock's times without overflow.
  pub validated-Confirmed :
      (turns : List Turn) (i first : ℕ) (token : String) (claims : Claims)
      → ((call : ℕ) → HasRoom (unix (env.clock call)))
      → HasRoom claims.expires_at
      → All Fits turns
      → (take_turns env (gather cfg) turns).task i
        ≡ answered first (validate token) (ok (validated (some claims)))
      → (n : ℕ) × (n ≤ (take_turns env (gather cfg) turns).shared.calls)
        × Confirmed env cfg token first n claims
  validated-Confirmed turns i first token claims clock_room room fit e =
      let (n, known, a) =
        vouched env cfg random fits modest turns i first (validate token) (validated (some claims))
          fit e in
      let call = a.passed.call in
      (
        n,
        known,
        record {
          enabled = a.enabled;
          compact = a.compact;
          vetted = a.vetted;
          call = call;
          since = a.passed.since;
          until = a.passed.until;
          in_time =
              (time_rejection_iff (unix (env.clock call)) claims (clock_room call) room).0
                a.passed.in_time;
          scopes = (scope_rejection_iff cfg claims).0 a.passed.scopes;
        },
      )

  -- Whatever calls of the exported methods goroutines make on a new verifier, and however these
  -- interleave: metadata that `FetchAuthServerMeta` returns for an issuer were discovered for
  -- that issuer, without white space and trailing slashes, by this call itself, or earlier,
  -- where a reading of the clock after the discovery was at most eleven tenths of the time to
  -- live before one since this call began. The random numbers are below their bound, the time
  -- to live and every leeway fit, and the clock is less than 2 ^ 62 seconds from 1970.
  pub metadata-Known :
      (turns : List Turn) (i first : ℕ) (issuer : String) (meta : AuthServerMeta)
      → All Fits turns
      → (take_turns env (gather cfg) turns).task i
        ≡ answered first (fetch_metadata issuer) (ok (metadata meta))
      → (n : ℕ) × (n ≤ (take_turns env (gather cfg) turns).shared.calls)
        × Known env cfg first (issuer_key issuer) n meta
  metadata-Known turns i first issuer meta fit e =
      vouched env cfg random fits modest turns i first (fetch_metadata issuer) (metadata meta) fit e
