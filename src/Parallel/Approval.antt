-- ===== src/Parallel/Approval.antt =====
-- What the legacy validation returns claims for, while other goroutines run.
use go_mcp_oauth_sdk.Prelude.{ℕ, ◌≤◌, ◌<◌, String, ◌≡◌, true, Option, none, some, List, arith, Any}
use go_mcp_oauth_sdk.Config.{OauthConfig}
use go_mcp_oauth_sdk.Claims.{Claims}
use go_mcp_oauth_sdk.Env.{Env}
use go_mcp_oauth_sdk.Jwt.{looks_like_jwt}
use go_mcp_oauth_sdk.Jwt.External.{Accepts}
use go_mcp_oauth_sdk.Strict.{unix}
use go_mcp_oauth_sdk.Validator.{time_rejection, scope_rejection}
use go_mcp_oauth_sdk.Parallel.Provision.{Provided, relax-Provided}

module _ {Key Token : Type 0} (env : Env Key Token) (cfg : OauthConfig) where
  -- A token signed by a recent key, over claims that suit the issuer and the expected audience.
  pub record Vetted (token expected : String) (first limit : ℕ) (claims : Claims) : Type 0 where
    pub parsed : Token
    pub keys : List Key
    pub provided : Provided env cfg token first limit (parsed, keys)
    pub signed : Any (Accepts env cfg expected parsed claims) keys

  pub relax-Vetted :
      {token expected : String} {first limit : ℕ} {claims : Claims} (first' limit' : ℕ)
      → first' ≤ first
      → limit ≤ limit'
      → Vetted token expected first limit claims
      → Vetted token expected first' limit' claims
  relax-Vetted first' limit' earlier later v = record {
    parsed = v.parsed;
    keys = v.keys;
    provided = relax-Provided env cfg first' limit' earlier later v.provided;
    signed = v.signed;
  }

  -- The last checks, passed at a time that the clock gave since `first`.
  pub record Passed (first limit : ℕ) (claims : Claims) : Type 0 where
    pub call : ℕ
    pub since : first ≤ call
    pub until : call < limit
    pub in_time : time_rejection (unix (env.clock call)) claims ≡ none
    pub scopes : scope_rejection cfg claims ≡ none

  -- What `ValidateToken` returns claims for: OAuth is on, and a compact token was vetted for the
  -- configured audience and passed the last checks.
  pub record Approved (token : String) (first limit : ℕ) (claims : Claims) : Type 0 where
    pub enabled : cfg.enabled ≡ true
    pub compact : looks_like_jwt token ≡ true
    pub vetted : Vetted token cfg.audience first limit claims
    pub passed : Passed first limit claims

  -- The soft pass promises nothing.
  abbrev pub ApprovedIfAny : String → ℕ → ℕ → Option Claims → Type 0
  ApprovedIfAny token first limit none = Unit {0}
  ApprovedIfAny token first limit (some claims) = Approved token first limit claims

  pub relax-ApprovedIfAny :
      (token : String) (first limit first' : ℕ) (found : Option Claims)
      → first' ≤ first
      → ApprovedIfAny token first limit found
      → ApprovedIfAny token first' limit found
  relax-ApprovedIfAny token first limit first' none earlier a = tt
  relax-ApprovedIfAny token first limit first' (some claims) earlier a = record {
    enabled = a.enabled;
    compact = a.compact;
    vetted = relax-Vetted first' limit earlier (omega arith) a.vetted;
    passed = record {
      call = a.passed.call;
      since = omega (arith, a.passed.since);
      until = a.passed.until;
      in_time = a.passed.in_time;
      scopes = a.passed.scopes;
    };
  }
