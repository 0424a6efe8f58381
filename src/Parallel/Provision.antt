-- ===== src/Parallel/Provision.antt =====
-- Where the keys for a token come from, while other goroutines run.
use go_mcp_oauth_sdk.Prelude.{ℕ, ◌≤◌, String, ◌≡◌, ◌≢◌, List}
use go_mcp_oauth_sdk.Text.{trim_space}
use go_mcp_oauth_sdk.Errors.{ok}
use go_mcp_oauth_sdk.Config.{OauthConfig}
use go_mcp_oauth_sdk.Env.{AuthServerMeta, Env}
use go_mcp_oauth_sdk.Jwks.{discovered_uri}
use go_mcp_oauth_sdk.Jwks.Metadata.{issuer_key}
use go_mcp_oauth_sdk.Jwt.{parse_token}
use go_mcp_oauth_sdk.Jwt.Supply.{Chosen}
use go_mcp_oauth_sdk.Parallel.Fetches.{Fresh, relax-Fresh}
use go_mcp_oauth_sdk.Parallel.Discovery.{Known, relax-Known}

module _ {Key Token : Type 0} (env : Env Key Token) (cfg : OauthConfig) where
  -- The URI is the configured one, or there is none and it is named by metadata of the configured
  -- issuer.
  pub data Names (first limit : ℕ) (uri : String) : Type 0 where
    explicit : trim_space cfg.jwks_url ≢ "" → trim_space cfg.jwks_url ≡ uri → Names first limit uri
    discovered :
        (meta : AuthServerMeta)
        → trim_space cfg.jwks_url ≡ ""
        → Known env cfg first (issuer_key (trim_space cfg.issuer)) limit meta
        → discovered_uri env meta ≡ ok uri
        → Names first limit uri

  pub relax-Names :
      {first limit : ℕ} {uri : String} (first' limit' : ℕ)
      → first' ≤ first
      → limit ≤ limit'
      → Names first limit uri
      → Names first' limit' uri
  relax-Names first' limit' earlier later (explicit given same) = explicit given same
  relax-Names first' limit' earlier later (discovered meta none_given known named) =
      discovered meta none_given (relax-Known env cfg first' limit' earlier later known) named

  -- A choice by the key id from a key set of the URI that is recent.
  pub record Offered (first : ℕ) (uri key_id : String) (limit : ℕ) (keys : List Key) : Type 0 where
    pub set : List Key
    pub fresh : Fresh env cfg first uri limit set
    pub chosen : Chosen env cfg key_id keys set

  -- Where the keys for a token come from, in a call that began at `first`: a recent key set of the
  -- configured or discovered URI, and the token's key id.
  pub record Provided (token : String) (first limit : ℕ) (found : Token × List Key) : Type 0 where
    pub uri : String
    pub key_id : String
    pub named : Names first limit uri
    pub read : parse_token env token ≡ ok (found.0, key_id)
    pub offered : Offered first uri key_id limit found.1

  pub relax-Provided :
      {token : String} {first limit : ℕ} {found : Token × List Key} (first' limit' : ℕ)
      → first' ≤ first
      → limit ≤ limit'
      → Provided token first limit found
      → Provided token first' limit' found
  relax-Provided first' limit' earlier later p = record {
    uri = p.uri;
    key_id = p.key_id;
    named = relax-Names first' limit' earlier later p.named;
    read = p.read;
    offered = record {
      set = p.offered.set;
      fresh = relax-Fresh env cfg first' limit' earlier later p.offered.fresh;
      chosen = p.offered.chosen;
    };
  }
