-- ===== src/Env.antt =====
-- What the verifier reaches outside this repository: the JOSE library, HTTP, the clock and the
-- random numbers. Each is a parameter, and each call of the outside world has a number, so that
-- a network, a clock and a generator of any behaviour are functions of it.
use go_mcp_oauth_sdk.Prelude.{ℕ, ◌<◌, String, Option, List}
use go_mcp_oauth_sdk.Errors.{Result}
use go_mcp_oauth_sdk.Json.{Object}
use go_mcp_oauth_sdk.Platform.{Platform}

-- The `jose` algorithms that the SDK names.
pub data Algorithm : Type 0 where
  rs256 rs384 rs512 es256 es384 es512 ps256 ps384 ps512 ed_dsa hs256 : Algorithm

-- go-jose: a signed token is parsed, its headers name keys, and its claims are decoded where a key
-- verifies its signature. `find_keys` is `JSONWebKeySet.Key`.
pub record Jose (Key Token : Type 0) : Type 0 where
  pub parse_signed : String → List Algorithm → Result Token
  pub header_key_ids : Token → List String
  pub verified_claims : Token → Key → Option Object
  pub find_keys : List Key → String → List Key

-- What a GET of the JWKS document comes to: no request could be built, no response came, the body
-- could not be read, or a status with a body that does or does not decode.
pub data Body (Key : Type 0) : Type 0 where
  malformed : String → Body Key
  key_set : List Key → Body Key

pub data Reply (Key : Type 0) : Type 0 where
  bad_request unreachable unreadable : String → Reply Key
  response : ℕ → Body Key → Reply Key

-- The fields of `oauthex.AuthServerMeta` that the verifier reads, and what
-- `auth.GetAuthServerMetadata` comes to: an error, no metadata, or metadata.
pub record AuthServerMeta : Type 0 where
  pub issuer : String
  pub jwks_uri : String

pub data Discovery : Type 0 where
  failed : String → Discovery
  missing : Discovery
  found : AuthServerMeta → Discovery

-- Times count nanoseconds since Go's zero time, so that `time.Time{}` is 0.
pub record Env (Key Token : Type 0) : Type 0 where
  pub platform : Platform
  pub jose : Jose Key Token
  pub clock : ℕ → ℕ
  pub random : ℕ → ℕ → ℕ
  pub get_jwks : ℕ → String → Reply Key
  pub get_metadata : ℕ → String → Discovery

-- `rand.Int64N(n)` is below `n`.
pub record IsRandom {Key Token : Type 0} (env : Env Key Token) : Type 0 where
  pub below : (call n : ℕ) → 0 < n → env.random call n < n
