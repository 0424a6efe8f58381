-- ===== src/Tests/World.antt =====
-- A small world: two keys, of which the second verifies, a network that always answers with them,
-- and a clock that stands still.
use go_mcp_oauth_sdk.Prelude.{
  ℕ, String, true, false, none, some, [], ◌∷◌, arith, ◌==◌, if◌then◌else◌,
}
use go_mcp_oauth_sdk.Prelude.Int.{pos}
use go_mcp_oauth_sdk.Json.{Object, str, number, bool, arr, cons, nil}
use go_mcp_oauth_sdk.Platform.{Platform}
use go_mcp_oauth_sdk.Config.{OauthConfig, zero_config}
use go_mcp_oauth_sdk.Claims.{Claims}
use go_mcp_oauth_sdk.Errors.{ok}
use go_mcp_oauth_sdk.Env.{Env, IsRandom, response, key_set, found}
use go_mcp_oauth_sdk.Strict.{StrictJwtPolicy, unix}
use go_mcp_oauth_sdk.Strict.Contract.{IsModest}
use go_mcp_oauth_sdk.Validator.Times.{HasRoom}

abbrev pub platform : Platform
platform = record { lower = λ c. c; fold = λ c. c; convert = λ x. pos 0; quote = λ s. s }

abbrev pub raw_claims : Object
raw_claims =
    ("iss", str "https://issuer")
    ∷ ("sub", str "u1")
    ∷ ("aud", arr (cons (str "api") nil))
    ∷ ("exp", number "1764403260")
    ∷ ("nbf", number "1764403100")
    ∷ ("scope", str "read write")
    ∷ ("https://x/email", str "ann@example.com")
    ∷ ("https://x/email_verified", bool true)
    ∷ ("roles", arr (cons (str "admin") (cons (str "admin") nil)))
    ∷ []

abbrev pub claims : Claims
claims = record {
  subject = "u1";
  issuer = "https://issuer";
  audience = "api" ∷ [];
  expires_at = pos 1_764_403_260;
  issued_at = pos 0;
  not_before = pos 1_764_403_100;
  scopes = "read" ∷ ("write" ∷ []);
  email = "";
  name = "";
  hosted_domain = "";
  email_verified = false;
  extra =
      ("https://x/email", str "ann@example.com")
      ∷ ("https://x/email_verified", bool true)
      ∷ ("roles", arr (cons (str "admin") (cons (str "admin") nil)))
      ∷ [];
}

-- 1764403200 seconds after 1970
abbrev pub noon : ℕ
noon = 63_900_000_000_000_000_000

abbrev pub env : Env String String
env = record {
  platform = platform;
  jose = record {
    parse_signed = λ token algorithms. ok token;
    header_key_ids = λ token. "k1" ∷ [];
    verified_claims = λ token key. if key == "key1" then some raw_claims else none;
    find_keys = λ keys id. if id == "k1" then keys else [];
  };
  clock = λ call. noon;
  random = λ call n. 0;
  get_jwks = λ call uri. response 200 (key_set ("key0" ∷ ("key1" ∷ [])));
  get_metadata =
      λ call issuer. found (record { issuer = issuer; jwks_uri = "https://issuer/jwks" });
}

abbrev pub config : OauthConfig
config = record zero_config {
  enabled = true;
  issuer = "https://issuer/";
  jwks_url = "https://issuer/jwks";
  audience = "api";
  required_scopes = "read" ∷ [];
}

abbrev pub policy : StrictJwtPolicy
policy = record {
  expected_issuer = "https://issuer";
  expected_audiences = "" ∷ ("api" ∷ []);
  leeway = pos 30_000_000_000;
  required_scopes = "write" ∷ [];
}

pub env-IsRandom : IsRandom env
env-IsRandom = record { below = λ call n h. h }

pub clock-IsModest : (call : ℕ) → IsModest (unix (env.clock call))
unfolding unix
clock-IsModest call = (omega arith, omega arith)

pub clock-HasRoom : (call : ℕ) → HasRoom (unix (env.clock call))
unfolding unix
clock-HasRoom call = (omega arith, omega arith)
