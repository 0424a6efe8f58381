-- ===== src/Verifier.antt =====
-- The `Verifier` of oauth/jwks.go with its caches and health record, the log, and the actions that
-- read and change them. Each method runs here without another one in between.
pub mod Keeps
pub mod Runs
use go_mcp_oauth_sdk.Prelude.{ℕ, ◌+◌, String, Option, none, some, List, [], ◌∷◌}
use go_mcp_oauth_sdk.Prelude.Int.{ℤ}
use go_mcp_oauth_sdk.Errors.{Failure, Result, ok, err}
use go_mcp_oauth_sdk.Config.{OauthConfig}
use go_mcp_oauth_sdk.Env.{AuthServerMeta, Env}

pub record Verifier (Key : Type 0) : Type 0 where
  pub cfg : OauthConfig
  pub jwks_cache : List Key
  pub jwks_cache_url : String
  pub jwks_cache_expires_at : ℕ
  pub as_meta_cache : AuthServerMeta
  pub as_meta_cache_url : String
  pub as_meta_expires_at : ℕ
  pub jwks_last_fetch_attempt : ℕ
  pub jwks_last_fetch_success : ℕ
  pub jwks_last_fetch_error : Option Failure

unfoldable pub new_verifier : {Key : Type 0} → OauthConfig → Verifier Key
new_verifier cfg = record {
  cfg = cfg;
  jwks_cache = [];
  jwks_cache_url = "";
  jwks_cache_expires_at = 0;
  as_meta_cache = record { issuer = ""; jwks_uri = "" };
  as_meta_cache_url = "";
  as_meta_expires_at = 0;
  jwks_last_fetch_attempt = 0;
  jwks_last_fetch_success = 0;
  jwks_last_fetch_error = none;
}

unfoldable pub config : {Key : Type 0} → Verifier Key → OauthConfig
config v = v.cfg

unfoldable pub jwks_health : {Key : Type 0} → Verifier Key → ℕ × ℕ × Option Failure
jwks_health v = (v.jwks_last_fetch_attempt, v.jwks_last_fetch_success, v.jwks_last_fetch_error)

pub data Level : Type 0 where
  debug info error : Level

pub data LogField : Type 0 where
  text_field : String → String → LogField
  texts_field : String → List String → LogField
  count_field : String → ℕ → LogField
  time_field : String → ℤ → LogField
  error_field : Failure → LogField

pub record LogEntry : Type 0 where
  pub level : Level
  pub fields : List LogField
  pub message : String

-- The verifier, the number of calls of the outside world so far, and the log, newest entry first.
pub record System (Key : Type 0) : Type 0 where
  pub verifier : Verifier Key
  pub calls : ℕ
  pub logs : List LogEntry

abbrev pub initial : {Key : Type 0} → OauthConfig → System Key
initial cfg = record { verifier = new_verifier cfg; calls = 0; logs = [] }

-- An action returns a result or an error, and the state after it in either case.
abbrev pub Action : Type 0 → Type 0 → Type 0
Action Key A = System Key → Result A × System Key

module _ {Key A : Type 0} where
  abbrev pub pure : A → Action Key A
  pure a s = (ok a, s)

  abbrev pub lift : Result A → Action Key A
  lift r s = (r, s)

  abbrev pub fail : Failure → Action Key A
  fail e s = (err e, s)

module _ {Key A B : Type 0} where
  abbrev pub resume : Result A × System Key → (A → Action Key B) → Result B × System Key
  resume (ok a, s) f = f a s
  resume (err e, s) f = (err e, s)

  infixl 5 ◌>>=◌ ◌>>◌
  unfoldable pub ◌>>=◌ : Action Key A → (A → Action Key B) → Action Key B
  ◌>>=◌ m f s = resume (m s) f

  abbrev pub ◌>>◌ : Action Key A → Action Key B → Action Key B
  m >> n = m >>= λ _. n

module _ {Key : Type 0} where
  -- one entry of the log
  unfoldable pub log : Level → List LogField → String → Action Key (Unit {0})
  log level fields message s = (
    ok tt,
    record s { logs = record { level = level; fields = fields; message = message } ∷ s.logs },
  )

  unfoldable pub get_verifier : Action Key (Verifier Key)
  get_verifier s = (ok s.verifier, s)

-- A call of the outside world: its number, and the state with the call counted.
module _ {Key : Type 0} where
  unfoldable pub next_call : Action Key ℕ
  next_call s = (ok s.calls, record s { calls = s.calls + 1 })
