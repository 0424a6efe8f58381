-- ===== src/Goroutines.antt =====
-- Any number of goroutines that call the exported methods of one `Verifier` of oauth/jwks.go, by the
-- programs of Parallel. A run is a list of events: a goroutine begins a call, or one of them runs
-- the next section of its call.
pub mod Methods
pub mod Progress
pub mod Alone
pub mod Safety
pub mod Answers
pub mod Masking
use go_mcp_oauth_sdk.Prelude.{
  ℕ, String, Bool, true, false, Option, List, [], ◌∷◌, eqb, if◌then◌else◌,
}
use go_mcp_oauth_sdk.Errors.{Result}
use go_mcp_oauth_sdk.Config.{OauthConfig}
use go_mcp_oauth_sdk.Claims.{Claims}
use go_mcp_oauth_sdk.Env.{AuthServerMeta, Env}
use go_mcp_oauth_sdk.Verifier.{System, Action, initial, pure, ◌>>=◌ as bind}
use go_mcp_oauth_sdk.Jwks.{fetch_auth_server_meta}
use go_mcp_oauth_sdk.Strict.{validate_strict_jwt}
use go_mcp_oauth_sdk.Validator.{validate_token, validate_upstream_identity_token}
use go_mcp_oauth_sdk.Api.{Request, fetch_metadata, validate, validate_identity, validate_strict}
use go_mcp_oauth_sdk.Program.{Program, finished, section, done, ◌>>=◌}
use go_mcp_oauth_sdk.Parallel.{fetch_meta_program, external_program, token_program, strict_program}

-- What a call returns besides an error. `validated none` is the soft pass.
pub data Answer : Type 0 where
  metadata : AuthServerMeta → Answer
  validated : Option Claims → Answer
  attested : Claims → Answer
  admitted : Claims → Answer

-- A task keeps the number of calls of the outside world that were made when it began.
pub data Task (Key : Type 0) : Type 0 where
  waiting : Task Key
  running : (began : ℕ) → Request → Program Key Answer → Task Key
  answered : (began : ℕ) → Request → Result Answer → Task Key

abbrev pub is_running : {Key : Type 0} → Task Key → Bool
is_running (running b r p) = true
is_running _ = false

-- The shared state, and each goroutine by its number.
pub record Crowd (Key : Type 0) : Type 0 where
  pub shared : System Key
  pub task : ℕ → Task Key

abbrev pub assign : {Key : Type 0} → (ℕ → Task Key) → ℕ → Task Key → ℕ → Task Key
assign f i t j = if eqb i j then t else f j

pub data Turn : Type 0 where
  call : (i : ℕ) (r : Request) → Turn
  step : (i : ℕ) → Turn

-- The next section of a call, or its return.
unfoldable pub proceed : {Key : Type 0} → System Key → Task Key → System Key × Task Key
proceed s waiting = (s, waiting)
proceed s (running b r (section act next)) = (act s, running b r (next s))
proceed s (running b r (finished result)) = (s, answered b r result)
proceed s (answered b r result) = (s, answered b r result)

module _ {Key Token : Type 0} (env : Env Key Token) where
  unfoldable pub program : Request → Program Key Answer
  program (fetch_metadata issuer) = do meta ← fetch_meta_program env issuer; done (metadata meta)
  program (validate token) = do claims ← token_program env token; done (validated claims)
  program (validate_identity token audience) = do
    claims ← external_program env token audience
    done (attested claims)
  program (validate_strict token policy) = do
    claims ← strict_program env token policy
    done (admitted claims)

  -- The call with no other goroutine in between, by the methods themselves.
  unfoldable pub respond : Request → Action Key Answer
  respond (fetch_metadata issuer) =
      bind (fetch_auth_server_meta env issuer) (λ meta. pure (metadata meta))
  respond (validate token) = bind (validate_token env token) (λ claims. pure (validated claims))
  respond (validate_identity token audience) =
      bind (validate_upstream_identity_token env token audience) (λ claims. pure (attested claims))
  respond (validate_strict token policy) =
      bind (validate_strict_jwt env token policy) (λ claims. pure (admitted claims))

  -- A goroutine begins a call only when it is in none.
  unfoldable pub take_turn : Crowd Key → Turn → Crowd Key
  take_turn c (call i r) =
      if is_running (c.task i)
      then c
      else record c { task = assign c.task i (running c.shared.calls r (program r)) }
  take_turn c (step i) =
      let next = proceed c.shared (c.task i) in
      record { shared = next.0; task = assign c.task i next.1 }

  unfoldable pub take_turns : Crowd Key → List Turn → Crowd Key
  take_turns c [] = c
  take_turns c (t ∷ turns) = take_turns (take_turn c t) turns

abbrev pub gather : {Key : Type 0} → OauthConfig → Crowd Key
gather cfg = record { shared = initial cfg; task = λ i. waiting }
