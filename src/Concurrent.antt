-- ===== src/Concurrent.antt =====
-- oauth/jwks.go: calls of `fetchJWKSet` and `invalidateJWKSCache` by any number of goroutines on one
-- `Verifier`, interleaved. A call is cut where it holds no lock: at each reading of the clock,
-- each locked section and the download.
pub mod Origins
pub mod Safety
pub mod Progress
pub mod Alone
use go_mcp_oauth_sdk.Prelude.{ℕ, ◌+◌, String, Bool, true, false, List, [], ◌∷◌, eqb, if◌then◌else◌}
use go_mcp_oauth_sdk.Errors.{Failure, Result, ok, err}
use go_mcp_oauth_sdk.Config.{OauthConfig}
use go_mcp_oauth_sdk.Env.{Env}
use go_mcp_oauth_sdk.Verifier.{System, initial}
use go_mcp_oauth_sdk.Jwks.{
  decode_reply, is_cached, invalidate_jwks_cache, record_attempt, store_keys, with_outcome,
}

-- Where a goroutine stands in `fetchJWKSet`, with the variables that it still needs. `returned`
-- keeps the argument and the first reading of the clock beside the result.
pub data Phase (Key : Type 0) : Type 0 where
  idle : Phase Key
  asked : (uri : String) → Phase Key
  timed missed noted : (uri : String) (now : ℕ) → Phase Key
  answered stored : (uri : String) (now : ℕ) (keys : List Key) → Phase Key
  rejected : (uri : String) (now : ℕ) (e : Failure) → Phase Key
  returned : (uri : String) (now : ℕ) (result : Result (List Key)) → Phase Key

abbrev pub has_ended : {Key : Type 0} → Phase Key → Bool
has_ended idle = true
has_ended (returned _ _ _) = true
has_ended _ = false

-- The shared state, and each goroutine by its number.
pub record World (Key : Type 0) : Type 0 where
  pub shared : System Key
  pub phase : ℕ → Phase Key

abbrev pub update : {Key : Type 0} → (ℕ → Phase Key) → ℕ → Phase Key → ℕ → Phase Key
update f i p j = if eqb i j then p else f j

-- A goroutine that is not in a call begins one or invalidates the cache; one in a call moves on.
pub data Event : Type 0 where
  begin : (i : ℕ) (uri : String) → Event
  move : (i : ℕ) → Event
  invalidate : (i : ℕ) → Event

module _ {Key Token : Type 0} (env : Env Key Token) where
  abbrev received : String → ℕ → Result (List Key) → Phase Key
  received uri now (ok keys) = answered uri now keys
  received uri now (err e) = rejected uri now e

  -- the next section of a call
  unfoldable pub advance : System Key → Phase Key → System Key × Phase Key
  advance s (asked uri) = (record s { calls = s.calls + 1 }, timed uri (env.clock s.calls))
  advance s (timed uri now) = (
    s,
    if is_cached s.verifier uri now
        then returned uri now (ok s.verifier.jwks_cache)
        else missed uri now,
  )
  advance s (missed uri now) = ((record_attempt env now s).1, noted uri now)
  advance s (noted uri now) =
      (record s { calls = s.calls + 1 }, received uri now (decode_reply (env.get_jwks s.calls uri)))
  advance s (answered uri now keys) = ((store_keys env uri now keys s).1, stored uri now keys)
  advance s (stored uri now keys) = ((with_outcome env (ok keys, s)).1, returned uri now (ok keys))
  advance s (rejected uri now e) = ((with_outcome env (err e, s)).1, returned uri now (err e))
  advance s p = (s, p)

  unfoldable pub perform : World Key → Event → World Key
  perform w (begin i uri) =
      if has_ended (w.phase i) then record w { phase = update w.phase i (asked uri) } else w
  perform w (move i) =
      let after = advance w.shared (w.phase i) in
      record { shared = after.0; phase = update w.phase i after.1 }
  perform w (invalidate i) =
      if has_ended (w.phase i) then record w { shared = (invalidate_jwks_cache w.shared).1 } else w

  unfoldable pub perform_all : World Key → List Event → World Key
  perform_all w [] = w
  perform_all w (e ∷ events) = perform_all (perform w e) events

abbrev pub start : {Key : Type 0} → OauthConfig → World Key
start cfg = record { shared = initial cfg; phase = λ i. idle }
