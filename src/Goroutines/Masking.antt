-- ===== src/Goroutines/Masking.antt =====
-- The errors of `ValidateStrictJWT` while other goroutines run.
use mathlib.Core.Path.{subst}
use go_mcp_oauth_sdk.Prelude.{ℕ, String, ◌≡◌, none, false, List, [], ◌∷◌, inl, inr, eqb, Bool-cases}
use go_mcp_oauth_sdk.Errors.{Failure, as_header_parse, is_kid_not_found, err}
use go_mcp_oauth_sdk.Config.{OauthConfig}
use go_mcp_oauth_sdk.Env.{Env}
use go_mcp_oauth_sdk.Verifier.{System}
use go_mcp_oauth_sdk.Strict.{StrictJwtPolicy}
use go_mcp_oauth_sdk.Strict.Masking.{IsPublic}
use go_mcp_oauth_sdk.Program.{finished, section}
use go_mcp_oauth_sdk.Parallel.Masking.{Masks, Masks-bind, strict-Masks}
use go_mcp_oauth_sdk.Api.{Request, fetch_metadata, validate, validate_identity, validate_strict}
use go_mcp_oauth_sdk.Goroutines.{
  Task, waiting, running, answered, is_running, Crowd, Turn, call, step, proceed, program, assign,
  take_turn, take_turns, gather,
}

-- A strict validation fails with such errors only.
abbrev IsMasked : {Key : Type 0} → Task Key → Type 0
IsMasked (running b (validate_strict token policy) p) = Masks p
IsMasked (answered b (validate_strict token policy) result) = IsPublic result
IsMasked _ = Unit {0}

module _ {Key Token : Type 0} (env : Env Key Token) where
  program-IsMasked : (b : ℕ) (r : Request) → IsMasked (running b r (program env r))
  unfolding program
  program-IsMasked b (validate_strict token policy) =
      Masks-bind _ _ (strict-Masks env token policy) (λ claims. tt)
  program-IsMasked b (fetch_metadata issuer) = tt
  program-IsMasked b (validate token) = tt
  program-IsMasked b (validate_identity token audience) = tt

  proceed-IsMasked : (s : System Key) (t : Task Key) → IsMasked t → IsMasked (proceed s t).1
  unfolding proceed
  proceed-IsMasked s waiting h = tt
  proceed-IsMasked s (running b (validate_strict token policy) (finished r)) h = h
  proceed-IsMasked s (running b (validate_strict token policy) (section act next)) h = h s
  proceed-IsMasked s (running b (fetch_metadata issuer) (finished r)) h = tt
  proceed-IsMasked s (running b (fetch_metadata issuer) (section act next)) h = tt
  proceed-IsMasked s (running b (validate token) (finished r)) h = tt
  proceed-IsMasked s (running b (validate token) (section act next)) h = tt
  proceed-IsMasked s (running b (validate_identity token audience) (finished r)) h = tt
  proceed-IsMasked s (running b (validate_identity token audience) (section act next)) h = tt
  proceed-IsMasked s (answered b r result) h = h

  assign-IsMasked :
      (f : ℕ → Task Key) (i : ℕ) (t : Task Key)
      → ((j : ℕ) → IsMasked (f j))
      → IsMasked t
      → (j : ℕ) → IsMasked (assign f i t j)
  assign-IsMasked f i t all here j = elim (Bool-cases (eqb i j)) [
    | inl e ↦ rw e here
    | inr e ↦ rw e (all j)
  ]

  take_turn-IsMasked :
      (c : Crowd Key) (t : Turn)
      → ((j : ℕ) → IsMasked (c.task j))
      → (j : ℕ) → IsMasked ((take_turn env c t).task j)
  unfolding take_turn
  take_turn-IsMasked c (call i r) h = elim (Bool-cases (is_running (c.task i))) [
    | inl busy ↦ rw (busy, take_turn) h
    | inr free ↦
        let begun = running c.shared.calls r (program env r) in
        rw (free, take_turn) (assign-IsMasked c.task i begun h (program-IsMasked c.shared.calls r))
  ]
  take_turn-IsMasked c (step i) h =
      assign-IsMasked c.task i _ h (proceed-IsMasked c.shared (c.task i) (h i))

  take_turns-IsMasked :
      (c : Crowd Key) (turns : List Turn)
      → ((j : ℕ) → IsMasked (c.task j))
      → (j : ℕ) → IsMasked ((take_turns env c turns).task j)
  unfolding take_turns
  take_turns-IsMasked c [] h = h
  take_turns-IsMasked c (t ∷ turns) h =
      take_turns-IsMasked (take_turn env c t) turns (take_turn-IsMasked c t h)

  -- Whatever calls of the exported methods goroutines make on a new verifier, and however these
  -- interleave: no error that `ValidateStrictJWT` returns has a `*jwtHeaderParseError` or a
  -- `*kidNotFoundError` anywhere in its tree of wrapped errors.
  pub refused-IsPublic :
      (cfg : OauthConfig) (turns : List Turn) (i first : ℕ) (token : String)
      (policy : StrictJwtPolicy) (e : Failure)
      → (take_turns env (gather cfg) turns).task i
        ≡ answered first (validate_strict token policy) (err e)
      → (as_header_parse e ≡ none) × (is_kid_not_found e ≡ false)
  refused-IsPublic cfg turns i first token policy e at =
      subst IsMasked at (take_turns-IsMasked (gather cfg) turns (λ j. tt) i)
