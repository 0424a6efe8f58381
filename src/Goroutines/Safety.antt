-- ===== src/Goroutines/Safety.antt =====
-- However the calls of the exported methods interleave, what each returns is vouched for.
use mathlib.Core.Path.{subst}
use go_mcp_oauth_sdk.Prelude.{ℕ, ◌≤◌, ◌≡◌, List, [], ◌∷◌, inl, inr, arith, eqb, Bool-cases, All}
use go_mcp_oauth_sdk.Prelude.Int.{IsInt64}
use go_mcp_oauth_sdk.Errors.{ok}
use go_mcp_oauth_sdk.Config.{OauthConfig}
use go_mcp_oauth_sdk.Env.{Env, IsRandom}
use go_mcp_oauth_sdk.Verifier.{System}
use go_mcp_oauth_sdk.Jwks.Cache.{TtlFits}
use go_mcp_oauth_sdk.Jwks.Metadata.{issuer_key}
use go_mcp_oauth_sdk.Strict.{unix}
use go_mcp_oauth_sdk.Strict.Contract.{IsModest}
use go_mcp_oauth_sdk.Program.{finished, section}
use go_mcp_oauth_sdk.Program.Safe.{Yields, OnSuccess, Safe-bind}
use go_mcp_oauth_sdk.Parallel.Origins.{IsIntact, IsIntact-initial}
use go_mcp_oauth_sdk.Parallel.Discovery.{Known, fetch_meta-Safe}
use go_mcp_oauth_sdk.Parallel.Admission.{Certified, strict-Safe}
use go_mcp_oauth_sdk.Parallel.Approval.{Vetted, ApprovedIfAny}
use go_mcp_oauth_sdk.Parallel.Vetting.{external-Safe, token-Safe}
use go_mcp_oauth_sdk.Api.{Request, fetch_metadata, validate, validate_identity, validate_strict}
use go_mcp_oauth_sdk.Goroutines.{
  Answer, metadata, validated, attested, admitted, Task, waiting, running, answered, is_running,
  Crowd, Turn, call, step, proceed, program, assign, take_turn, take_turns, gather,
}

-- The leeway of a strict policy is an int64.
abbrev pub Fits : Turn → Type 0
Fits (call i (validate_strict token policy)) = IsInt64 policy.leeway
Fits _ = Unit {0}

module _ {Key Token : Type 0} (env : Env Key Token) (cfg : OauthConfig) where
  -- What is vouched for in an answer to a call that began at `first`.
  abbrev pub Vouches : ℕ → Request → ℕ → Answer → Type 0
  Vouches first (fetch_metadata issuer) limit (metadata meta) =
      Known env cfg first (issuer_key issuer) limit meta
  Vouches first (validate token) limit (validated found) =
      ApprovedIfAny env cfg token first limit found
  Vouches first (validate_identity token audience) limit (attested claims) =
      Vetted env cfg token audience first limit claims
  Vouches first (validate_strict token policy) limit (admitted claims) =
      Certified env cfg token policy first limit claims
  Vouches first r limit a = ⊥

  -- A call will return only what is vouched for, or did.
  abbrev IsSound : ℕ → Task Key → Type 0
  IsSound limit waiting = Unit {0}
  IsSound limit (running b r p) =
      (n : ℕ) × (n ≤ limit) × Yields (IsIntact env cfg) (Vouches b r) n p
  IsSound limit (answered b r result) =
      (n : ℕ) × (n ≤ limit) × OnSuccess (IsIntact env cfg) (Vouches b r) n result

  record IsSafe (c : Crowd Key) : Type 0 where
    shared : IsIntact env cfg c.shared
    tasks : (i : ℕ) → IsSound c.shared.calls (c.task i)

  relax-IsSound :
      (limit limit' : ℕ) (t : Task Key) → limit ≤ limit' → IsSound limit t → IsSound limit' t
  relax-IsSound limit limit' waiting le h = tt
  relax-IsSound limit limit' (running b r p) le (n, before, h) = (n, omega arith, h)
  relax-IsSound limit limit' (answered b r result) le (n, before, h) = (n, omega arith, h)

  -- One section keeps all of this.
  record Proceeded (s : System Key) (next : System Key × Task Key) : Type 0 where
    shared : IsIntact env cfg next.0
    sound : IsSound next.0.calls next.1
    later : s.calls ≤ next.0.calls

  proceed-Proceeded :
      (s : System Key) (t : Task Key)
      → IsIntact env cfg s
      → IsSound s.calls t
      → Proceeded s (proceed s t)
  unfolding proceed
  proceed-Proceeded s waiting i h = record { shared = i; sound = tt; later = omega arith }
  proceed-Proceeded s (running b r (finished result)) i h = record {
    shared = i;
    sound = h;
    later = omega arith;
  }
  proceed-Proceeded s (running b r (section act next)) i (n, before, h) =
      let (k, rest) = h s i before in
      record { shared = k.keeps; sound = ((act s).calls, omega arith, rest); later = k.later }
  proceed-Proceeded s (answered b r result) i h = record {
    shared = i;
    sound = h;
    later = omega arith;
  }

  assign-IsSound :
      (f : ℕ → Task Key) (i : ℕ) (t : Task Key) (limit : ℕ)
      → ((j : ℕ) → IsSound limit (f j))
      → IsSound limit t
      → (j : ℕ) → IsSound limit (assign f i t j)
  assign-IsSound f i t limit all here j = elim (Bool-cases (eqb i j)) [
    | inl e ↦ rw e here
    | inr e ↦ rw e (all j)
  ]

  module _ (random : IsRandom env) (fits : TtlFits cfg)
      (modest : (call : ℕ) → IsModest (unix (env.clock call))) where
    program-Safe :
        (i n : ℕ) (r : Request)
        → Fits (call i r)
        → Yields (IsIntact env cfg) (Vouches n r) n (program env r)
    unfolding program
    program-Safe i n (fetch_metadata issuer) _ =
        Safe-bind (IsIntact env cfg) (Known env cfg n (issuer_key issuer))
          (Vouches n (fetch_metadata issuer)) n _ _ (fetch_meta-Safe env cfg random fits n issuer)
          (λ m meta le known. known)
    program-Safe i n (validate token) _ =
        Safe-bind (IsIntact env cfg) (ApprovedIfAny env cfg token n) (Vouches n (validate token)) n
          _ _ (token-Safe env cfg random fits n token) (λ m found le approved. approved)
    program-Safe i n (validate_identity token audience) _ =
        Safe-bind (IsIntact env cfg) (Vetted env cfg token audience n)
          (Vouches n (validate_identity token audience)) n _ _
          (external-Safe env cfg random fits n token audience) (λ m claims le vetted. vetted)
    program-Safe i n (validate_strict token policy) bound =
        Safe-bind (IsIntact env cfg) (Certified env cfg token policy n)
          (Vouches n (validate_strict token policy)) n _ _
          (strict-Safe env cfg random fits modest token policy bound n)
          (λ m claims le certified. certified)

    take_turn-IsSafe : (c : Crowd Key) (t : Turn) → Fits t → IsSafe c → IsSafe (take_turn env c t)
    unfolding take_turn
    take_turn-IsSafe c (call i r) fit h = elim (Bool-cases (is_running (c.task i))) [
      | inl busy ↦ rw (busy, take_turn) h
      | inr free ↦
          let n = c.shared.calls in
          rw (free, take_turn)
            (record {
              shared = h.shared;
              tasks =
                  assign-IsSound c.task i (running n r (program env r)) n h.tasks
                    (n, omega arith, program-Safe i n r fit);
            })
    ]
    take_turn-IsSafe c (step i) fit h =
        let p = proceed-Proceeded c.shared (c.task i) h.shared (h.tasks i) in
        record {
          shared = p.shared;
          tasks =
              assign-IsSound c.task i _ _ (λ j. relax-IsSound _ _ (c.task j) p.later (h.tasks j))
                p.sound;
        }

    take_turns-IsSafe :
        (c : Crowd Key) (turns : List Turn)
        → All Fits turns
        → IsSafe c
        → IsSafe (take_turns env c turns)
    unfolding take_turns
    take_turns-IsSafe c [] fit h = h
    take_turns-IsSafe c (t ∷ turns) (now, later) h =
        take_turns-IsSafe (take_turn env c t) turns later (take_turn-IsSafe c t now h)

    gather-IsSafe : IsSafe (gather cfg)
    gather-IsSafe = record { shared = IsIntact-initial env cfg; tasks = λ i. tt }

    -- An answer, and the number of calls that were made when what vouches for it was known.
    pub vouched :
        (turns : List Turn) (i first : ℕ) (r : Request) (a : Answer)
        → All Fits turns
        → (take_turns env (gather cfg) turns).task i ≡ answered first r (ok a)
        → (n : ℕ) × (n ≤ (take_turns env (gather cfg) turns).shared.calls) × Vouches first r n a
    vouched turns i first r a fit e =
        let safe = take_turns-IsSafe (gather cfg) turns fit gather-IsSafe in
        subst (IsSound (take_turns env (gather cfg) turns).shared.calls) e (safe.tasks i)
