-- ===== src/Goroutines/Progress.antt =====
-- Every call ends, whatever the other goroutines do meanwhile.
use mathlib.Core.Path.{subst}
use go_mcp_oauth_sdk.Prelude.{
  ℕ, ◌+◌, ◌-◌, ◌≤◌, ◌<◌, ◌≡◌, ◌≢◌, refl, sym, false, List, [], ◌∷◌, inl, inr, arith, eqb,
  if◌then◌else◌, Bool-cases, All,
}
use go_mcp_oauth_sdk.Errors.{Result}
use go_mcp_oauth_sdk.Config.{OauthConfig}
use go_mcp_oauth_sdk.Env.{Env}
use go_mcp_oauth_sdk.Verifier.{System}
use go_mcp_oauth_sdk.Program.{Program, finished, section}
use go_mcp_oauth_sdk.Program.Ends.{Ends, Ends-more, Ends-bind}
use go_mcp_oauth_sdk.Parallel.Ends.{fetch_meta-Ends, external-Ends, token-Ends, strict-Ends}
use go_mcp_oauth_sdk.Api.{Request, fetch_metadata, validate, validate_identity, validate_strict}
use go_mcp_oauth_sdk.Goroutines.{
  Answer, Task, waiting, running, answered, is_running, Crowd, Turn, call, step, proceed, program,
  take_turn, take_turns, gather,
}

abbrev pub steps_of : ℕ → List Turn → ℕ
steps_of i [] = 0
steps_of i (step j ∷ turns) = (if eqb j i then 1 else 0) + steps_of i turns
steps_of i (_ ∷ turns) = steps_of i turns

-- The goroutine begins no call in the turn.
abbrev pub CallsNone : ℕ → Turn → Type 0
CallsNone i (call j r) = j ≢ i
CallsNone i (step j) = Unit

-- The task is over after at most `n` steps of its own, its return counted.
abbrev pub IsDue : {Key : Type 0} → ℕ → Task Key → Type 0
IsDue n waiting = Unit
IsDue n (running b r p) = (0 < n) × Ends (n - 1) p
IsDue n (answered b r result) = Unit

IsDue-more : {Key : Type 0} (n m : ℕ) (t : Task Key) → n ≤ m → IsDue n t → IsDue m t
IsDue-more n m waiting le h = tt
IsDue-more n m (running b r p) le (some_left, h) =
    (omega arith, Ends-more (n - 1) (m - 1) p (omega arith) h)
IsDue-more n m (answered b r result) le h = tt

-- The task is the call `r` that began at `b`.
abbrev IsOf : {Key : Type 0} → ℕ → Request → Task Key → Type 0
IsOf b r waiting = ⊥
IsOf b r (running b' r' p) = (b' ≡ b) × (r' ≡ r)
IsOf b r (answered b' r' result) = (b' ≡ b) × (r' ≡ r)

answered-IsDue :
    {Key : Type 0} (b : ℕ) (r : Request) (t : Task Key)
    → IsOf b r t
    → IsDue 0 t
    → (result : Result Answer) × (t ≡ answered b r result)
answered-IsDue b r waiting own h = absurd own
answered-IsDue b r (running b' r' p) own (some_left, h) = absurd (omega arith)
answered-IsDue b r (answered b' r' result) (same_b, same_r) h = (result, rw (same_b, same_r) refl)

proceed-IsOf :
    {Key : Type 0} (b : ℕ) (r : Request) (s : System Key) (t : Task Key)
    → IsOf b r t
    → IsOf b r (proceed s t).1
unfolding proceed
proceed-IsOf b r s waiting h = h
proceed-IsOf b r s (running b' r' (finished result)) h = h
proceed-IsOf b r s (running b' r' (section act next)) h = h
proceed-IsOf b r s (answered b' r' result) h = h

proceed-IsDue :
    {Key : Type 0} (n : ℕ) (s : System Key) (t : Task Key)
    → IsDue n t
    → IsDue (n - 1) (proceed s t).1
unfolding proceed
proceed-IsDue n s waiting h = tt
proceed-IsDue n s (running b r (finished result)) h = tt
proceed-IsDue n s (running b r (section act next)) (some_left, h) =
    let (more, rest) = h s in (omega arith, rest)
proceed-IsDue n s (answered b r result) h = tt

module _ {Key Token : Type 0} (env : Env Key Token) where
  pub program-Ends : (r : Request) → Ends 27 (program env r)
  unfolding program
  program-Ends (fetch_metadata issuer) =
      Ends-more 3 27 _ (omega arith) (Ends-bind 3 0 _ _ (fetch_meta-Ends env issuer) (λ _. tt))
  program-Ends (validate token) = Ends-bind 27 0 _ _ (token-Ends env token) (λ _. tt)
  program-Ends (validate_identity token audience) =
      Ends-more 19 27 _ (omega arith)
        (Ends-bind 19 0 _ _ (external-Ends env token audience) (λ _. tt))
  program-Ends (validate_strict token policy) =
      Ends-more 19 27 _ (omega arith) (Ends-bind 19 0 _ _ (strict-Ends env token policy) (λ _. tt))

  -- Every goroutine is due within twenty-eight steps.
  AllDue : Crowd Key → Type 0
  AllDue c = (i : ℕ) → IsDue 28 (c.task i)

  take_turn-IsDue :
      (n : ℕ) (c : Crowd Key) (t : Turn) (i : ℕ)
      → CallsNone i t
      → IsDue n (c.task i)
      → IsDue (n - steps_of i (t ∷ [])) ((take_turn env c t).task i)
  unfolding take_turn
  take_turn-IsDue n c (call j r) i other h = elim (Bool-cases (is_running (c.task j))) [
    | inl busy ↦ rw (busy, take_turn) (IsDue-more n _ (c.task i) (omega arith) h)
    | inr free ↦
        let apart : eqb j i ≡ false = ground arith in
        rw (free, take_turn, apart) (IsDue-more n _ (c.task i) (omega arith) h)
  ]
  take_turn-IsDue n c (step j) i _ h = elim (Bool-cases (eqb j i)) [
    | inl own ↦
        let same : j ≡ i = ground arith in
        rw (own, same)
          (IsDue-more (n - 1) _ (proceed c.shared (c.task i)).1 (omega arith)
            (proceed-IsDue n c.shared (c.task i) h))
    | inr other ↦ rw other (IsDue-more n _ (c.task i) (omega arith) h)
  ]

  steps_of-cons :
      (i : ℕ) (t : Turn) (turns : List Turn)
      → steps_of i (t ∷ turns) ≡ steps_of i (t ∷ []) + steps_of i turns
  steps_of-cons i (call j r) turns = omega arith
  steps_of-cons i (step j) turns = omega arith

  take_turns-IsDue :
      (n : ℕ) (c : Crowd Key) (turns : List Turn) (i : ℕ)
      → All (CallsNone i) turns
      → IsDue n (c.task i)
      → IsDue (n - steps_of i turns) ((take_turns env c turns).task i)
  unfolding take_turns
  take_turns-IsDue n c [] i none h = IsDue-more n (n - 0) (c.task i) (omega arith) h
  take_turns-IsDue n c (t ∷ turns) i (now, later) h =
      IsDue-more (n - steps_of i (t ∷ []) - steps_of i turns) (n - steps_of i (t ∷ turns)) _
        (omega (arith, steps_of-cons i t turns))
        (take_turns-IsDue (n - steps_of i (t ∷ [])) (take_turn env c t) turns i later
          (take_turn-IsDue n c t i now h))

  take_turn-AllDue : (c : Crowd Key) (t : Turn) → AllDue c → AllDue (take_turn env c t)
  unfolding AllDue take_turn
  take_turn-AllDue c (call j r) h i = elim (Bool-cases (is_running (c.task j))) [
    | inl busy ↦ rw (busy, take_turn) (h i)
    | inr free ↦ elim (Bool-cases (eqb j i)) [
      | inl own ↦ rw (free, take_turn, own) (omega arith, program-Ends r)
      | inr other ↦ rw (free, take_turn, other) (h i)
    ]
  ]
  take_turn-AllDue c (step j) h i = elim (Bool-cases (eqb j i)) [
    | inl own ↦ rw own (
        IsDue-more 27 28 (proceed c.shared (c.task j)).1 (omega arith)
          (proceed-IsDue 28 c.shared (c.task j) (h j)))
    | inr other ↦ rw other (h i)
  ]

  take_turns-AllDue :
      (c : Crowd Key) (turns : List Turn) → AllDue c → AllDue (take_turns env c turns)
  unfolding take_turns
  take_turns-AllDue c [] h = h
  take_turns-AllDue c (t ∷ turns) h =
      take_turns-AllDue (take_turn env c t) turns (take_turn-AllDue c t h)

  gather-AllDue : (cfg : OauthConfig) → AllDue (gather cfg)
  unfolding AllDue
  gather-AllDue cfg i = tt

  take_turn-IsOf :
      (b : ℕ) (r : Request) (c : Crowd Key) (t : Turn) (i : ℕ)
      → CallsNone i t
      → IsOf b r (c.task i)
      → IsOf b r ((take_turn env c t).task i)
  unfolding take_turn
  take_turn-IsOf b r c (call j q) i other h = elim (Bool-cases (is_running (c.task j))) [
    | inl busy ↦ rw (busy, take_turn) h
    | inr free ↦ let apart : eqb j i ≡ false = ground arith in rw (free, take_turn, apart) h
  ]
  take_turn-IsOf b r c (step j) i _ h = elim (Bool-cases (eqb j i)) [
    | inl own ↦
        let same : j ≡ i = ground arith in rw (own, same) (proceed-IsOf b r c.shared (c.task i) h)
    | inr other ↦ rw other h
  ]

  take_turns-IsOf :
      (b : ℕ) (r : Request) (c : Crowd Key) (turns : List Turn) (i : ℕ)
      → All (CallsNone i) turns
      → IsOf b r (c.task i)
      → IsOf b r ((take_turns env c turns).task i)
  unfolding take_turns
  take_turns-IsOf b r c [] i none h = h
  take_turns-IsOf b r c (t ∷ turns) i (now, later) h =
      take_turns-IsOf b r (take_turn env c t) turns i later (take_turn-IsOf b r c t i now h)

  -- Whatever calls of the exported methods goroutines make on a new verifier, and however these
  -- interleave: once a goroutine that is in a call takes twenty-eight further steps without
  -- beginning a new one, the call has returned a result or an error, whatever the others begin and
  -- do in between.
  pub take_turns-answered :
      (cfg : OauthConfig) (before later : List Turn) (i b : ℕ) (r : Request)
      (p : Program Key Answer)
      → (take_turns env (gather cfg) before).task i ≡ running b r p
      → All (CallsNone i) later
      → 28 ≤ steps_of i later
      → (result : Result Answer) × ((take_turns env (take_turns env (gather cfg) before) later).task
            i
          ≡ answered b r result)
  unfolding AllDue
  take_turns-answered cfg before later i b r p e none enough =
      let c = take_turns env (gather cfg) before in
      let due = take_turns-AllDue (gather cfg) before (gather-AllDue cfg) i in
      let own = take_turns-IsOf b r c later i none (subst (IsOf b r) (sym e) (refl, refl)) in
      answered-IsDue b r ((take_turns env c later).task i) own (
        IsDue-more (28 - steps_of i later) 0 _ (omega arith)
          (take_turns-IsDue 28 c later i none due))
