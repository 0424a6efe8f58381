-- ===== src/Goroutines/Alone.antt =====
-- A call without another one in between is the sequential method.
use go_mcp_oauth_sdk.Prelude.{
  ℕ, zero, suc, ◌-◌, ◌≡◌, ◌≢◌, refl, ap, ◌∙◌, false, List, [], ◌∷◌, arith,
}
use go_mcp_oauth_sdk.Errors.{Result}
use go_mcp_oauth_sdk.Env.{Env}
use go_mcp_oauth_sdk.Verifier.{System}
use go_mcp_oauth_sdk.Program.{Program, finished, section, run}
use go_mcp_oauth_sdk.Program.Ends.{Ends, Ends-more}
use go_mcp_oauth_sdk.Api.{Request}
use go_mcp_oauth_sdk.Goroutines.{
  Answer, Task, running, answered, is_running, Crowd, Turn, call, step, proceed, program, respond,
  assign, take_turn, take_turns,
}
use go_mcp_oauth_sdk.Goroutines.Methods.{run-program}
use go_mcp_oauth_sdk.Goroutines.Progress.{program-Ends}

abbrev pub steps : ℕ → ℕ → List Turn
steps zero i = []
steps (suc n) i = step i ∷ steps n i

abbrev proceed_all : {Key : Type 0} → ℕ → System Key × Task Key → System Key × Task Key
proceed_all zero x = x
proceed_all (suc n) x = proceed_all n (proceed x.0 x.1)

assign-same : {Key : Type 0} (f : ℕ → Task Key) (i : ℕ) (t : Task Key) → assign f i t i ≡ t
assign-same f i t = ground arith

assign-other :
    {Key : Type 0} (f : ℕ → Task Key) (i j : ℕ) (t : Task Key) → i ≢ j → assign f i t j ≡ f j
assign-other f i j t ne = ground arith

proceed_all-answered :
    {Key : Type 0} (n : ℕ) (s : System Key) (b : ℕ) (r : Request) (result : Result Answer)
    → proceed_all n (s, answered b r result) ≡ (s, answered b r result)
unfolding proceed
proceed_all-answered zero s b r result = refl
proceed_all-answered (suc n) s b r result = proceed_all-answered n s b r result

-- Enough steps run the whole program.
proceed_all-run :
    {Key : Type 0} (n : ℕ) (s : System Key) (b : ℕ) (r : Request) (p : Program Key Answer)
    → Ends n p
    → proceed_all (suc n) (s, running b r p) ≡ ((run p s).1, answered b r (run p s).0)
unfolding proceed run
proceed_all-run n s b r (finished result) h = proceed_all-answered n s b r result
proceed_all-run zero s b r (section act next) h =
    let (some_left, rest) = h s in absurd (omega arith)
proceed_all-run (suc n) s b r (section act next) h =
    let (some_left, rest) = h s in
    proceed_all-run n (act s) b r (next s) (Ends-more (suc n - 1) n (next s) (omega arith) rest)

module _ {Key Token : Type 0} (env : Env Key Token) where
  take_turns-steps :
      (c : Crowd Key) (n i : ℕ)
      → ((take_turns env c (steps n i)).shared ≡ (proceed_all n (c.shared, c.task i)).0)
        × ((take_turns env c (steps n i)).task i ≡ (proceed_all n (c.shared, c.task i)).1)
        × ((j : ℕ) → i ≢ j → (take_turns env c (steps n i)).task j ≡ c.task j)
  unfolding take_turns take_turn
  take_turns-steps c zero i = (refl, refl, λ j ne. refl)
  take_turns-steps c (suc n) i =
      let c' = take_turn env c (step i) in
      let (a, b, d) = take_turns-steps c' n i in
      let same = assign-same c.task i (proceed c.shared (c.task i)).1 in
      let swap = ap (λ t. proceed_all n (c'.shared, t)) same in
      (
        a ∙ ap (λ x. x.0) swap,
        b ∙ ap (λ x. x.1) swap,
        λ j ne. d j ne ∙ assign-other c.task i j _ ne,
      )

  -- Where a goroutine is in no call, beginning one and taking twenty-eight steps in a row is the
  -- sequential method: it leaves the shared state that the method leaves, the answer is what the
  -- method returns, and no other goroutine changes.
  pub take_turns-respond :
      (c : Crowd Key) (i : ℕ) (r : Request)
      → is_running (c.task i) ≡ false
      → ((take_turns env c (call i r ∷ steps 28 i)).shared ≡ (respond env r c.shared).1)
        × ((take_turns env c (call i r ∷ steps 28 i)).task i
            ≡ answered c.shared.calls r (respond env r c.shared).0)
        × ((j : ℕ) → i ≢ j → (take_turns env c (call i r ∷ steps 28 i)).task j ≡ c.task j)
  unfolding take_turns take_turn
  take_turns-respond c i r free =
      let c' = record c { task = assign c.task i (running c.shared.calls r (program env r)) } in
      let (a, b, d) = take_turns-steps c' 28 i in
      let begun =
        ap (λ t. proceed_all 28 (c.shared, t))
          (assign-same c.task i (running c.shared.calls r (program env r))) in
      let ran =
        begun ∙ proceed_all-run 27 c.shared c.shared.calls r (program env r) (program-Ends env r) in
      let whole =
        ran
        ∙ ap (λ m. ((m c.shared).1, answered c.shared.calls r (m c.shared).0))
            (run-program env r) in
      rw (free, take_turn)
        (
          a ∙ ap (λ x. x.0) whole,
          b ∙ ap (λ x. x.1) whole,
          λ j ne. d j ne ∙ assign-other c.task i j _ ne,
        )
