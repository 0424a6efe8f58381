-- ===== src/Program/Ends.antt =====
-- Programs that end after a number of sections, whatever other goroutines do between these.
use go_mcp_oauth_sdk.Prelude.{ℕ, ◌+◌, ◌-◌, ◌≤◌, ◌<◌, Bool, true, false, if◌then◌else◌, arith}
use go_mcp_oauth_sdk.Errors.{Result, ok, err}
use go_mcp_oauth_sdk.Verifier.{System, Action}
use go_mcp_oauth_sdk.Program.{Program, finished, section, atomic, after, unless_failed, ◌>>=◌}

-- The program has at most `n` sections before it, from any state at each of them.
abbrev pub Ends : {Key A : Type 0} → ℕ → Program Key A → Type 0
Ends n (finished r) = Unit {0}
Ends {Key} n (section act next) = (s : System Key) → (0 < n) × Ends (n - 1) (next s)

module _ {Key A : Type 0} where
  pub Ends-more : (n m : ℕ) (p : Program Key A) → n ≤ m → Ends n p → Ends m p
  Ends-more n m (finished r) le h = tt
  Ends-more n m (section act next) le h = λ s.
      let (some_left, rest) = h s in
      (omega arith, Ends-more (n - 1) (m - 1) (next s) (omega arith) rest)

  pub Ends-atomic : (m : Action Key A) → Ends 1 (atomic m)
  unfolding atomic
  Ends-atomic m = λ s. (omega arith, tt)

  pub Ends-if :
      (n : ℕ) (test : Bool) (p q : Program Key A)
      → Ends n p
      → Ends n q
      → Ends n (if test then p else q)
  Ends-if n true p q hp hq = hp
  Ends-if n false p q hp hq = hq

module _ {Key A B : Type 0} where
  pub Ends-after :
      (n k : ℕ) (p : Program Key A) (f : Result A → Program Key B)
      → Ends n p
      → ((r : Result A) → Ends k (f r))
      → Ends (n + k) (after p f)
  unfolding after
  Ends-after n k (finished r) f h g = Ends-more k (n + k) (f r) (omega arith) (g r)
  Ends-after n k (section act next) f h g = λ s.
      let (some_left, rest) = h s in
      (
        omega arith,
        Ends-more (n - 1 + k) (n + k - 1) (after (next s) f) (omega arith)
            (Ends-after (n - 1) k (next s) f rest g),
      )

  unless_failed-Ends :
      (k : ℕ) (f : A → Program Key B)
      → ((a : A) → Ends k (f a))
      → (r : Result A) → Ends k (unless_failed f r)
  unless_failed-Ends k f g (ok a) = g a
  unless_failed-Ends k f g (err e) = tt

  pub Ends-bind :
      (n k : ℕ) (p : Program Key A) (f : A → Program Key B)
      → Ends n p
      → ((a : A) → Ends k (f a))
      → Ends (n + k) (p >>= f)
  unfolding ◌>>=◌
  Ends-bind n k p f h g = Ends-after n k p _ h (unless_failed-Ends k f g)
