-- ===== src/Program/Laws.antt =====
-- Running a program with no other goroutine in between.
use mathlib.Core.Path.{fun_ext}
use go_mcp_oauth_sdk.Prelude.{Bool, true, false, ◌≡◌, refl, ◌∙◌, if◌then◌else◌}
use go_mcp_oauth_sdk.Errors.{Result, ok, err}
use go_mcp_oauth_sdk.Verifier.{System, Action, resume, lift, ◌>>=◌ as bind}
use go_mcp_oauth_sdk.Program.{Program, finished, section, atomic, run, after, unless_failed, ◌>>=◌}

module _ {Key A B : Type 0} where
  abbrev pub then_run : Result A × System Key → (Result A → Program Key B) → Result B × System Key
  then_run (r, s) f = run (f r) s

  pub run-after :
      (p : Program Key A) (f : Result A → Program Key B) (s : System Key)
      → run (after p f) s ≡ then_run (run p s) f
  unfolding run after
  run-after (finished r) f s = refl
  run-after (section act next) f s = run-after (next s) f (act s)

  run-resume :
      (x : Result A × System Key) (f : A → Program Key B)
      → then_run x (unless_failed f) ≡ resume x (λ a. run (f a))
  unfolding run
  run-resume (ok a, s) f = refl
  run-resume (err e, s) f = refl

  pub run-bind :
      (p : Program Key A) (f : A → Program Key B) → run (p >>= f) ≡ bind (run p) (λ a. run (f a))
  unfolding ◌>>=◌ bind
  run-bind p f = fun_ext (λ s. run-after p _ s ∙ run-resume (run p s) f)

module _ {Key A : Type 0} where
  pub run-atomic : (m : Action Key A) → run (atomic m) ≡ m
  unfolding run atomic
  run-atomic m = refl

  pub run-finished : (r : Result A) → run {Key = Key} (finished r) ≡ lift r
  unfolding run
  run-finished r = refl

  pub run-if :
      (test : Bool) (p q : Program Key A)
      → run (if test then p else q) ≡ (if test then run p else run q)
  run-if true p q = refl
  run-if false p q = refl
