-- ===== src/Program.antt =====
-- A method of `Verifier` as a program of sections: what it does between two points at which another
-- goroutine may run. A section changes the shared state, and what follows depends on the state
-- that the section met. Used for oauth/jwks.go, discovery.go, jwt.go, strict_jwt.go and
-- validator.go in Parallel.
pub mod Laws
pub mod Ends
pub mod Safe
use go_mcp_oauth_sdk.Prelude.{◌≡◌}
use go_mcp_oauth_sdk.Errors.{Failure, Result, ok, err}
use go_mcp_oauth_sdk.Verifier.{System, Action}

pub data Program (Key A : Type 0) : Type 0 where
  finished : Result A → Program Key A
  section : (System Key → System Key) → (System Key → Program Key A) → Program Key A

module _ {Key A : Type 0} where
  -- an action that no other goroutine interrupts
  unfoldable pub atomic : Action Key A → Program Key A
  atomic m = section (λ s. (m s).1) (λ s. finished (m s).0)

  abbrev pub done : A → Program Key A
  done a = finished (ok a)

  -- The program with no other goroutine in between.
  unfoldable pub run : Program Key A → Action Key A
  run (finished r) s = (r, s)
  run (section act next) s = run (next s) (act s)

module _ {Key A B : Type 0} where
  -- What follows sees an error too.
  unfoldable pub after : Program Key A → (Result A → Program Key B) → Program Key B
  after (finished r) f = f r
  after (section act next) f = section act (λ s. after (next s) f)

  abbrev pub unless_failed : (A → Program Key B) → Result A → Program Key B
  unless_failed f (ok a) = f a
  unless_failed f (err e) = finished (err e)

  infixl 5 ◌>>=◌ ◌>>◌
  unfoldable pub ◌>>=◌ : Program Key A → (A → Program Key B) → Program Key B
  ◌>>=◌ p f = after p (unless_failed f)

  abbrev pub ◌>>◌ : Program Key A → Program Key B → Program Key B
  p >> q = p >>= λ _. q
