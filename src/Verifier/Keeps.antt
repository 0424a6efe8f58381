-- ===== src/Verifier/Keeps.antt =====
-- Invariants of actions: one rule for each way to build an action.
use go_mcp_oauth_sdk.Prelude.{Bool, true, false, if◌then◌else◌}
use go_mcp_oauth_sdk.Errors.{Failure, Result, ok, err}
use go_mcp_oauth_sdk.Verifier.{System, Action, pure, lift, fail, resume, get_verifier, ◌>>=◌}

-- `P` holds after the action, whether it returns or fails, if it held before.
pub record Keeps {Key A : Type 0} (P : System Key → Type 0) (m : Action Key A) : Type 0 where
  pub at : (s : System Key) → P s → P (m s).1

module _ {Key A : Type 0} {P : System Key → Type 0} where
  pub Keeps-if :
      (test : Bool) (left right : Action Key A)
      → Keeps P left
      → Keeps P right
      → Keeps P (if test then left else right)
  Keeps-if true left right first second = first
  Keeps-if false left right first second = second

  -- What only returns or fails leaves the state as it is.
  pub Keeps-fail : (failure : Failure) → Keeps P (fail {A = A} failure)
  Keeps-fail failure = record { at = λ state held. held }

  pub Keeps-lift : (result : Result A) → Keeps P (lift result)
  Keeps-lift result = record { at = λ state held. held }

  pub Keeps-pure : (value : A) → Keeps P (pure value)
  Keeps-pure value = record { at = λ state held. held }

module _ {Key : Type 0} {P : System Key → Type 0} where
  pub Keeps-get_verifier : Keeps P get_verifier
  unfolding get_verifier
  Keeps-get_verifier = record { at = λ s h. h }

module _ {Key A B : Type 0} {P : System Key → Type 0} where
  resume-Keeps :
      (r : Result A) (s : System Key) (f : A → Action Key B)
      → P s
      → ((a : A) → Keeps P (f a))
      → P (resume (r, s) f).1
  resume-Keeps (ok a) s f h k = (k a).at s h
  resume-Keeps (err e) s f h k = h

  -- The second action may run from any value of the first.
  pub Keeps-bind :
      (first : Action Key A) (next : A → Action Key B)
      → Keeps P first
      → ((value : A) → Keeps P (next value))
      → Keeps P (first >>= next)
  unfolding ◌>>=◌
  Keeps-bind first next keeps_first keeps_next = record {
    at = λ state held.
        let (result, between) = first state in
        resume-Keeps result between next (keeps_first.at state held) keeps_next;
  }

pub ruleset keeps_rules =
    (Keeps-pure, Keeps-lift, Keeps-fail, Keeps-if, Keeps-get_verifier, Keeps-bind)
