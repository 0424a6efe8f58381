-- ===== src/Program/Safe.antt =====
-- Programs every section of which keeps an invariant of the shared state, and that return only what
-- is promised, whatever other goroutines do between the sections: they keep the invariant too, and
-- the number of calls never falls.
use go_mcp_oauth_sdk.Prelude.{ℕ, ◌≤◌, ◌≡◌, refl, Bool, true, false, if◌then◌else◌, arith}
use go_mcp_oauth_sdk.Errors.{Result, ok, err}
use go_mcp_oauth_sdk.Verifier.{System, Action}
use go_mcp_oauth_sdk.Program.{Program, finished, section, atomic, after, unless_failed, ◌>>=◌}

module _ {Key : Type 0} (I : System Key → Type 0) where
  -- A promise about the result may speak of the number of calls so far.
  abbrev pub Promise : Type 0 → Type 1
  Promise A = ℕ → Result A → Type 0

  -- One section, run from a state that keeps the invariant.
  pub record Kept (s t : System Key) : Type 0 where
    pub keeps : I t
    pub later : s.calls ≤ t.calls

  abbrev pub Safe : {A : Type 0} → Promise A → ℕ → Program Key A → Type 0
  Safe Q n (finished r) = Q n r
  Safe Q n (section act next) =
      (s : System Key) → I s → n ≤ s.calls → Kept s (act s) × Safe Q (act s).calls (next s)

  -- A promise for a success.
  abbrev pub OnSuccess : {A : Type 0} → (ℕ → A → Type 0) → Promise A
  OnSuccess Q n (ok a) = Q n a
  OnSuccess Q n (err e) = Unit {0}

  -- The program keeps the invariant, and its success keeps the promise.
  abbrev pub Yields : {A : Type 0} → (ℕ → A → Type 0) → ℕ → Program Key A → Type 0
  Yields Q n p = Safe (OnSuccess Q) n p

  module _ {A : Type 0} where
    pub Safe-atomic :
        (Q : Promise A) (n : ℕ) (m : Action Key A)
        → ((s : System Key) → I s → n ≤ s.calls → Kept s (m s).1 × Q (m s).1.calls (m s).0)
        → Safe Q n (atomic m)
    unfolding atomic
    Safe-atomic Q n m h = h

    pub Safe-if :
        (Q : Promise A) (n : ℕ) (test : Bool) (p q : Program Key A)
        → Safe Q n p
        → Safe Q n q
        → Safe Q n (if test then p else q)
    Safe-if Q n true p q hp hq = hp
    Safe-if Q n false p q hp hq = hq

    -- Each branch with the test that leads to it.
    pub Safe-when :
        (Q : Promise A) (n : ℕ) (test : Bool) (p q : Program Key A)
        → (test ≡ true → Safe Q n p)
        → (test ≡ false → Safe Q n q)
        → Safe Q n (if test then p else q)
    Safe-when Q n true p q hp hq = hp refl
    Safe-when Q n false p q hp hq = hq refl

  module _ {A B : Type 0} where
    pub Safe-after :
        (Q : Promise A) (R : Promise B) (n : ℕ) (p : Program Key A) (f : Result A → Program Key B)
        → Safe Q n p
        → ((m : ℕ) (r : Result A) → n ≤ m → Q m r → Safe R m (f r))
        → Safe R n (after p f)
    unfolding after
    Safe-after Q R n (finished r) f h g = g n r (omega arith) h
    Safe-after Q R n (section act next) f h g = λ s i le.
        let (k, rest) = h s i le in
        (
          k,
          Safe-after Q R (act s).calls (next s) f rest
              (λ m r le' q. g m r (omega (arith, k.later)) q),
        )

    unless_failed-Safe :
        (Q : ℕ → A → Type 0) (R : ℕ → B → Type 0) (n m : ℕ) (f : A → Program Key B)
        → ((k : ℕ) (a : A) → n ≤ k → Q k a → Safe (OnSuccess R) k (f a))
        → (r : Result A) → n ≤ m
        → OnSuccess Q m r
        → Safe (OnSuccess R) m (unless_failed f r)
    unless_failed-Safe Q R n m f g (ok a) le q = g m a le q
    unless_failed-Safe Q R n m f g (err e) le q = tt

    pub Safe-bind :
        (Q : ℕ → A → Type 0) (R : ℕ → B → Type 0) (n : ℕ) (p : Program Key A)
        (f : A → Program Key B)
        → Safe (OnSuccess Q) n p
        → ((m : ℕ) (a : A) → n ≤ m → Q m a → Safe (OnSuccess R) m (f a))
        → Safe (OnSuccess R) n (p >>= f)
    unfolding ◌>>=◌
    Safe-bind Q R n p f h g =
        Safe-after (OnSuccess Q) (OnSuccess R) n p (unless_failed f) h
          (λ m r le q. unless_failed-Safe Q R n m f g r le q)

  -- A stronger promise.
  pub Safe-more :
      {A : Type 0} (Q R : ℕ → A → Type 0) (n : ℕ) (p : Program Key A)
      → Yields Q n p
      → ((m : ℕ) (a : A) → n ≤ m → Q m a → R m a)
      → Yields R n p
  Safe-more Q R n (finished (ok a)) h g = g n a (omega arith) h
  Safe-more Q R n (finished (err e)) h g = tt
  Safe-more Q R n (section act next) h g = λ s i le.
      let (k, rest) = h s i le in
      (k, Safe-more Q R (act s).calls (next s) rest (λ m a le' q. g m a (omega (arith, k.later)) q))

  -- A result with no section before it.
  pub Safe-finished : {A : Type 0} (n : ℕ) (r : Result A) → Yields (λ m a. r ≡ ok a) n (finished r)
  Safe-finished n (ok a) = refl
  Safe-finished n (err e) = tt

  pub Safe-verdict :
      {A : Type 0} (Q : ℕ → A → Type 0) (n : ℕ) (r : Result A)
      → ((a : A) → r ≡ ok a → Q n a)
      → Yields Q n (finished r)
  Safe-verdict Q n (ok a) g = g a refl
  Safe-verdict Q n (err e) g = tt
