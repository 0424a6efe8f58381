-- ===== src/Verifier/Runs.antt =====
-- Reading a run of an action backwards: what each step returned, and the states between them.
use go_mcp_oauth_sdk.Prelude.{◌≡◌, refl, ap, arith}
use go_mcp_oauth_sdk.Errors.{Failure, Result, ok, err}
use go_mcp_oauth_sdk.Verifier.{System, Action, resume, ◌>>=◌}

module _ {Key A B : Type 0} where
  resume_inv :
      (r : Result A) (s : System Key) (f : A → Action Key B) {b : B} {t : System Key}
      → resume (r, s) f ≡ (ok b, t)
      → (a : A) × (r ≡ ok a) × (f a s ≡ (ok b, t))
  resume_inv (ok a) s f h = (a, refl, h)
  resume_inv (err e) s f h = ground arith

  -- A bind that returned: both parts returned.
  pub bind_inv :
      (m : Action Key A) (f : A → Action Key B) (s : System Key) {b : B} {t : System Key}
      → (m >>= f) s ≡ (ok b, t)
      → (a : A) × ((m s).0 ≡ ok a) × (f a (m s).1 ≡ (ok b, t))
  unfolding ◌>>=◌
  bind_inv m f s h = let (r, s') = m s in resume_inv r s' f h

  pub bind_ok :
      (m : Action Key A) (f : A → Action Key B) (s : System Key) {a : A} {t : System Key}
      → m s ≡ (ok a, t)
      → (m >>= f) s ≡ f a t
  unfolding ◌>>=◌
  bind_ok m f s h = ap (λ r. resume r f) h

  pub bind_err :
      (m : Action Key A) (f : A → Action Key B) (s : System Key) {e : Failure} {t : System Key}
      → m s ≡ (err e, t)
      → (m >>= f) s ≡ (err e, t)
  unfolding ◌>>=◌
  bind_err m f s h = ap (λ r. resume r f) h

pub pure_inv :
    {Key A : Type 0} (a b : A) (s t : System Key)
    → ◌≡◌ {A = Result A × System Key} (ok a, s) (ok b, t)
    → a ≡ b
pure_inv a b s t h = ground arith

-- An error is not a value.
pub fail_inv :
    {Key A : Type 0} {e : Failure} {a : A} {s t : System Key}
    → ◌≡◌ {A = Result A × System Key} (err e, s) (ok a, t)
    → ⊥
fail_inv h = ground arith
