-- ===== src/Errors/Laws.antt =====
-- Reading a failed or successful chain of steps backwards.
use go_mcp_oauth_sdk.Prelude.{◌≡◌, refl, Bool, true, false, ◌⊎◌, inl, inr}
use go_mcp_oauth_sdk.Errors.{Failure, Result, ok, err, ◌>>=◌, ◌>>◌, require}

pub require-eq-ok {ℓ} :
    {B : Type ℓ} (b : Bool) (e : Failure) (r : Result B) {a : B}
    → (require b e >> r) ≡ ok a
    → (b ≡ true) × (r ≡ ok a)
require-eq-ok true e r h = (refl, h)
require-eq-ok false e r h = cc

pub Result-cases {ℓ} :
    {A : Type ℓ} (r : Result A) → ((a : A) × (r ≡ ok a)) ⊎ ((e : Failure) × (r ≡ err e))
Result-cases (ok a) = inl (a, refl)
Result-cases (err e) = inr (e, refl)

pub >>=-eq-ok {ℓ₁ ℓ₂} :
    {Value : Type ℓ₁} {Out : Type ℓ₂} (first : Result Value) (rest : Value → Result Out) {out : Out}
    → (first >>= rest) ≡ ok out
    → (value : Value) × (first ≡ ok value) × (rest value ≡ ok out)
>>=-eq-ok (err failure) rest run = cc
>>=-eq-ok (ok value) rest run = (value, refl, run)

pub >>-eq-ok {ℓ} :
    {Out : Type ℓ} (check : Result (Unit {0})) (rest : Result Out) {out : Out}
    → (check >> rest) ≡ ok out
    → (check ≡ ok tt) × (rest ≡ ok out)
>>-eq-ok (err failure) rest run = cc
>>-eq-ok (ok done) rest run = (refl, run)
