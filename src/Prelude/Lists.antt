-- ===== src/Prelude/Lists.antt =====
-- Lists measured by native numbers, predicates on all or some members, and the tests that decide
-- them.
use Prim.Native.Nat.{ℕ, suc}
use Prim.Native.String.{String}
use mathlib.Core.Path.{◌≡◌, refl, sym, subst}
use mathlib.Core.Logic.{◌⊎◌, inl, inr, ◌↔◌}
use mathlib.Core.Bool.{Bool, true, false, ◌&&◌, ◌||◌}
use mathlib.Core.List.{List, [], ◌∷◌, ◌++◌}
use text.Mathlib.Text.{◌==◌}
use text.Mathlib.TextEquality.{eq_iff}
use go_mcp_oauth_sdk.Prelude.Tests.{or_iff, and_iff}

module _ {ℓ} {A : Type ℓ} where
  abbrev pub length : List A → ℕ
  length [] = 0
  length (x ∷ xs) = suc (length xs)

  abbrev pub is_empty : List A → Bool
  is_empty [] = true
  is_empty (x ∷ xs) = false

  abbrev pub any : (A → Bool) → List A → Bool
  any p [] = false
  any p (x ∷ xs) = p x || any p xs

  abbrev pub all : (A → Bool) → List A → Bool
  all p [] = true
  all p (x ∷ xs) = p x && all p xs

module _ {ℓ} {A : Type ℓ} (P : A → Type 0) where
  -- every member satisfies `P`
  abbrev pub All : List A → Type 0
  All [] = Unit
  All (x ∷ xs) = P x × All xs

  -- some member satisfies `P`; the value says which
  abbrev pub Any : List A → Type 0
  Any [] = ⊥
  Any (x ∷ xs) = P x ⊎ Any xs

  pub All-append : (xs ys : List A) → All xs → All ys → All (xs ++ ys)
  All-append [] ys h k = k
  All-append (x ∷ xs) ys (p, h) k = (p, All-append xs ys h k)

module _ {ℓ} {A : Type ℓ} (P Q : A → Type 0) (f : (x : A) → P x → Q x) where
  pub All-map : (xs : List A) → All P xs → All Q xs
  All-map [] h = tt
  All-map (x ∷ xs) (p, h) = (f x p, All-map xs h)

  pub Any-map : (xs : List A) → Any P xs → Any Q xs
  Any-map [] h = elim h [ ]
  Any-map (x ∷ xs) (inl p) = inl (f x p)
  Any-map (x ∷ xs) (inr h) = inr (Any-map xs h)

-- `x` is a member of `xs`; the value is its position.
abbrev pub In : {A : Type 0} → A → List A → Type 0
In x = Any (λ y. x ≡ y)

-- no member occurs twice
abbrev pub Distinct : {A : Type 0} → List A → Type 0
Distinct [] = Unit
Distinct (x ∷ xs) = (¬ In x xs) × Distinct xs

-- A test that decides `P` at each member decides `All P` and `Any P` of the list.
module _ {ℓ} {A : Type ℓ} (p : A → Bool) (P : A → Type 0) (dec : (x : A) → (p x ≡ true) ↔ P x) where
  pub any_iff : (xs : List A) → (any p xs ≡ true) ↔ Any P xs
  any_iff [] = ((λ h. cc), λ h. elim h [ ])
  any_iff (x ∷ xs) = or_iff (p x) (any p xs) (dec x) (any_iff xs)

  pub all_iff : (xs : List A) → (all p xs ≡ true) ↔ All P xs
  all_iff [] = ((λ h. tt), λ h. refl)
  all_iff (x ∷ xs) = and_iff (p x) (all p xs) (dec x) (all_iff xs)

-- a set of texts, as Go's `map[string]bool` holds one: only membership can be asked
abbrev pub contains : List String → String → Bool
contains xs s = any (λ x. s == x) xs

pub contains_iff : (xs : List String) (s : String) → (contains xs s ≡ true) ↔ In s xs
contains_iff xs s = any_iff (λ x. s == x) (λ x. s ≡ x) (λ x. eq_iff s x) xs

pub Any_of_In : {A : Type 0} (P : A → Type 0) (x : A) (xs : List A) → In x xs → P x → Any P xs
Any_of_In P x xs m p = Any-map (λ y. x ≡ y) P (λ y e. subst P e p) xs m

pub All-In : {A : Type 0} (P : A → Type 0) (x : A) (xs : List A) → All P xs → In x xs → P x
All-In P x [] h m = elim m [ ]
All-In P x (y ∷ ys) (p, h) (inl e) = subst P (sym e) p
All-In P x (y ∷ ys) (p, h) (inr m) = All-In P x ys h m
