-- ===== src/Prelude/Perm.antt =====
-- Reorderings of a list.
use mathlib.Core.Path.{sym}
use mathlib.Core.Logic.{inl, inr}
use mathlib.Core.List.{List, [], ◌∷◌}
use go_mcp_oauth_sdk.Prelude.Lists.{In, Distinct}

pub data Reorder {ℓ} {A : Type ℓ} : List A → List A → Type ℓ where
  empty : Reorder [] []
  keep : (x : A) {xs ys : List A} → Reorder xs ys → Reorder (x ∷ xs) (x ∷ ys)
  swap : (x y : A) (xs : List A) → Reorder (x ∷ (y ∷ xs)) (y ∷ (x ∷ xs))
  trans : {xs ys zs : List A} → Reorder xs ys → Reorder ys zs → Reorder xs zs

module _ {A : Type 0} where
  pub In-Reorder : {xs ys : List A} (r : A) → Reorder xs ys → In r xs → In r ys
  In-Reorder r empty m = m
  In-Reorder r (keep x h) (inl e) = inl e
  In-Reorder r (keep x h) (inr m) = inr (In-Reorder r h m)
  In-Reorder r (swap x y xs) (inl e) = inr (inl e)
  In-Reorder r (swap x y xs) (inr (inl e)) = inl e
  In-Reorder r (swap x y xs) (inr (inr m)) = inr (inr m)
  In-Reorder r (trans h k) m = In-Reorder r k (In-Reorder r h m)

  pub sym-Reorder : {xs ys : List A} → Reorder xs ys → Reorder ys xs
  sym-Reorder empty = empty
  sym-Reorder (keep x h) = keep x (sym-Reorder h)
  sym-Reorder (swap x y xs) = swap y x xs
  sym-Reorder (trans h k) = trans (sym-Reorder k) (sym-Reorder h)

  pub Distinct-Reorder : {xs ys : List A} → Reorder xs ys → Distinct xs → Distinct ys
  Distinct-Reorder empty d = d
  Distinct-Reorder (keep x h) (new, d) =
      ((λ m. new (In-Reorder x (sym-Reorder h) m)), Distinct-Reorder h d)
  Distinct-Reorder (swap x y xs) (nx, (ny, d)) =
      (elim [ inl e ↦ nx (inl (sym e)) | inr m ↦ ny m ], ((λ m. nx (inr m)), d))
  Distinct-Reorder (trans h k) d = Distinct-Reorder k (Distinct-Reorder h d)
