-- ===== src/Prelude/Collect.antt =====
-- The loop that four functions of the SDK share: go through a list, turn each item into a text or
-- skip it, skip a text that was seen before, and append the others to the result.
use go_mcp_oauth_sdk.Prelude.Tests.{Bool-cases, Option-cases, eq-cases}
use go_mcp_oauth_sdk.Prelude.Lists.{Any, In, Distinct, contains, contains_iff}
use Prim.Native.String.{String}
use mathlib.Core.Path.{◌≡◌, refl, sym, ◌∙◌, subst}
use mathlib.Core.Logic.{inl, inr, ◌↔◌}
use mathlib.Core.Bool.{true, false, false≢true}
use mathlib.Core.Option.{Option, none, some}
use mathlib.Core.List.{List, [], ◌∷◌}

-- The first list is the second one with some items left out.
pub data Subsequence {ℓ} {A : Type ℓ} : List A → List A → Type ℓ where
  empty : Subsequence [] []
  keep : {x : A} {xs ys : List A} → Subsequence xs ys → Subsequence (x ∷ xs) (x ∷ ys)
  skip : {y : A} {xs ys : List A} → Subsequence xs ys → Subsequence xs (y ∷ ys)

pub In-Subsequence : (r : String) {xs ys : List String} → Subsequence xs ys → In r xs → In r ys
In-Subsequence r empty m = m
In-Subsequence r (keep h) (inl e) = inl e
In-Subsequence r (keep h) (inr m) = inr (In-Subsequence r h m)
In-Subsequence r (skip h) m = inr (In-Subsequence r h m)

module _ {ℓ} {A : Type ℓ} (f : A → Option String) where
  -- The texts of the items, in order, with those that are skipped left out.
  abbrev pub texts : List A → List String
  texts [] = []
  texts (x ∷ xs) = elim (f x) [ none ↦ texts xs | some s ↦ s ∷ texts xs ]

  unfoldable pub collect : List String → List A → List String
  collect seen [] = []
  collect seen (x ∷ xs) = elim (f x) [
    | none ↦ collect seen xs
    | some s ↦ elim (contains seen s) [ true ↦ collect seen xs | false ↦ s ∷ collect (s ∷ seen) xs ]
  ]

  -- The three ways in which the loop goes on.
  module _ (seen : List String) (x : A) (xs : List A) where
    collect_skipped : f x ≡ none → collect seen (x ∷ xs) ≡ collect seen xs
    unfolding collect
    collect_skipped e = rw (e, collect)

    collect_dup :
        {s : String}
        → f x ≡ some s
        → contains seen s ≡ true
        → collect seen (x ∷ xs) ≡ collect seen xs
    unfolding collect
    collect_dup e dup = rw (e, collect, dup)

    collect_new :
        {s : String}
        → f x ≡ some s
        → contains seen s ≡ false
        → collect seen (x ∷ xs) ≡ s ∷ collect (s ∷ seen) xs
    unfolding collect
    collect_new e new = rw (e, collect, new)

  -- The same as cases, to split on.
  data Round (seen : List String) (x : A) (xs : List A) : Type ℓ where
    skipped : f x ≡ none → collect seen (x ∷ xs) ≡ collect seen xs → Round seen x xs
    duplicate :
        (s : String)
        → f x ≡ some s
        → In s seen
        → collect seen (x ∷ xs) ≡ collect seen xs
        → Round seen x xs
    appended :
        (s : String)
        → f x ≡ some s
        → (¬ In s seen)
        → collect seen (x ∷ xs) ≡ s ∷ collect (s ∷ seen) xs
        → Round seen x xs

  round : (seen : List String) (x : A) (xs : List A) → Round seen x xs
  round seen x xs = elim (Option-cases (f x)) [
    | inl e ↦ skipped e (collect_skipped seen x xs e)
    | inr (s, e) ↦ elim (Bool-cases (contains seen s)) [
      | inl dup ↦ duplicate s e ((contains_iff seen s).0 dup) (collect_dup seen x xs e dup)
      | inr new ↦
          appended s e (λ m. false≢true (sym new ∙ (contains_iff seen s).1 m))
            (collect_new seen x xs e new)
    ]
  ]

  texts_skipped : (x : A) (xs : List A) → f x ≡ none → texts (x ∷ xs) ≡ texts xs
  texts_skipped x xs e = rw (texts, e)

  texts-some : (x : A) (xs : List A) {s : String} → f x ≡ some s → texts (x ∷ xs) ≡ s ∷ texts xs
  texts-some x xs e = rw (texts, e)

  pub In-texts_iff : (r : String) (xs : List A) → In r (texts xs) ↔ Any (λ x. f x ≡ some r) xs
  In-texts_iff r [] = ((λ m. m), λ m. m)
  In-texts_iff r (x ∷ xs) =
      let (to, from) = In-texts_iff r xs in
      elim (Option-cases (f x)) [
        | inl e ↦
            rw (texts_skipped x xs e)
              ((λ m. inr (to m)), elim [ inl e' ↦ absurd (cc (e, e')) | inr m ↦ from m ])
        | inr (s, e) ↦ rw (texts-some x xs e) (
          elim [ inl e' ↦ inl (cc (e, e')) | inr m ↦ inr (to m) ],
          elim [ inl e' ↦ inl (cc (e, e')) | inr m ↦ inr (from m) ],
        )
      ]

  -- The result keeps the order of the items, and leaves some out.
  pub collect-Subsequence :
      (seen : List String) (xs : List A) → Subsequence (collect seen xs) (texts xs)
  unfolding collect
  collect-Subsequence seen [] = empty
  collect-Subsequence seen (x ∷ xs) = elim (round seen x xs) [
    | skipped e eq ↦ rw (eq, texts_skipped x xs e) (collect-Subsequence seen xs)
    | duplicate s e _ eq ↦ rw (eq, texts-some x xs e) (skip (collect-Subsequence seen xs))
    | appended s e _ eq ↦ rw (eq, texts-some x xs e) (keep (collect-Subsequence (s ∷ seen) xs))
  ]

  -- What was seen is not collected.
  pub collect_fresh :
      (seen : List String) (xs : List A) (r : String) → In r (collect seen xs) → ¬ In r seen
  unfolding collect
  collect_fresh seen [] r m = elim m [ ]
  collect_fresh seen (x ∷ xs) r m = elim (round seen x xs) [
    | skipped _ eq ↦ collect_fresh seen xs r (rw eq at m)
    | duplicate _ _ _ eq ↦ collect_fresh seen xs r (rw eq at m)
    | appended s _ new eq ↦ fresh_cons s seen new (collect_fresh (s ∷ seen) xs r) (rw eq at m)
  ]
    where
      fresh_cons :
          (s : String) (seen : List String)
          → (¬ In s seen)
          → (In r (collect (s ∷ seen) xs) → ¬ In r (s ∷ seen))
          → In r (s ∷ collect (s ∷ seen) xs)
          → ¬ In r seen
      fresh_cons s seen new later (inl e) k = new (subst (λ t. In t seen) e k)
      fresh_cons s seen new later (inr k) k' = later k (inr k')

  pub collect-Distinct : (seen : List String) (xs : List A) → Distinct (collect seen xs)
  unfolding collect
  collect-Distinct seen [] = tt
  collect-Distinct seen (x ∷ xs) = elim (round seen x xs) [
    | skipped _ eq ↦ rw eq (collect-Distinct seen xs)
    | duplicate _ _ _ eq ↦ rw eq (collect-Distinct seen xs)
    | appended s _ _ eq ↦
        rw eq ((λ m. collect_fresh (s ∷ seen) xs s m (inl refl)), collect-Distinct (s ∷ seen) xs)
  ]

  -- Exactly the texts of the items are collected, without those seen before.
  pub In-collect :
      (seen : List String) (xs : List A) (r : String) → In r (collect seen xs) → In r (texts xs)
  In-collect seen xs r m = In-Subsequence r (collect-Subsequence seen xs) m

  pub collect_complete :
      (seen : List String) (xs : List A) (r : String)
      → In r (texts xs)
      → (¬ In r seen)
      → In r (collect seen xs)
  collect_complete seen [] r m new = elim m [ ]
  collect_complete seen (x ∷ xs) r m new = elim (round seen x xs) [
    | skipped e eq ↦ rw eq (collect_complete seen xs r (rw (texts_skipped x xs e) at m) new)
    | duplicate s e old eq ↦
        rw eq (elim_old s old (rw (texts-some x xs e) at m) (λ k. collect_complete seen xs r k new))
    | appended s e _ eq ↦
        rw eq
          (elim_new s (rw (texts-some x xs e) at m) (λ k n. collect_complete (s ∷ seen) xs r k n))
  ]
    where
      elim_old :
          (s : String)
          → In s seen
          → In r (s ∷ texts xs)
          → (In r (texts xs) → In r (collect seen xs))
          → In r (collect seen xs)
      elim_old s old (inl e) later = absurd (new (subst (λ t. In t seen) (sym e) old))
      elim_old s old (inr k) later = later k

      elim_new :
          (s : String)
          → In r (s ∷ texts xs)
          → (In r (texts xs) → (¬ In r (s ∷ seen)) → In r (collect (s ∷ seen) xs))
          → In r (s ∷ collect (s ∷ seen) xs)
      elim_new s (inl e) later = inl e
      elim_new s (inr k) later = elim (eq-cases r s) [
        | inl (_, e) ↦ inl e
        | inr (_, ne) ↦ inr (later k (elim [ inl e ↦ ne e | inr old ↦ new old ]))
      ]
