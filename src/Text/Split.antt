-- ===== src/Text/Split.antt =====
-- Splitting a text at a separator.
use Prim.Native.String.{[], ◌∷◌, ◌++◌}
use mathlib.Core.Path.{subst}
use text.Mathlib.TextLemmas.{nil-append, cons-append}
use text.Mathlib.TextEquality.{Char-path}
use go_mcp_oauth_sdk.Prelude.{
  ℕ, Char, code, String, ◌≡◌, refl, sym, ap, ◌∙◌, ◌≢◌, ◌↔◌, true, false, inl, inr, List, arith, eqb,
  Bool-cases,
}
use go_mcp_oauth_sdk.Text.{split}

-- No character of the text is the separator.
abbrev pub Without : ℕ → String → Type 0
Without sep [] = Unit
Without sep (c ∷ s) = (eqb (code c) sep ≡ false) × Without sep s

pub split_of_Without : (sep : ℕ) (s : String) → Without sep s → split sep s ≡ List.◌∷◌ s List.[]
unfolding split
split_of_Without sep [] h = refl
split_of_Without sep (c ∷ s) (h, hs) = rw (h, split_of_Without sep s hs)

pub split-append :
    (sep : Char) (l r : String)
    → Without (code sep) l
    → split (code sep) (l ++ (sep ∷ r)) ≡ List.◌∷◌ l (split (code sep) r)
unfolding split
split-append sep [] r h =
    let e : eqb (code sep) (code sep) ≡ true = ground arith in rw (nil-append, split, e)
split-append sep (c ∷ l) r (h, hl) = rw (cons-append, split, h, split-append sep l r hl)

-- A text has no separator, or it is what stands before the first one and what follows it.
pub data Parts (sep : Char) (s : String) : Type 0 where
  whole : Without (code sep) s → Parts sep s
  parts : (l r : String) → Without (code sep) l → s ≡ l ++ (sep ∷ r) → Parts sep s

pub split-Parts : (sep : Char) (s : String) → Parts sep s
split-Parts sep [] = whole tt
split-Parts sep (c ∷ s) = elim (Bool-cases (eqb (code c) (code sep))) [
  | inl here ↦
      let e : c ≡ sep = Char-path c sep (ground arith) in
      parts [] s tt (rw nil-append (ap (λ d. d ∷ s) e))
  | inr other ↦ elim (split-Parts sep s) [
    | whole h ↦ whole (other, h)
    | parts l r h e ↦ parts (c ∷ l) r (other, h) (rw cons-append (ap (λ t. c ∷ t) e))
  ]
]

-- Something stands in each list of parts.
split-ne-nil : (sep : Char) (s : String) → split (code sep) s ≢ List.[]
split-ne-nil sep s q = elim (split-Parts sep s) [
  | whole h ↦ cc (split_of_Without (code sep) s h)
  | parts l r h e ↦ cc (split-append sep l r h, ap (split (code sep)) e)
]

split-eq-one :
    (sep : Char) (s r : String)
    → split (code sep) s ≡ List.◌∷◌ r List.[]
    → Without (code sep) r × (s ≡ r)
split-eq-one sep s r q = elim (split-Parts sep s) [
  | whole h ↦
      let e : s ≡ r = cc (q, split_of_Without (code sep) s h) in (subst (Without (code sep)) e h, e)
  | parts l r' h e ↦
      absurd (split-ne-nil sep r' (cc (q, split-append sep l r' h, ap (split (code sep)) e)))
]

-- There are exactly two parts where the text has exactly one separator, and they stand round it.
pub split-eq-two_iff :
    (sep : Char) (s l r : String)
    → (split (code sep) s ≡ List.◌∷◌ l (List.◌∷◌ r List.[]))
      ↔ (Without (code sep) l × Without (code sep) r × (s ≡ l ++ (sep ∷ r)))
split-eq-two_iff sep s l r = (to, from)
  where
    to :
        split (code sep) s ≡ List.◌∷◌ l (List.◌∷◌ r List.[])
        → Without (code sep) l × Without (code sep) r × (s ≡ l ++ (sep ∷ r))
    to q = elim (split-Parts sep s) [
      | whole h ↦ cc (q, split_of_Without (code sep) s h)
      | parts l' r' h e ↦
          let q' : List.◌∷◌ l' (split (code sep) r') ≡ List.◌∷◌ l (List.◌∷◌ r List.[]) =
            sym (split-append sep l' r' h) ∙ ap (split (code sep)) (sym e) ∙ q in
          let el : l' ≡ l = cc in
          let (hr, er) = split-eq-one sep r' r (cc (q')) in
          (
            subst (Without (code sep)) el h,
            hr,
            e ∙ ap (λ t. t ++ (sep ∷ r')) el ∙ ap (λ t. l ++ (sep ∷ t)) er,
          )
    ]

    from :
        Without (code sep) l × Without (code sep) r × (s ≡ l ++ (sep ∷ r))
        → split (code sep) s ≡ List.◌∷◌ l (List.◌∷◌ r List.[])
    from (hl, hr, e) = rw (e, split-append sep l r hl, split_of_Without (code sep) r hr)
