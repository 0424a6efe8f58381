-- ===== src/Text/Trim.antt =====
-- What trimming leaves: no white space at either end, and no slash at the right end.
use Prim.Native.String.{[], ◌∷◌, ◌++◌}
use text.Mathlib.TextLemmas.{nil-append, cons-append}
use go_mcp_oauth_sdk.Prelude.{
  Char, String, ◌≡◌, refl, ap, ◌∙◌, Bool, true, false, inl, inr, Bool-cases,
}
use go_mcp_oauth_sdk.Text.{
  is_space, is_slash, trim_left, trim_right, keep_if, trim_space, trim_slashes,
}

module _ (p : Char → Bool) where
  -- Each character satisfies `p`.
  abbrev pub AllChars : String → Type 0
  AllChars [] = Unit
  AllChars (c ∷ s) = (p c ≡ true) × AllChars s

  -- The text is empty, or its first (last) character does not satisfy `p`.
  abbrev pub FirstNot : String → Type 0
  FirstNot [] = Unit
  FirstNot (c ∷ s) = p c ≡ false

  abbrev pub LastNot : String → Type 0
  LastNot [] = Unit
  LastNot (c ∷ []) = p c ≡ false
  LastNot (c ∷ (d ∷ s)) = LastNot (d ∷ s)

  pub trim_left-FirstNot : (s : String) → FirstNot (trim_left p s)
  unfolding trim_left
  trim_left-FirstNot [] = tt
  trim_left-FirstNot (c ∷ s) = elim (Bool-cases (p c)) [
    | inl drop ↦ rw drop (trim_left-FirstNot s)
    | inr keep ↦ rw keep keep
  ]

  pub trim_left_of_FirstNot : (s : String) → FirstNot s → trim_left p s ≡ s
  unfolding trim_left
  trim_left_of_FirstNot [] h = refl
  trim_left_of_FirstNot (c ∷ s) h = rw h

  keep_if-LastNot : (c : Char) (s : String) → LastNot s → LastNot (keep_if (p c) c s)
  keep_if-LastNot c [] h = elim (Bool-cases (p c)) [
    | inl drop ↦ rw drop tt
    | inr keep ↦ rw keep keep
  ]
  keep_if-LastNot c (d ∷ s) h = h

  pub trim_right-LastNot : (s : String) → LastNot (trim_right p s)
  unfolding trim_right
  trim_right-LastNot [] = tt
  trim_right-LastNot (c ∷ s) = keep_if-LastNot c (trim_right p s) (trim_right-LastNot s)

  pub trim_right_of_LastNot : (s : String) → LastNot s → trim_right p s ≡ s
  unfolding trim_right
  trim_right_of_LastNot [] h = refl
  trim_right_of_LastNot (c ∷ []) h = rw h
  trim_right_of_LastNot (c ∷ (d ∷ s)) h = rw (trim_right_of_LastNot (d ∷ s) h)

  -- What `trim_right` drops consists of characters that satisfy `p`.
  keep_if-append :
      (c : Char) (s t : String)
      → AllChars t
      → (u : String) × AllChars u × (keep_if (p c) c s ++ u ≡ c ∷ (s ++ t))
  keep_if-append c [] t h = elim (Bool-cases (p c)) [
    | inl drop ↦ (c ∷ t, (drop, h), rw drop (rw (nil-append, nil-append)))
    | inr keep ↦ (t, h, rw keep (cons-append c [] t ∙ ap (λ r. c ∷ r) refl))
  ]
  keep_if-append c (d ∷ s) t h = (t, h, cons-append c (d ∷ s) t)

  pub trim_right-append : (s : String) → (t : String) × AllChars t × (trim_right p s ++ t ≡ s)
  unfolding trim_right
  trim_right-append [] = ([], tt, nil-append [])
  trim_right-append (c ∷ s) =
      let (t, dropped, e) = trim_right-append s in
      let (u, all_dropped, e') = keep_if-append c (trim_right p s) t dropped in
      (u, all_dropped, e' ∙ ap (λ r. c ∷ r) e)

  -- Trimming on the right keeps the first character, unless nothing is left.
  pub keep_if-FirstNot :
      (q : Bool) (c : Char) (s : String) → FirstNot (c ∷ s) → FirstNot (keep_if q c s)
  keep_if-FirstNot true c [] h = tt
  keep_if-FirstNot false c [] h = h
  keep_if-FirstNot q c (d ∷ s) h = h

  pub trim_right-FirstNot : (q : Char → Bool) (s : String) → FirstNot s → FirstNot (trim_right q s)
  unfolding trim_right
  trim_right-FirstNot q [] h = tt
  trim_right-FirstNot q (c ∷ s) h = keep_if-FirstNot (q c) c (trim_right q s) h

-- No white space at either end.
pub record IsTrimmed (s : String) : Type 0 where
  pub first : FirstNot is_space s
  pub last : LastNot is_space s

pub trim_space-IsTrimmed : (s : String) → IsTrimmed (trim_space s)
unfolding trim_space
trim_space-IsTrimmed s = record {
  first = trim_right-FirstNot is_space is_space _ (trim_left-FirstNot is_space s);
  last = trim_right-LastNot is_space _;
}

pub trim_space_of_IsTrimmed : (s : String) → IsTrimmed s → trim_space s ≡ s
unfolding trim_space
trim_space_of_IsTrimmed s h =
    ap (trim_right is_space) (trim_left_of_FirstNot is_space s h.first)
    ∙ trim_right_of_LastNot is_space s h.last

pub trim_space_idem : (s : String) → trim_space (trim_space s) ≡ trim_space s
trim_space_idem s = trim_space_of_IsTrimmed _ (trim_space-IsTrimmed s)

pub trim_slashes_idem : (s : String) → trim_slashes (trim_slashes s) ≡ trim_slashes s
unfolding trim_slashes
trim_slashes_idem s = trim_right_of_LastNot is_slash _ (trim_right-LastNot is_slash s)
