-- ===== src/Strict/Readings.antt =====
-- What the strict readers of single claims take a claim for.
use mathlib.Core.Path.{subst}
use go_mcp_oauth_sdk.Prelude.{
  ◌+◌, ◌*◌, ◌^◌, ◌≤◌, ◌<◌, String, ◌≡◌, ◌≢◌, ◌↔◌, refl, sym, ap, true, false, some, List, [], ◌∷◌,
  inl, inr, arith, map, Option-cases,
}
use go_mcp_oauth_sdk.Prelude.Int.{ℤ, pos, negsuc, pos_part, neg_part, eq_of_parts}
use go_mcp_oauth_sdk.Text.{parse_int}
use go_mcp_oauth_sdk.Errors.{ok}
use go_mcp_oauth_sdk.Errors.Laws.{>>=-eq-ok}
use go_mcp_oauth_sdk.Json.{
  Value, Float64, float64, number, str, arr, null, Object, elems, get, below_int64, above_int64,
  truncate,
}
use go_mcp_oauth_sdk.Strict.{
  Numeric, absent, malformed, value, numeric_of, strict_numeric_claim, string_elements,
  strict_audience_of, strict_audience_claim, whole_seconds,
}

-- A float64 that an int64 holds without its fraction.
abbrev pub FitsInt64 : Float64 → Type 0
FitsInt64 x =
    (x.negative ≡ true → x.numerator ≤ 2 ^ 63 * 2 ^ x.scale)
    × (x.negative ≡ false → x.numerator < 2 ^ 63 * 2 ^ x.scale)

-- A number of whole seconds, as JSON holds it: a float64 in range, or the text of an int64.
abbrev pub Seconds : Value → ℤ → Type 0
Seconds (float64 x) n = FitsInt64 x × (truncate x ≡ n)
Seconds (number s) n = parse_int s ≡ some n
Seconds _ n = ⊥

-- One text, or an array of nothing but texts.
abbrev pub Texts : Value → List String → Type 0
Texts (str s) l = l ≡ s ∷ []
Texts (arr vs) l = elems vs ≡ map str l
Texts _ l = ⊥

-- `w` whole seconds in `d` nanoseconds, rounded towards zero.
abbrev pub Truncated : ℤ → ℤ → Type 0
Truncated d w =
    (1_000_000_000 * pos_part w ≤ pos_part d)
    × (pos_part d < 1_000_000_000 * (pos_part w + 1))
    × (1_000_000_000 * neg_part w ≤ neg_part d)
    × (neg_part d < 1_000_000_000 * (neg_part w + 1))

pub whole_seconds-Truncated : (d : ℤ) → Truncated d (whole_seconds d)
unfolding whole_seconds
whole_seconds-Truncated (pos n) = ground arith
whole_seconds-Truncated (negsuc n) = ground arith

pub Truncated-unique : (d w w' : ℤ) → Truncated d w → Truncated d w' → w ≡ w'
Truncated-unique d w w' h k = eq_of_parts w w' (omega arith)

float_iff :
    (x : Float64) (n : ℤ) → (numeric_of (float64 x) ≡ value n) ↔ (FitsInt64 x × (truncate x ≡ n))
unfolding numeric_of below_int64 above_int64
float_iff x n = ground arith

numeric_of_iff : (v : Value) (n : ℤ) → (numeric_of v ≡ value n) ↔ Seconds v n
unfolding numeric_of
numeric_of_iff (float64 x) n = float_iff x n
numeric_of_iff (number s) n = elim (Option-cases (parse_int s)) [
  | inl e ↦ rw (e, numeric_of) ((λ h. cc), λ h. cc)
  | inr (m, e) ↦ rw (e, numeric_of) ((λ h. cc), λ h. cc)
]
numeric_of_iff _ n = ((λ h. cc), λ h. absurd h)

numeric_of-ne-absent : (v : Value) → numeric_of v ≢ absent
unfolding numeric_of
numeric_of-ne-absent (float64 x) h = ground arith
numeric_of-ne-absent (number s) h = ground arith
numeric_of-ne-absent _ h = cc

-- A present claim holds a whole number of seconds that satisfies `P`; an absent one is fine.
abbrev pub IfPresent : (ℤ → Type 0) → Numeric → Type 0
IfPresent P absent = Unit
IfPresent P malformed = ⊥
IfPresent P (value n) = P n

-- The claim is there and holds a number that satisfies `P`.
abbrev pub Present : (ℤ → Type 0) → Numeric → Type 0
Present P absent = ⊥
Present P malformed = ⊥
Present P (value n) = P n

module _ (P : ℤ → Type 0) where
  value_iff : (c : Numeric) → Present P c ↔ ((n : ℤ) × (c ≡ value n) × P n)
  value_iff absent = ((λ h. absurd h), λ (n, e, p). cc)
  value_iff malformed = ((λ h. absurd h), λ (n, e, p). cc)
  value_iff (value n) = ((λ h. (n, refl, h)), λ (m, e, p). subst P (same (sym e)) p)
    where
      same : {a b : ℤ} → value a ≡ value b → a ≡ b
      same h = cc

  given_iff : (c : Numeric) → c ≢ absent → IfPresent P c ↔ Present P c
  given_iff absent h = absurd (h refl)
  given_iff malformed h = ((λ p. p), λ p. p)
  given_iff (value n) h = ((λ p. p), λ p. p)

  -- The reading of a claim that is there.
  holds_iff : (v : Value) → Present P (numeric_of v) ↔ ((n : ℤ) × Seconds v n × P n)
  holds_iff v =
      let h = value_iff (numeric_of v) in
      (
        (λ p. let (n, e, q) = h.0 p in (n, (numeric_of_iff v n).0 e, q)),
        λ (n, e, q). h.1 (n, (numeric_of_iff v n).1 e, q),
      )

  pub claim-Present_iff :
      (raw : Object) (key : String)
      → Present P (strict_numeric_claim raw key)
        ↔ ((v : Value) × (n : ℤ) × (get raw key ≡ some v) × Seconds v n × P n)
  unfolding strict_numeric_claim
  claim-Present_iff raw key = elim (Option-cases (get raw key)) [
    | inl e ↦ rw (e, strict_numeric_claim) ((λ h. absurd h), λ (v, n, e', s, q). cc)
    | inr (v, e) ↦
        let h = holds_iff v in
        rw (e, strict_numeric_claim)
          (
            (λ p. let (n, s, q) = h.0 p in (v, n, refl, s, q)),
            λ (v', n, e', s, q). h.1 (n, subst (λ v. Seconds v n) (same (sym e')) s, q),
          )
  ]
    where
      same : {a b : Value} → some a ≡ some b → a ≡ b
      same h = cc

  pub claim-IfPresent_iff :
      (raw : Object) (key : String)
      → IfPresent P (strict_numeric_claim raw key)
        ↔ ((v : Value) → get raw key ≡ some v → (n : ℤ) × Seconds v n × P n)
  unfolding strict_numeric_claim
  claim-IfPresent_iff raw key = elim (Option-cases (get raw key)) [
    | inl e ↦ rw (e, strict_numeric_claim) ((λ h v e'. cc), λ h. tt)
    | inr (v, e) ↦
        let h = holds_iff v in
        let k = given_iff (numeric_of v) (numeric_of-ne-absent v) in
        rw (e, strict_numeric_claim)
          (
            (λ p v' e'. subst (λ v. (n : ℤ) × Seconds v n × P n) (same e') (h.0 (k.0 p))),
            λ f. k.1 (h.1 (f v refl)),
          )
  ]
    where
      same : {a b : Value} → some a ≡ some b → a ≡ b
      same h = cc

elements_read : (vs : List Value) (l : List String) → string_elements vs ≡ ok l → vs ≡ map str l
unfolding string_elements
elements_read [] [] h = refl
elements_read [] (s ∷ l) h = cc
elements_read (str s ∷ vs) l h =
    let (rest, e, done) = >>=-eq-ok _ _ h in
    subst (λ l. (str s ∷ vs) ≡ map str l) (same done)
      (ap (λ vs. str s ∷ vs) (elements_read vs rest e))
  where
    same : {a b : List String} → ok a ≡ ok b → a ≡ b
    same h = cc
elements_read (_ ∷ vs) l h = cc

texts_read : (l : List String) → string_elements (map str l) ≡ ok l
unfolding string_elements
texts_read [] = refl
texts_read (s ∷ l) = rw (texts_read l) refl

audience_of_iff : (v : Value) (l : List String) → (strict_audience_of v ≡ ok l) ↔ Texts v l
unfolding strict_audience_of
audience_of_iff (str s) l = ((λ h. cc), λ h. cc)
audience_of_iff (arr vs) l = (
  elements_read (elems vs) l,
  λ h. subst (λ es. string_elements es ≡ ok l) (sym h) (texts_read l),
)
audience_of_iff null l = ((λ h. cc), λ h. absurd h)
audience_of_iff _ l = ((λ h. cc), λ h. absurd h)

pub audience_claim_iff :
    (raw : Object) (l : List String)
    → (strict_audience_claim raw ≡ ok l) ↔ ((v : Value) × (get raw "aud" ≡ some v) × Texts v l)
unfolding strict_audience_claim
audience_claim_iff raw l = elim (Option-cases (get raw "aud")) [
  | inl e ↦ rw (e, strict_audience_claim) ((λ h. cc), λ (v, e', h). cc)
  | inr (v, e) ↦
      let h = audience_of_iff v l in
      rw (e, strict_audience_claim)
        ((λ r. (v, refl, h.0 r)), λ (v', e', r). h.1 (subst (λ v. Texts v l) (same (sym e')) r))
]
  where
    same : {a b : Value} → some a ≡ some b → a ≡ b
    same h = cc
