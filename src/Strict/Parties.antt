-- ===== src/Strict/Parties.antt =====
-- The strict checks of the issuer and the audience.
use mathlib.Core.Path.{subst}
use go_mcp_oauth_sdk.Prelude.{
  String, ◌≡◌, ◌≢◌, ◌↔◌, refl, sym, ap, ◌∙◌, true, false, some, List, [], ◌∷◌, inl, inr, arith,
  eq_iff, Any, In, contains, contains_iff, any_iff, Bool-cases, Option-cases,
}
use go_mcp_oauth_sdk.Errors.{ok}
use go_mcp_oauth_sdk.Errors.Laws.{Result-cases}
use go_mcp_oauth_sdk.Json.{Value, str, Object, get, as_string}
use go_mcp_oauth_sdk.Text.{trim_space}
use go_mcp_oauth_sdk.Strict.Readings.{Texts, audience_claim_iff}
use go_mcp_oauth_sdk.Strict.{
  is_blank, non_blank, strict_audience_claim, strict_audience_intersects, issuer_matches,
  check_issuer, check_audience,
}

-- An audience of the policy: one that is not blank.
abbrev pub Expected : List String → String → Type 0
Expected expected a = In a expected × (trim_space a ≢ "")

injective : {A : Type 0} {a b : A} → some a ≡ some b → a ≡ b
injective h = cc

as_string-eq-some : (v : Value) (s : String) → (as_string v ≡ some s) ↔ (v ≡ str s)
as_string-eq-some (str t) s = ((λ h. ap str (cc)), λ h. cc)
as_string-eq-some _ s = ((λ h. cc), λ h. cc)

issuer_matches_iff :
    (expected : String) (raw : Object)
    → (issuer_matches expected raw ≡ true) ↔ (get raw "iss" ≡ some (str expected))
unfolding issuer_matches
issuer_matches_iff expected raw = elim (Option-cases (get raw "iss")) [
  | inl e ↦ rw (e, issuer_matches) ((λ h. cc), λ h. cc)
  | inr (v, e) ↦
      let text = as_string-eq-some v expected in
      elim (Option-cases (as_string v)) [
        | inl e' ↦ rw (e, issuer_matches, e') ((λ h. cc), λ h. cc (e', text.1 (injective h)))
        | inr (t, e') ↦
            let same = eq_iff t expected in
            rw (e, issuer_matches, e')
              (
                (λ h. ap some (text.0 (e' ∙ ap some (same.0 h)))),
                λ h. same.1 (injective (sym e' ∙ text.1 (injective h))),
              )
      ]
]

pub check_issuer_iff :
    (expected : String) (raw : Object)
    → (check_issuer expected raw ≡ ok tt) ↔ (expected ≢ "" → get raw "iss" ≡ some (str expected))
unfolding check_issuer
check_issuer_iff expected raw = ground (arith, eq_iff expected "", issuer_matches_iff expected raw)

blank_iff : (e : String) → (is_blank e ≡ true) ↔ (trim_space e ≡ "")
unfolding is_blank
blank_iff e = eq_iff (trim_space e) ""

solid_text : (e : String) → is_blank e ≡ false → trim_space e ≢ ""
solid_text e solid b = ground (arith, (blank_iff e).1 b)

In-non_blank_iff :
    (expected : List String) (a : String) → In a (non_blank expected) ↔ Expected expected a
unfolding non_blank
In-non_blank_iff [] a = ((λ h. elim h [ ]), λ h. h.0)
In-non_blank_iff (e ∷ expected) a =
    let ih = In-non_blank_iff expected a in
    elim (Bool-cases (is_blank e)) [
      | inl blank ↦ rw blank (
        (λ h. let (m, b) = ih.0 h in (inr m, b)),
        λ (m, b). elim m [
          | inl same ↦ absurd (b (ap trim_space same ∙ (blank_iff e).0 blank))
          | inr m' ↦ ih.1 (m', b)
        ],
      )
      | inr solid ↦ rw solid (
        (λ h. elim h [
          | inl same ↦ (inl same, λ b. absurd (solid_text e solid (ap trim_space (sym same) ∙ b)))
          | inr m ↦ (inr (ih.0 m).0, (ih.0 m).1)
        ]),
        λ (m, b). elim m [ inl same ↦ inl same | inr m' ↦ inr (ih.1 (m', b)) ],
      )
    ]

intersects_iff :
    (audiences expected : List String)
    → (strict_audience_intersects audiences expected ≡ true) ↔ Any (Expected expected) audiences
unfolding strict_audience_intersects
intersects_iff audiences expected =
    any_iff (λ a. contains (non_blank expected) a) (Expected expected)
      (λ a.
        let c = contains_iff (non_blank expected) a in
        let n = In-non_blank_iff expected a in ((λ h. n.0 (c.0 h)), λ h. c.1 (n.1 h)))
      audiences

check_audience_iff :
    (expected : List String) (raw : Object)
    → (check_audience expected raw ≡ ok tt) ↔ (
        (audiences : List String) × (strict_audience_claim raw ≡ ok audiences)
        × Any (Expected expected) audiences)
unfolding check_audience
check_audience_iff expected raw = elim (Result-cases (strict_audience_claim raw)) [
  | inl (l, e) ↦
      let meet = intersects_iff l expected in
      rw (e, check_audience)
        (
          (λ h. (l, refl, meet.0 (ground (arith, h)))),
          λ (l', e', m). ground (arith, meet.1 (subst (Any (Expected expected)) (sym (same e')) m)),
        )
  | inr (f, e) ↦ rw (e, check_audience) ((λ h. cc), λ (l', e', m). cc)
]
  where
    same : {l l' : List String} → ok l ≡ ok l' → l ≡ l'
    same h = cc

pub audience_meets :
    (expected : List String) (raw : Object)
    → (check_audience expected raw ≡ ok tt) ↔ (
        (v : Value) × (audiences : List String) × (get raw "aud" ≡ some v)
        × Texts v audiences
        × Any (Expected expected) audiences)
audience_meets expected raw =
    let c = check_audience_iff expected raw in
    (
      (λ h.
          let (l, e, any) = c.0 h in
          let (v, found, texts) = (audience_claim_iff raw l).0 e in (v, l, found, texts, any)),
      λ (v, l, found, texts, any). c.1 (l, (audience_claim_iff raw l).1 (v, found, texts), any),
    )
