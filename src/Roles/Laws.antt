-- ===== src/Roles/Laws.antt =====
-- Which roles a token activates.
use go_mcp_oauth_sdk.Prelude.{
  String, ◌≡◌, ◌≢◌, ◌↔◌, inl, inr, Bool, true, Option, none, some, List, [], ◌∷◌, arith, eq_iff, In,
  Any, Distinct, eq-cases, Any-map, Option-cases,
}
use go_mcp_oauth_sdk.Prelude.Collect.{
  In-texts_iff, collect, collect-Distinct, collect-Subsequence, collect_complete, In-collect, texts,
  Subsequence,
}
use go_mcp_oauth_sdk.Text.{trim_space}
use go_mcp_oauth_sdk.Json.{Value, str, arr, elems, get}
use go_mcp_oauth_sdk.Claims.{Claims}
use go_mcp_oauth_sdk.Roles.{role_of, roles_of, roles_from_claim}

-- The value names the role `r`: it is a text that is `r` up to white space at its ends.
abbrev pub Names : String → Value → Type 0
Names r (str v) = trim_space v ≡ r
Names r _ = ⊥

-- The value makes `r` an activated role: it names `r`, which is not blank and which the filter
-- matches.
abbrev pub Grants : (String → Bool) → String → Value → Type 0
Grants re r v = Names r v × (r ≢ "") × (re r ≡ true)

role_of_iff :
    (re : String → Bool) (r : String) (v : Value) → (role_of re v ≡ some r) ↔ Grants re r v
unfolding role_of
role_of_iff re r (str v) = grind (arith, eq_iff (trim_space v) "")
role_of_iff re r _ = ((λ h. cc), λ h. elim h.0 [ ])

In-collect_iff :
    (re : String → Bool) (r : String) (vs : List Value)
    → In r (collect (role_of re) [] vs) ↔ Any (Grants re r) vs
In-collect_iff re r vs = (
  (λ m.
      Any-map (λ v. role_of re v ≡ some r) (Grants re r) (λ v. (role_of_iff re r v).0) vs
        ((In-texts_iff (role_of re) r vs).0 (In-collect (role_of re) [] vs r m))),
  λ h.
      collect_complete (role_of re) [] vs r
        ((In-texts_iff (role_of re) r vs).1
          (Any-map (Grants re r) (λ v. role_of re v ≡ some r) (λ v. (role_of_iff re r v).1) vs h))
        (λ m. elim m [ ]),
)

-- The claim holds an array one of whose members grants `r`.
abbrev pub Granted : (String → Bool) → String → Option Value → Type 0
Granted re r none = ⊥
Granted re r (some (arr vs)) = Any (Grants re r) (elems vs)
Granted re r (some _) = ⊥

In-roles_of_iff :
    (re : String → Bool) (r : String) (v : Value) → In r (roles_of re v) ↔ Granted re r (some v)
unfolding roles_of
In-roles_of_iff re r (arr vs) = In-collect_iff re r (elems vs)
In-roles_of_iff re r _ = ((λ m. m), λ m. m)

-- With a filter and a claim name, the result holds exactly the role names that some text in the
-- claim's array gives once trimmed, that are not blank and that the filter matches.
pub In-roles_from_claim_iff :
    (c : Claims) (claim_name : String) (re : String → Bool) (r : String)
    → In r (roles_from_claim (some c) claim_name (some re))
      ↔ ((claim_name ≢ "") × Granted re r (get c.extra claim_name))
unfolding roles_from_claim
In-roles_from_claim_iff c claim_name re r = elim (eq-cases claim_name "") [
  | inl (same, e) ↦ rw same ((λ m. elim m [ ]), λ h. absurd (h.0 e))
  | inr (other, ne) ↦ rw other (elim (Option-cases (get c.extra claim_name)) [
    | inl missing ↦ rw (missing, roles_from_claim) ((λ m. elim m [ ]), λ h. h.1)
    | inr (v, found) ↦
        rw (found, roles_from_claim)
          ((λ m. (ne, (In-roles_of_iff re r v).0 m)), λ h. (In-roles_of_iff re r v).1 h.1)
  ])
]

-- The texts that an array's members give, in the array's order and with repetitions.
abbrev pub granted_texts : (String → Bool) → Option Value → List String
granted_texts re none = []
granted_texts re (some (arr vs)) = texts (role_of re) (elems vs)
granted_texts re (some _) = []

roles_of_order :
    (re : String → Bool) (v : Value)
    → Distinct (roles_of re v) × Subsequence (roles_of re v) (granted_texts re (some v))
unfolding roles_of
roles_of_order re (arr vs) =
    (collect-Distinct (role_of re) [] (elems vs), collect-Subsequence (role_of re) [] (elems vs))
roles_of_order re _ = (tt, Subsequence.empty)

[]-Subsequence : (ys : List String) → Subsequence [] ys
[]-Subsequence [] = Subsequence.empty
[]-Subsequence (y ∷ ys) = Subsequence.skip ([]-Subsequence ys)

-- The result names no role twice, and keeps the order of the claim's array.
pub roles_from_claim_order :
    (c : Claims) (claim_name : String) (re : String → Bool)
    → Distinct (roles_from_claim (some c) claim_name (some re))
      × Subsequence
          (roles_from_claim (some c) claim_name (some re))
          (granted_texts re (get c.extra claim_name))
unfolding roles_from_claim
roles_from_claim_order c claim_name re = elim (eq-cases claim_name "") [
  | inl (same, e) ↦ rw same (tt, []-Subsequence _)
  | inr (other, ne) ↦ rw other (elim (Option-cases (get c.extra claim_name)) [
    | inl missing ↦ rw (missing, roles_from_claim) (tt, Subsequence.empty)
    | inr (v, found) ↦ rw (found, roles_from_claim) (roles_of_order re v)
  ])
]
