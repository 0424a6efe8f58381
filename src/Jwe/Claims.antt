-- ===== src/Jwe/Claims.antt =====
-- The whitelist of claim names and the expiration of sealed claims.
use go_mcp_oauth_sdk.Prelude.{
  String, ◌≡◌, ◌↔◌, refl, Option, none, some, List, [], ◌∷◌, inl, inr, arith, All, In, contains,
  contains_iff, Bool-cases, Option-cases,
}
use go_mcp_oauth_sdk.Prelude.Int.{ℤ, ◌≤ℤ◌}
use go_mcp_oauth_sdk.Prelude.Perm.{Reorder}
use go_mcp_oauth_sdk.Errors.{ok}
use go_mcp_oauth_sdk.Errors.Laws.{>>-eq-ok}
use go_mcp_oauth_sdk.Json.{Value, Object, IsMap, get}
use go_mcp_oauth_sdk.Json.Order.{get-Reorder}
use go_mcp_oauth_sdk.Platform.{Platform}
use go_mcp_oauth_sdk.Jwe.{
  Crypto, allowed_keys, validate_claims_whitelist, exp_time, check_exp, validate_expiration,
  check_opened,
}

-- Each name is on the whitelist.
abbrev pub Allowed : Object → Type 0
Allowed claims = All (λ ((k, v) : String × Value). In k allowed_keys) claims

-- A claim `exp` is an integer of a type that is accepted, and not in the past.
abbrev pub Lasts : ℤ → Option ℤ → Type 0
Lasts now none = ⊥
Lasts now (some t) = now ≤ℤ t

abbrev pub LastsIfSet : Platform → ℤ → Option Value → Type 0
LastsIfSet p now none = Unit
LastsIfSet p now (some v) = Lasts now (exp_time p v)

pub validate_claims_whitelist_iff :
    (claims : Object) → (validate_claims_whitelist claims ≡ ok tt) ↔ Allowed claims
unfolding validate_claims_whitelist
validate_claims_whitelist_iff [] = ((λ h. tt), λ h. refl)
validate_claims_whitelist_iff ((k, v) ∷ claims) =
    let ih = validate_claims_whitelist_iff claims in
    let here = contains_iff allowed_keys k in
    elim (Bool-cases (contains allowed_keys k)) [
      | inl known ↦ rw known ((λ h. (here.0 known, ih.0 h)), λ h. ih.1 h.1)
      | inr unknown ↦ rw unknown ((λ h. cc), λ h. cc (unknown, here.1 h.0))
    ]

check_exp_iff : (now : ℤ) (t : Option ℤ) → (check_exp now t ≡ ok tt) ↔ Lasts now t
unfolding check_exp
check_exp_iff now none = ((λ h. cc), λ h. absurd h)
check_exp_iff now (some t) = ground arith

pub validate_expiration_iff :
    (p : Platform) (now : ℤ) (claims : Object)
    → (validate_expiration p now claims ≡ ok tt) ↔ LastsIfSet p now (get claims "exp")
unfolding validate_expiration
validate_expiration_iff p now claims = elim (Option-cases (get claims "exp")) [
  | inl e ↦ rw (e, validate_expiration) ((λ h. tt), λ h. refl)
  | inr (v, e) ↦ rw (e, validate_expiration) (check_exp_iff now (exp_time p v))
]

-- Both checks, in either order of the claims.
All-Reorder : {A : Type 0} (P : A → Type 0) {xs ys : List A} → Reorder xs ys → All P xs → All P ys
All-Reorder P Reorder.empty h = h
All-Reorder P (Reorder.keep x r) h = (h.0, All-Reorder P r h.1)
All-Reorder P (Reorder.swap x y xs) (a, (b, h)) = (b, (a, h))
All-Reorder P (Reorder.trans r s) h = All-Reorder P s (All-Reorder P r h)

module _ {Signer Encrypter Encrypted Signed : Type 0} (c : Crypto Signer Encrypter Encrypted Signed)
    (p : Platform) (now : ℤ) where
  pub check_opened_iff :
      (claims o : Object)
      → (check_opened c p now claims ≡ ok o)
        ↔ (Allowed claims × LastsIfSet p now (get claims "exp") × (claims ≡ o))
  unfolding check_opened
  check_opened_iff claims o =
      let names = validate_claims_whitelist_iff claims in
      let time = validate_expiration_iff p now claims in
      (
        (λ h.
            let (a, h1) = >>-eq-ok _ _ h in
            let (b, h2) = >>-eq-ok _ _ h1 in (names.0 a, time.0 b, ground (arith, h2))),
        λ (a, b, e). rw (names.1 a, time.1 b, e) refl,
      )

  pub check_opened-Reorder :
      {claims o : Object}
      → Reorder claims o
      → IsMap claims
      → Allowed claims
      → LastsIfSet p now (get claims "exp")
      → check_opened c p now o ≡ ok o
  check_opened-Reorder {claims} {o} r unique a b =
      (check_opened_iff o o).1 (All-Reorder _ r a, rw (← get-Reorder "exp" r unique) b, refl)
