-- ===== src/Policy/Scopes.antt =====
-- Required scopes: a subset test.
use go_mcp_oauth_sdk.Prelude.{
  String, ◌≡◌, refl, ◌↔◌, true, inl, inr, List, [], ◌∷◌, All, In, contains, contains_iff,
  Bool-cases,
}
use go_mcp_oauth_sdk.Policy.{has_required_scopes}

-- `HasRequiredScopes` holds exactly when each required scope is, byte for byte, one of the token's.
pub has_required_scopes_iff :
    (token_scopes required_scopes : List String)
    → (has_required_scopes token_scopes required_scopes ≡ true)
      ↔ All (λ s. In s token_scopes) required_scopes
unfolding has_required_scopes
has_required_scopes_iff token_scopes [] = ((λ _. tt), λ _. refl)
has_required_scopes_iff token_scopes (s ∷ rest) =
    let ih = has_required_scopes_iff token_scopes rest in
    let here = contains_iff token_scopes s in
    elim (Bool-cases (contains token_scopes s)) [
      | inl found ↦ rw found ((λ h. (here.0 found, ih.0 h)), λ h. ih.1 h.1)
      | inr missing ↦ rw missing ((λ h. cc), λ h. cc (missing, here.1 h.0))
    ]
