-- ===== src/Broker/Resource.antt =====
-- The canonical form of a resource URL, beside the tolerant comparison of audiences.
use Prim.Native.String.{[], ◌∷◌, ◌++◌}
use mathlib.Core.Path.{subst}
use text.Mathlib.TextLemmas.{nil-append, cons-append}
use go_mcp_oauth_sdk.Prelude.{
  String, ◌≡◌, ◌↔◌, refl, sym, ap, ◌∙◌, Bool, true, false, List, Any, inl, inr, eq-cases,
}
use go_mcp_oauth_sdk.Text.{
  is_space, is_slash, trim_left, trim_right, keep_if, trim_space, trim_slashes,
}
use go_mcp_oauth_sdk.Text.Trim.{
  FirstNot, LastNot, IsTrimmed, trim_space-IsTrimmed, trim_space_of_IsTrimmed, trim_right-FirstNot,
  trim_slashes_idem,
}
use go_mcp_oauth_sdk.Jwt.{comparable, audience_matches_resource}
use go_mcp_oauth_sdk.Jwt.Audience.{audience_matches_resource_iff}
use go_mcp_oauth_sdk.Broker.{canonical_resource_url}

-- A slash at the end is the last character, and trimming takes it away.
FirstNot-slash : (s : String) → FirstNot is_space s → FirstNot is_space (s ++ "/")
unfolding is_space
FirstNot-slash [] h = subst (FirstNot is_space) (sym (nil-append "/")) refl
FirstNot-slash (c ∷ s) h = subst (FirstNot is_space) (sym (cons-append c s "/")) h

LastNot-slash : (s : String) → LastNot is_space (s ++ "/")
unfolding is_space
LastNot-slash [] = subst (LastNot is_space) (sym (nil-append "/")) refl
LastNot-slash (c ∷ []) =
    subst (LastNot is_space) (sym (cons-append c [] "/" ∙ ap (λ r. c ∷ r) (nil-append "/"))) refl
LastNot-slash (c ∷ (d ∷ s)) =
    let rest : LastNot is_space (d ∷ (s ++ "/")) =
      subst (LastNot is_space) (cons-append d s "/") (LastNot-slash (d ∷ s)) in
    subst (LastNot is_space)
      (sym (cons-append c (d ∷ s) "/" ∙ ap (λ r. c ∷ r) (cons-append d s "/"))) rest

trim_slashes-slash : (s : String) → trim_slashes (s ++ "/") ≡ trim_slashes s
unfolding trim_slashes trim_right is_slash
trim_slashes-slash [] = ap (trim_right is_slash) (nil-append "/")
trim_slashes-slash (c ∷ s) =
    ap (trim_right is_slash) (cons-append c s "/")
    ∙ ap (keep_if (is_slash c) c) (trim_slashes-slash s)

-- The canonical form of a URL is compared like the URL itself.
comparable-canonical : (raw : String) → comparable (canonical_resource_url raw) ≡ comparable raw
unfolding comparable canonical_resource_url trim_space trim_right trim_left trim_slashes
comparable-canonical raw = elim (eq-cases (trim_space raw) "") [
  | inl (t, e) ↦ rw (t, e) refl
  | inr (t, ne) ↦
      let trimmed = trim_space-IsTrimmed raw in
      let base = trim_slashes (trim_space raw) in
      let kept : IsTrimmed (base ++ "/") = record {
        first = FirstNot-slash base (trim_right-FirstNot is_space is_slash _ trimmed.first);
        last = LastNot-slash base;
      } in
      rw t (
        ap trim_slashes (trim_space_of_IsTrimmed (base ++ "/") kept)
        ∙ trim_slashes-slash base
        ∙ trim_slashes_idem (trim_space raw))
]

same_test : (b c : Bool) → (b ≡ true) ↔ (c ≡ true) → b ≡ c
same_test true c h = sym (h.0 refl)
same_test false true h = h.1 refl
same_test false false h = refl

-- The audiences of a token match the canonical form of a resource URL exactly if they match the URL
-- itself.
pub audience_matches_resource-canonical :
    (audiences : List String) (raw : String)
    → audience_matches_resource audiences (canonical_resource_url raw)
      ≡ audience_matches_resource audiences raw
audience_matches_resource-canonical audiences raw =
    let plain = audience_matches_resource_iff audiences raw in
    let canonical =
      subst
        (λ k.
          (audience_matches_resource audiences (canonical_resource_url raw) ≡ true)
          ↔ Any (λ c. comparable c ≡ k) audiences)
        (comparable-canonical raw)
        (audience_matches_resource_iff audiences (canonical_resource_url raw)) in
    same_test _ _ ((λ h. plain.1 (canonical.0 h)), λ h. canonical.1 (plain.0 h))
