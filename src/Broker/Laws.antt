-- ===== src/Broker/Laws.antt =====
-- What the lists of paths and scopes hold.
use mathlib.Core.Path.{subst}
use mathlib.Core.Bool.{false≢true}
use go_mcp_oauth_sdk.Prelude.{
  String, ◌≡◌, ◌≢◌, ◌↔◌, sym, ap, ◌∙◌, Option, some, List, [], ◌∷◌, inl, inr, arith, eq_iff, Any,
  Any-map, In, Distinct, contains, contains_iff, Bool-cases,
}
use go_mcp_oauth_sdk.Prelude.Collect.{
  Subsequence, texts, collect, In-texts_iff, In-collect, collect_complete, collect-Distinct,
  collect-Subsequence,
}
use go_mcp_oauth_sdk.Config.{OauthConfig}
use go_mcp_oauth_sdk.Broker.{
  normalized_path, path_of, unique_paths, oidc_scopes, advertised, oidc_scopes_for_advertisement,
}

-- A loop that collects, from an empty set of seen texts.
collected_iff :
    (f : String → Option String) (xs : List String) (r : String)
    → In r (collect f [] xs) ↔ Any (λ x. f x ≡ some r) xs
collected_iff f xs r = (
  (λ m. (In-texts_iff f r xs).0 (In-collect f [] xs r m)),
  λ h. collect_complete f [] xs r ((In-texts_iff f r xs).1 h) (λ m. elim m [ ]),
)

injective : {a b : String} → some a ≡ some b → a ≡ b
injective h = cc

path_of_iff : (r raw : String) → (path_of raw ≡ some r) ↔ ((normalized_path raw "" ≡ r) × (r ≢ ""))
unfolding path_of
path_of_iff r raw = grind (arith, eq_iff (normalized_path raw "") "")

-- `UniquePaths` holds exactly the normal forms that are not empty, each once and in the order of the
-- paths.
pub unique_paths_lem :
    (paths : List String)
    → ((r : String)
        → In r (unique_paths paths) ↔ Any (λ raw. (normalized_path raw "" ≡ r) × (r ≢ "")) paths)
      × Distinct (unique_paths paths)
      × Subsequence (unique_paths paths) (texts path_of paths)
unfolding unique_paths
unique_paths_lem paths = (
  (λ r.
      let (to, from) = collected_iff path_of paths r in
      (
        (λ m. Any-map _ _ (λ raw. (path_of_iff r raw).0) paths (to m)),
        λ h. from (Any-map _ _ (λ raw. (path_of_iff r raw).1) paths h),
      )),
  collect-Distinct path_of [] paths,
  collect-Subsequence path_of [] paths,
)

advertised_iff : (r s : String) → (advertised s ≡ some r) ↔ ((r ≡ s) × In r oidc_scopes)
unfolding advertised
advertised_iff r s =
    let known = contains_iff oidc_scopes s in
    elim (Bool-cases (contains oidc_scopes s)) [
      | inl listed ↦
          rw (listed, advertised)
            (
              (λ e.
                  let same : s ≡ r = injective e in
                  (sym same, subst (λ t. In t oidc_scopes) same (known.0 listed))),
              λ (same, _). ap some (sym same),
            )
      | inr unlisted ↦
          rw (unlisted, advertised)
            (
              (λ e. cc),
              λ (same, m).
                  absurd
                    (false≢true (sym unlisted ∙ known.1 (subst (λ t. In t oidc_scopes) same m))),
            )
    ]

-- A member of the list that is allowed, in the two ways to say so.
both_iff :
    (r : String) (xs : List String)
    → Any (λ s. (r ≡ s) × In r oidc_scopes) xs ↔ (In r xs × In r oidc_scopes)
both_iff r [] = ((λ m. elim m [ ]), λ h. h.0)
both_iff r (x ∷ xs) =
    let (to, from) = both_iff r xs in
    (
      (λ m. elim m [ inl (e, k) ↦ (inl e, k) | inr n ↦ (inr (to n).0, (to n).1) ]),
      λ (m, k). elim m [ inl e ↦ inl (e, k) | inr n ↦ inr (from (n, k)) ],
    )

-- `OIDCScopesForAdvertisement` holds exactly the configured scopes that are openid, email, profile
-- or offline_access, and each of them once.
pub oidc_scopes_for_advertisement_lem :
    (cfg : OauthConfig)
    → ((r : String)
        → In r (oidc_scopes_for_advertisement cfg) ↔ (In r cfg.scopes × In r oidc_scopes))
      × Distinct (oidc_scopes_for_advertisement cfg)
unfolding oidc_scopes_for_advertisement
oidc_scopes_for_advertisement_lem cfg = (
  (λ r.
      let (to, from) = collected_iff advertised cfg.scopes r in
      let (to', from') = both_iff r cfg.scopes in
      (
        (λ m. to' (Any-map _ _ (λ s. (advertised_iff r s).0) cfg.scopes (to m))),
        λ h. from (Any-map _ _ (λ s. (advertised_iff r s).1) cfg.scopes (from' h)),
      )),
  collect-Distinct advertised [] cfg.scopes,
)
