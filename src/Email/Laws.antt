-- ===== src/Email/Laws.antt =====
-- Which email a token resolves to.
use Prim.Native.String
use go_mcp_oauth_sdk.Prelude.{
  String, ◌≡◌, refl, ap, inl, inr, false, none, some, List, [], ◌∷◌, arith, ◌==◌, if◌then◌else◌,
  Option-cases, eq-cases, All,
}
use go_mcp_oauth_sdk.Text.{trim_space, has_suffix}
use go_mcp_oauth_sdk.Json.{Value, Object, get_bool}
use go_mcp_oauth_sdk.Errors.{
  Result, ok, err, sentinel, email_claim_missing, email_claim_ambiguous, ◌>>=◌,
}
use go_mcp_oauth_sdk.Claims.{Claims}
use go_mcp_oauth_sdk.Email.{
  EmailIdentity, candidate, find_email, with_evidence, resolve_email_identity,
}

-- The usable namespaced emails of a claim map, each with its key.
unfoldable pub usable : Object → List (String × String)
usable [] = []
usable ((key, value) ∷ extra) = elim (candidate key value) [
  | none ↦ usable extra
  | some found ↦ (key, found) ∷ usable extra
]

-- No key that ends in "/email" is empty, so the empty `emailKey` means that none was found.
pub candidate-key : (value : Value) → candidate "" value ≡ none
unfolding candidate has_suffix
candidate-key value = refl

-- What the loop returns, from the list of usable emails.
abbrev pub outcome : String → String → List (String × String) → Result (String × String)
outcome key email [] = ok (key, email)
outcome key email (found ∷ []) =
    if key == "" then ok found else err (sentinel email_claim_ambiguous)
outcome key email (found ∷ (other ∷ rest)) = err (sentinel email_claim_ambiguous)

pub candidate-ne-nil :
    (k : String) (v : Value) {t : String} → candidate k v ≡ some t → (k == "") ≡ false
candidate-ne-nil k v e = elim (eq-cases k "") [
  | inl (_, same) ↦ absurd (cc (candidate-key v, ap (λ j. candidate j v) same, e))
  | inr (other, _) ↦ other
]

outcome_step :
    (key email k found : String) (us : List (String × String))
    → (k == "") ≡ false
    → (if key == "" then outcome k found us else err (sentinel email_claim_ambiguous))
      ≡ outcome key email ((k, found) ∷ us)
outcome_step key email k found [] h = refl
outcome_step key email k found (u ∷ []) h = ground arith
outcome_step key email k found (u ∷ (w ∷ us)) h = ground arith

find_email-eq-outcome :
    (extra : Object) (key email : String)
    → find_email extra key email ≡ outcome key email (usable extra)
unfolding find_email usable
find_email-eq-outcome [] key email = refl
find_email-eq-outcome ((k, v) ∷ extra) key email = elim (Option-cases (candidate k v)) [
  | inl e ↦ rw (e, find_email, usable) (find_email-eq-outcome extra key email)
  | inr (found, e) ↦
      rw (e, find_email, usable)
        (rw (find_email-eq-outcome extra k found)
          (outcome_step key email k found (usable extra) (candidate-ne-nil k v e)))
]

-- What the namespaced claims give, from the list of usable emails.
abbrev pub namespaced : Object → List (String × String) → Result EmailIdentity
namespaced extra [] = err (sentinel email_claim_missing)
namespaced extra ((key, email) ∷ []) = ok (record {
  email = email;
  email_verified = elim (get_bool extra (String.◌++◌ key "_verified")) [
    | none ↦ false
    | some b ↦ b
  ];
})
namespaced extra (_ ∷ (_ ∷ _)) = err (sentinel email_claim_ambiguous)

usable-ne-nil : (extra : Object) → All (λ u. (u.0 == "") ≡ false) (usable extra)
unfolding usable
usable-ne-nil [] = tt
usable-ne-nil ((k, v) ∷ extra) = elim (Option-cases (candidate k v)) [
  | inl e ↦ rw (e, usable) (usable-ne-nil extra)
  | inr (found, e) ↦ rw (e, usable) (candidate-ne-nil k v e, usable-ne-nil extra)
]

outcome-namespaced :
    (extra : Object) (us : List (String × String))
    → All (λ u. (u.0 == "") ≡ false) us
    → (outcome "" "" us >>= with_evidence extra) ≡ namespaced extra us
unfolding with_evidence
outcome-namespaced extra [] h = refl
outcome-namespaced extra ((k, t) ∷ []) h = rw h.0
outcome-namespaced extra (_ ∷ (_ ∷ us)) h = refl

pub resolve_email_identity-eq :
    (c : Claims)
    → resolve_email_identity (some c) ≡ (
        if trim_space c.email == ""
        then namespaced c.extra (usable c.extra)
        else ok (record { email = trim_space c.email; email_verified = c.email_verified }))
unfolding resolve_email_identity
resolve_email_identity-eq c =
    rw (find_email-eq-outcome c.extra "" "", outcome-namespaced c.extra _ (usable-ne-nil c.extra))
