-- ===== src/Email/Order.antt =====
-- Go visits the entries of a map in no fixed order; the resolved email does not depend on it, and is
-- always usable as an identity.
use Prim.Native.String
use mathlib.Core.Path.{fun_ext, subst}
use go_mcp_oauth_sdk.Policy
use go_mcp_oauth_sdk.Prelude.{
  String, ◌≡◌, refl, sym, ◌∙◌, ◌≢◌, ◌⊎◌, inl, inr, false, none, some, List, [], ◌∷◌, arith, ◌==◌,
  eq_iff, if◌then◌else◌, Option-cases, eq-cases, All,
}
use go_mcp_oauth_sdk.Prelude.Perm.{Reorder}
use go_mcp_oauth_sdk.Text.{trim_space}
use go_mcp_oauth_sdk.Text.Trim.{IsTrimmed, trim_space-IsTrimmed}
use go_mcp_oauth_sdk.Json.{Value, Object, IsMap, str, get_bool}
use go_mcp_oauth_sdk.Json.Order.{get-Reorder}
use go_mcp_oauth_sdk.Errors.{ok, err, sentinel, email_claim_ambiguous}
use go_mcp_oauth_sdk.Claims.{Claims}
use go_mcp_oauth_sdk.Platform.{Platform}
use go_mcp_oauth_sdk.Email.{
  EmailIdentity, usable_text, candidate, find_email, with_evidence, resolve_email_identity,
}
use go_mcp_oauth_sdk.Email.Laws.{candidate-ne-nil, usable, namespaced, resolve_email_identity-eq}

-- One step of the loop, as an equation for each answer of the test.
module _ (k : String) (v : Value) (extra : Object) (key email : String) where
  find_email_skipped :
      candidate k v ≡ none → find_email ((k, v) ∷ extra) key email ≡ find_email extra key email
  unfolding find_email
  find_email_skipped e = rw (e, find_email)

  find_email_found :
      {t : String}
      → candidate k v ≡ some t
      → find_email ((k, v) ∷ extra) key email
        ≡ (if key == "" then find_email extra k t else err (sentinel email_claim_ambiguous))
  unfolding find_email
  find_email_found e = rw (e, find_email)

find_email-keep :
    (k : String) (v : Value) (o o' : Object) (key email : String)
    → ((j e : String) → find_email o j e ≡ find_email o' j e)
    → find_email ((k, v) ∷ o) key email ≡ find_email ((k, v) ∷ o') key email
find_email-keep k v o o' key email h = elim (Option-cases (candidate k v)) [
  | inl e ↦
      find_email_skipped k v o key email e
      ∙ h key email
      ∙ sym (find_email_skipped k v o' key email e)
  | inr (t, e) ↦ rw (find_email_found k v o key email e, find_email_found k v o' key email e, h k t)
]

key_cases : (k : String) (v : Value) → (candidate k v ≡ none) ⊎ ((k == "") ≡ false)
key_cases k v = elim (Option-cases (candidate k v)) [
  | inl e ↦ inl e
  | inr (t, e) ↦ inr (candidate-ne-nil k v e)
]

find_email-swap :
    (j : String) (v : Value) (k : String) (w : Value) (o : Object) (key email : String)
    → find_email ((j, v) ∷ ((k, w) ∷ o)) key email ≡ find_email ((k, w) ∷ ((j, v) ∷ o)) key email
unfolding find_email
find_email-swap j v k w o key email = ground (arith, key_cases j v, key_cases k w)

find_email-Reorder :
    {o o' : Object}
    → Reorder o o'
    → (key email : String) → find_email o key email ≡ find_email o' key email
find_email-Reorder Reorder.empty key email = refl
find_email-Reorder {o = _ ∷ o} {o' = _ ∷ o'} (Reorder.keep (k, v) h) key email =
    find_email-keep k v o o' key email (find_email-Reorder h)
find_email-Reorder (Reorder.swap (j, v) (k, w) o) key email = find_email-swap j v k w o key email
find_email-Reorder (Reorder.trans h h') key email =
    find_email-Reorder h key email ∙ find_email-Reorder h' key email

with_evidence-Reorder :
    {o o' : Object} (found : String × String)
    → Reorder o o'
    → IsMap o
    → with_evidence o found ≡ with_evidence o' found
unfolding with_evidence get_bool
with_evidence-Reorder (key, email) r d = rw (get-Reorder (String.◌++◌ key "_verified") r d)

-- Whatever the order in which Go visits the further claims, where no key stands twice among them,
-- `ResolveEmailIdentity` gives the same identity or the same error.
pub resolve_email_identity_order :
    (c : Claims) (extra : Object)
    → Reorder c.extra extra
    → IsMap c.extra
    → resolve_email_identity (some (record c { extra = extra })) ≡ resolve_email_identity (some c)
unfolding resolve_email_identity
resolve_email_identity_order c extra r d =
    rw (← find_email-Reorder r "" "", ← fun_ext (λ found. with_evidence-Reorder found r d)) refl

-- The text is not empty and has no white space at its ends.
abbrev pub IsUsable : String → Type 0
IsUsable email = (email ≢ "") × IsTrimmed email

candidate-IsUsable : (k : String) (v : Value) (t : String) → candidate k v ≡ some t → IsUsable t
unfolding candidate usable_text
candidate-IsUsable k (str s) t e =
    let same : t ≡ trim_space s = ground arith in
    (ground (arith, eq_iff (trim_space s) ""), rw same (trim_space-IsTrimmed s))
candidate-IsUsable k _ t e = ground arith

usable-IsUsable : (extra : Object) → All (λ u. IsUsable u.1) (usable extra)
unfolding usable
usable-IsUsable [] = tt
usable-IsUsable ((k, v) ∷ extra) = elim (Option-cases (candidate k v)) [
  | inl e ↦ rw (e, usable) (usable-IsUsable extra)
  | inr (t, e) ↦ rw (e, usable) (candidate-IsUsable k v t e, usable-IsUsable extra)
]

namespaced-IsUsable :
    (extra : Object) (us : List (String × String)) (id : EmailIdentity)
    → All (λ u. IsUsable u.1) us
    → namespaced extra us ≡ ok id
    → IsUsable id.email
namespaced-IsUsable extra [] id h e = cc
namespaced-IsUsable extra ((k, t) ∷ []) id h e =
    let same : t ≡ id.email = ground arith in subst IsUsable same h.0
namespaced-IsUsable extra (_ ∷ (_ ∷ us)) id h e = cc

pub resolve_email_identity-IsUsable :
    (c : Claims) (id : EmailIdentity) → resolve_email_identity (some c) ≡ ok id → IsUsable id.email
resolve_email_identity-IsUsable c id e = elim (eq-cases (trim_space c.email) "") [
  | inl (blank, _) ↦
      namespaced-IsUsable c.extra (usable c.extra) id (usable-IsUsable c.extra)
        (rw (resolve_email_identity-eq, blank) at e)
  | inr (present, ne) ↦
      let e' : ok (record { email = trim_space c.email; email_verified = c.email_verified })
          ≡ ok id =
        rw (resolve_email_identity-eq, present) at e in
      let same : trim_space c.email ≡ id.email = ground arith in
      subst IsUsable same (ne, trim_space-IsTrimmed c.email)
]

-- The claims that the README tells a service to check: the original ones with the resolved email.
abbrev pub bound : Claims → EmailIdentity → Claims
bound c id = record c { email = id.email; email_verified = id.email_verified }
