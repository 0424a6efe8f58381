-- ===== src/Policy/Domains.antt =====
-- Domain lists, and what the domain of an address is.
use Prim.Native.String.{◌∷◌, ◌++◌}
use go_mcp_oauth_sdk.Prelude.{
  Char, String, ◌≡◌, refl, ap, sym, ◌≢◌, ◌↔◌, true, inl, inr, List, eq_iff, Any, Bool-cases,
}
use go_mcp_oauth_sdk.Text.Split.{Without, split-eq-two_iff}
use go_mcp_oauth_sdk.Text.{trim_space, map_chars}
use go_mcp_oauth_sdk.Platform.{Platform, to_lower, equal_fold}
use go_mcp_oauth_sdk.Policy.{second_of_two, email_domain, contains_domain}

-- Two domains are the same once trimmed and with the case of each character folded.
abbrev pub SameDomain : Platform → String → String → Type 0
SameDomain p target domain =
    map_chars p.fold (trim_space domain) ≡ map_chars p.fold (trim_space target)

-- `ContainsDomain` holds exactly when some entry of the list is the target's domain.
pub contains_domain_iff :
    (p : Platform) (domains : List String) (target : String)
    → (contains_domain p domains target ≡ true) ↔ Any (SameDomain p target) domains
unfolding contains_domain equal_fold
contains_domain_iff p List.[] target = ((λ h. cc), λ h. elim h [ ])
contains_domain_iff p (List.◌∷◌ d ds) target =
    let ih = contains_domain_iff p ds target in
    let here = eq_iff (map_chars p.fold (trim_space d)) (map_chars p.fold (trim_space target)) in
    elim (Bool-cases (equal_fold p (trim_space d) (trim_space target))) [
      | inl found ↦ rw found ((λ h. inl (here.0 found)), λ h. refl)
      | inr missing ↦
          rw missing ((λ h. inr (ih.0 h)), elim [ inl e ↦ cc (missing, here.1 e) | inr h ↦ ih.1 h ])
    ]

abbrev pub at_sign : Char
at_sign = "@"

second_of_two_inv :
    (ps : List String) (d : String)
    → second_of_two ps ≡ d
    → d ≢ ""
    → (l : String) × (ps ≡ List.◌∷◌ l (List.◌∷◌ d List.[]))
second_of_two_inv (List.◌∷◌ l (List.◌∷◌ r List.[])) d e h =
    (l, ap (λ t. List.◌∷◌ l (List.◌∷◌ t List.[])) e)
second_of_two_inv List.[] d e h = absurd (h (sym e))
second_of_two_inv (List.◌∷◌ l List.[]) d e h = absurd (h (sym e))
second_of_two_inv (List.◌∷◌ l (List.◌∷◌ r (List.◌∷◌ t ts))) d e h = absurd (h (sym e))

-- A nonempty domain is found exactly where the address, trimmed and in lower case, has one "@" and
-- the domain stands behind it.
pub email_domain_iff :
    (p : Platform) (email domain : String)
    → domain ≢ ""
    → (email_domain p email ≡ domain) ↔ (
        (local : String) × Without b'@' local
        × Without b'@' domain
        × (to_lower p (trim_space email) ≡ local ++ (at_sign ∷ domain)))
unfolding email_domain
email_domain_iff p email domain present = (
  (λ e.
      let (local, two) = second_of_two_inv _ domain e present in
      let (hl, hd, whole) = (split-eq-two_iff at_sign _ local domain).0 two in
      (local, hl, hd, whole)),
  λ (local, hl, hd, whole).
      ap second_of_two ((split-eq-two_iff at_sign _ local domain).1 (hl, hd, whole)),
)
