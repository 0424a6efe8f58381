-- ===== src/Text/Prefix.antt =====
-- Prefixes: cutting one off undoes putting it in front.
use Prim.Native.String.{[], ◌∷◌, ◌++◌}
use text.Mathlib.TextLemmas.{nil-append, cons-append}
use text.Mathlib.TextEquality.{Char-path}
use go_mcp_oauth_sdk.Prelude.{
  code, String, ◌≡◌, ap, true, some, inl, inr, arith, eqb, Bool-cases, Option-cases,
}
use go_mcp_oauth_sdk.Text.{cut_prefix, has_prefix, trim_prefix}

pub cut_prefix-append : (p s : String) → cut_prefix p (p ++ s) ≡ some s
unfolding cut_prefix
cut_prefix-append [] s = rw nil-append
cut_prefix-append (c ∷ p) s =
    let same : eqb (code c) (code c) ≡ true = ground arith in
    rw (cons-append, cut_prefix, same) (cut_prefix-append p s)

pub cut_prefix_sound : (p s r : String) → cut_prefix p s ≡ some r → s ≡ p ++ r
unfolding cut_prefix
cut_prefix_sound [] s r h = rw nil-append (cc)
cut_prefix_sound (c ∷ p) [] r h = ground arith
cut_prefix_sound (c ∷ p) (d ∷ s) r h = elim (Bool-cases (eqb (code c) (code d))) [
  | inl same ↦
      let e : c ≡ d = Char-path c d (ground arith) in
      rw (cons-append, e) (ap (λ t. d ∷ t) (cut_prefix_sound p s r (ground arith)))
  | inr other ↦ ground arith
]

pub has_prefix-append : (p s : String) → has_prefix (p ++ s) p ≡ true
unfolding has_prefix
has_prefix-append p s = rw (cut_prefix-append, has_prefix)

pub trim_prefix-append : (p s : String) → trim_prefix (p ++ s) p ≡ s
unfolding trim_prefix
trim_prefix-append p s = rw (cut_prefix-append, trim_prefix)

-- A text that has the prefix is the prefix followed by what `trim_prefix` leaves.
pub append-trim_prefix : (s p : String) → has_prefix s p ≡ true → s ≡ p ++ trim_prefix s p
unfolding has_prefix trim_prefix
append-trim_prefix s p h = elim (Option-cases (cut_prefix p s)) [
  | inl missing ↦ ground arith
  | inr (r, found) ↦ rw (found, trim_prefix) (cut_prefix_sound p s r found)
]
