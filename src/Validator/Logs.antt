-- ===== src/Validator/Logs.antt =====
-- What the log entry of a failed legacy validation shows of the error.
use Prim.Native.String
use package.text.Mathlib.TextLemmas.{append_assoc}
use go_mcp_oauth_sdk.Prelude.{
  String, ◌≡◌, ◌↔◌, ◌⊎◌, refl, sym, true, false, List, [], ◌∷◌, inl, inr, arith, eq_iff,
}
use go_mcp_oauth_sdk.Text.{has_prefix}
use go_mcp_oauth_sdk.Text.Prefix.{has_prefix-append}
use go_mcp_oauth_sdk.Errors.{
  Failure, text, is, as_header_parse, is_kid_not_found, transient, wrap, plain, header_parse,
  Result, err,
}
use go_mcp_oauth_sdk.Errors.Laws.{Result-cases}
use go_mcp_oauth_sdk.Env.{Env}
use go_mcp_oauth_sdk.Verifier.{error_field}
use go_mcp_oauth_sdk.Jwt.{
  jwt_parse_failed_prefix, jwt_missing_header_text, parse_token, unwrap_header_error,
  signature_algorithms,
}
use go_mcp_oauth_sdk.Validator.{legacy_failure_entry}

-- The text is that of a rejected token header.
abbrev pub IsHeaderText : String → Type 0
IsHeaderText t = (has_prefix t jwt_parse_failed_prefix ≡ true) ⊎ (t ≡ jwt_missing_header_text)

-- The entry carries the error itself exactly if the error is transient and is neither about a
-- missing key id nor, by its text, about the token's header.
pub legacy_failure_entry-carries_iff :
    (e : Failure)
    → ((legacy_failure_entry e).fields ≡ error_field e ∷ [])
      ↔ ((¬ IsHeaderText (text e)) × (is_kid_not_found e ≡ false) × (is transient e ≡ true))
unfolding legacy_failure_entry
legacy_failure_entry-carries_iff e =
    let same = eq_iff (text e) jwt_missing_header_text in ground arith

error_inv : {A : Type 0} {e f : Failure} → ◌≡◌ {A = Result A} (err e) (err f) → e ≡ f
error_inv h = cc

List-cases : {A : Type 0} (xs : List A) → (xs ≡ []) ⊎ ((x : A) × (rest : List A) × (xs ≡ x ∷ rest))
List-cases [] = inl refl
List-cases (x ∷ rest) = inr (x, rest, refl)

-- An entry for such a text has no fields.
header_entry : (e : Failure) → IsHeaderText (text e) → (legacy_failure_entry e).fields ≡ []
unfolding legacy_failure_entry
header_entry e h = let same = eq_iff (text e) jwt_missing_header_text in ground arith

rejected-IsHeaderText :
    (x : Failure) → IsHeaderText (text (wrap (String.◌++◌ jwt_parse_failed_prefix " ") x ""))
unfolding text
rejected-IsHeaderText x = inl (
    rw (append_assoc jwt_parse_failed_prefix " " (String.◌++◌ (text x) ""))
      (has_prefix-append jwt_parse_failed_prefix (String.◌++◌ " " (String.◌++◌ (text x) ""))))

module _ {Key Token : Type 0} (env : Env Key Token) where
  -- Every error of the parser is one about the header.
  parse_token-header :
      (token : String) (e : Failure)
      → parse_token env token ≡ err e
      → (x : Failure) × (e ≡ header_parse x) × IsHeaderText (text x)
  unfolding parse_token text
  parse_token-header token e h =
      elim (Result-cases (env.jose.parse_signed token signature_algorithms)) [
        | inr (x, r) ↦ (
          wrap (String.◌++◌ jwt_parse_failed_prefix " ") x "",
          error_inv (sym (rw (parse_token, r) at h)),
          rejected-IsHeaderText x,
        )
        | inl (p, r) ↦ elim (List-cases (env.jose.header_key_ids p)) [
          | inl none_there ↦ (
            plain jwt_missing_header_text,
            error_inv (sym (rw (parse_token, r, none_there) at h)),
            inr refl,
          )
          | inr (key_id, rest, some_there) ↦ cc (rw (parse_token, r, some_there) at h)
        ]
      ]

  -- Where the token cannot be parsed or has no header, the entry for the error that the legacy path
  -- gets has no fields: nothing that the parser says of the token is logged.
  pub legacy_failure_entry-parse_token :
      (token : String) (e : Failure)
      → parse_token env token ≡ err e
      → (legacy_failure_entry (unwrap_header_error env e)).fields ≡ []
  unfolding unwrap_header_error as_header_parse
  legacy_failure_entry-parse_token token e h =
      let (x, same, about) = parse_token-header token e h in rw same (header_entry x about)
