-- ===== src/Upstream.antt =====
-- broker/helpers.go: what the broker takes from and gives to other parties: PKCE values, configured
-- URLs, upstream errors, its own error responses and the claims of a userinfo document.
pub mod Descriptions
pub mod UserInfo
use Prim.Native.String.{[], ◌∷◌, ◌++◌}
use mathlib.Core.List
use go_mcp_oauth_sdk.Prelude.{
  ℕ, ◌<◌, Char, code, String, Bool, false, ◌||◌, Option, none, some, List, length, ◌==◌, ltb, eqb,
  if◌then◌else◌, is_empty,
}
use go_mcp_oauth_sdk.Prelude.Int.{pos}
use go_mcp_oauth_sdk.Errors.{Result, ok, err, ◌>>=◌}
use go_mcp_oauth_sdk.Json.{Value, Object, get, get_string, get_bool}
use go_mcp_oauth_sdk.Text.{trim_space, trim_slashes, fields, itoa}
use go_mcp_oauth_sdk.Text.Bytes.{Raw, valid, rune, raw_length, cut_raw, trim_raw}
use go_mcp_oauth_sdk.Platform.{Platform}
use go_mcp_oauth_sdk.Claims.{Claims, string_claim, without_keys}
use go_mcp_oauth_sdk.Jwe.{Bytes}

-- The standard library: `url.Parse`, of which the path is used, the UTF-8 bytes of a text, SHA-256,
-- unpadded URL-safe base64, and `json.Unmarshal` into a struct of texts by their JSON names, which
-- puts U+FFFD in place of bytes that are not valid UTF-8.
pub record Library : Type 0 where
  pub url_path : String → Result String
  pub utf8 : String → Bytes
  pub sum256 : Bytes → Bytes
  pub raw_url_base64 : Bytes → String
  pub unmarshal_strings : Bytes → List String → String → String

module _ (l : Library) where
  unfoldable pub path_from_configured_url : String → String
  path_from_configured_url raw =
      if raw == "" then "" else elim (l.url_path raw) [ err _ ↦ "" | ok path ↦ trim_slashes path ]

  unfoldable pub pkce_challenge : String → String
  pkce_challenge verifier = l.raw_url_base64 (l.sum256 (l.utf8 verifier))

  -- by what `rand.Read` comes to for a number of bytes
  unfoldable pub new_pkce_verifier : (ℕ → Result Bytes) → Result String
  new_pkce_verifier read = do buf ← read 32; ok (l.raw_url_base64 buf)

  unfoldable pub safe_upstream_error_fields : Bytes → String × ℕ
  safe_upstream_error_fields body =
      (l.unmarshal_strings body (List.◌∷◌ "error" List.[]) "error", length body)

-- The loop over the characters of an error description.
unfoldable pub is_line_space : Char → Bool
is_line_space c = eqb (code c) b'\r' || eqb (code c) b'\n' || eqb (code c) b'\t'

unfoldable pub is_control : Char → Bool
is_control c = ltb (code c) 0x20 || eqb (code c) 0x7f

unfoldable pub clean : Raw → String
clean List.[] = []
clean (List.◌∷◌ p s) =
    let rest = clean s in
    let c = rune p in
    if is_line_space c then " " ∷ rest else if is_control c then rest else c ∷ rest

unfoldable pub cap : Raw → Raw
cap s = if ltb 120 (raw_length s) then cut_raw 120 s else s

-- The description is a Go string of any bytes.
unfoldable pub sanitize_error_desc : Raw → String
sanitize_error_desc s =
    let trimmed = trim_raw s in if is_empty trimmed then "" else ": " ++ clean (cap trimmed)

unfoldable pub refresh_error_fields : Library → Bytes → String × String
refresh_error_fields l body =
    let parsed =
      l.unmarshal_strings body (List.◌∷◌ "error" (List.◌∷◌ "error_description" List.[])) in
    (parsed "error", sanitize_error_desc (valid (parsed "error_description")))

-- A response that is written: its status, the headers that are set, and the members of its body.
pub record TokenError : Type 0 where
  pub status : ℕ
  pub headers : List (String × String)
  pub body : List (String × String)

abbrev challenge : Platform → String → String → List (String × String)
challenge p error description =
    List.◌∷◌
      (
        "WWW-Authenticate",
        "Bearer error=" ++ (p.quote error ++ (", error_description=" ++ p.quote description)),
      )
      List.[]

unfoldable pub write_oauth_token_error : Platform → ℕ → String → String → TokenError
write_oauth_token_error p status error description = record {
  status = status;
  headers =
      List.◌++◌ (if eqb status 401 then challenge p error description else List.[])
        (List.◌∷◌ ("Content-Type", "application/json") List.[]);
  body = List.◌∷◌ ("error", error) (List.◌∷◌ ("error_description", description) List.[]);
}

abbrev pub userinfo_claims : List String
userinfo_claims = List.◌∷◌ "sub" (
    List.◌∷◌ "iss" (
      List.◌∷◌ "email"
        (List.◌∷◌ "name" (List.◌∷◌ "hd" (List.◌∷◌ "email_verified" (List.◌∷◌ "scope" List.[]))))))

unfoldable pub claims_from_user_info : Object → Claims
claims_from_user_info raw = record {
  subject = string_claim raw "sub";
  issuer = string_claim raw "iss";
  audience = List.[];
  expires_at = pos 0;
  issued_at = pos 0;
  not_before = pos 0;
  scopes = elim (get_string raw "scope") [ none ↦ List.[] | some scope ↦ fields scope ];
  email = string_claim raw "email";
  name = string_claim raw "name";
  hosted_domain = string_claim raw "hd";
  email_verified = elim (get_bool raw "email_verified") [ none ↦ false | some b ↦ b ];
  extra = without_keys userinfo_claims raw;
}
