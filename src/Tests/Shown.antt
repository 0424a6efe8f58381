-- ===== src/Tests/Shown.antt =====
-- Error descriptions, userinfo documents, resources and contexts at concrete inputs.
use go_mcp_oauth_sdk.Prelude.{◌+◌, ◌*◌, ◌≤◌, String, ◌≡◌, ◌↔◌, refl, true, some, List, [], ◌∷◌, All}
use go_mcp_oauth_sdk.Json.{Object, str, bool, get}
use go_mcp_oauth_sdk.Text.{is_space}
use go_mcp_oauth_sdk.Text.Bytes.{
  Raw, char, broken, valid, byte_length, raw_length, cut_raw, drop_white, drop_trailing, trim_raw,
}
use go_mcp_oauth_sdk.Claims.{claims_from_raw_claims}
use go_mcp_oauth_sdk.Jwt.{audience_matches_resource}
use go_mcp_oauth_sdk.Broker.{canonical_resource_url}
use go_mcp_oauth_sdk.Broker.Resource.{audience_matches_resource-canonical}
use go_mcp_oauth_sdk.Upstream.{
  sanitize_error_desc, claims_from_user_info, clean, cap, is_line_space, is_control,
}
use go_mcp_oauth_sdk.Upstream.Descriptions.{
  IsPrintable, IsBlank, broken_count, sanitize_error_desc-IsPrintable,
}
use go_mcp_oauth_sdk.Upstream.UserInfo.{claims_from_user_info-raw_claims}
use go_mcp_oauth_sdk.Context.{foreign, text, other, token_from_context, claims_from_context}
use go_mcp_oauth_sdk.Context.Laws.{
  Put, put_token, put_claims, put_at_token, put_elsewhere, IsElsewhere, put_all, last_token,
  last_claims, from_context-put_all,
}
use go_mcp_oauth_sdk.Tests.World
use go_mcp_oauth_sdk.Tests.World.{platform}

-- A description with a line break, a bell, and a byte 0xff at its end.
abbrev noisy : Raw
noisy =
    char " " ∷ char "b" ∷ char "a" ∷ char "d" ∷ char "\n" ∷ char "\u{7}" ∷ char "x" ∷ broken ∷ []

noisy_run : sanitize_error_desc noisy ≡ ": bad x�"
unfolding sanitize_error_desc clean cap is_line_space is_control trim_raw drop_white drop_trailing
    is_space raw_length
noisy_run = refl

sanitize_error_desc-IsPrintable_example :
    ((sanitize_error_desc noisy ≡ "") ↔ IsBlank noisy)
    × IsPrintable (sanitize_error_desc noisy)
    × (byte_length (sanitize_error_desc noisy) ≤ 128 + 2 * broken_count noisy)
    × (byte_length (sanitize_error_desc noisy) ≤ 362)
sanitize_error_desc-IsPrintable_example = sanitize_error_desc-IsPrintable noisy

-- Bytes 119 and 120 are the first two of three of "€": each becomes a replacement character, which
-- has three bytes.
abbrev long : String
long =
    "0123456789012345678901234567890123456789012345678901234567890123456789012345678901234567890123456789012345678901234567€€"

long_run : byte_length (sanitize_error_desc (valid long)) ≡ 126
unfolding sanitize_error_desc clean cap is_line_space is_control trim_raw drop_white drop_trailing
    is_space byte_length raw_length cut_raw valid
long_run = refl

abbrev document : Object
document =
    ("sub", str "u1")
    ∷ ("email", str "ann@example.com")
    ∷ ("email_verified", bool true)
    ∷ ("scope", str "openid email")
    ∷ ("locale", str "en")
    ∷ []

claims_from_user_info-raw_claims_example :
    claims_from_user_info document ≡ claims_from_raw_claims platform document
unfolding get
claims_from_user_info-raw_claims_example =
    claims_from_user_info-raw_claims platform document (refl, (refl, (refl, (refl, (refl, tt)))))
      ("openid email", refl) (true, refl)

audience_matches_resource-canonical_example :
    audience_matches_resource ("https://mcp/x" ∷ []) (canonical_resource_url "https://mcp/x//")
    ≡ audience_matches_resource ("https://mcp/x" ∷ []) "https://mcp/x//"
audience_matches_resource-canonical_example =
    audience_matches_resource-canonical ("https://mcp/x" ∷ []) "https://mcp/x//"

-- Two tokens, claims, a value of another package, and one of a wrong type under the token's key.
abbrev puts : List Put
puts =
    put_token "t1"
    ∷ put_claims (some World.claims)
    ∷ put_elsewhere (foreign "oauth_token") (text "trace")
    ∷ put_at_token other
    ∷ put_token "t2"
    ∷ []

puts-IsElsewhere : All IsElsewhere puts
puts-IsElsewhere = (tt, (tt, (((λ e. cc), λ e. cc), (tt, (tt, tt)))))

from_context-put_all_example :
    (token_from_context (put_all [] puts) ≡ last_token (token_from_context []) puts)
    × (claims_from_context (put_all [] puts) ≡ last_claims (claims_from_context []) puts)
from_context-put_all_example = from_context-put_all [] puts puts-IsElsewhere
