-- ===== src/Tests/Sealed.antt =====
-- Claims sealed and opened in the small cryptography: an expiration at second 2000, opened at 1000.
use go_mcp_oauth_sdk.Prelude.{String, ◌≡◌, ◌≢◌, ◌↔◌, ◌⊎◌, refl, [], ◌∷◌, arith, inl, inr, eq_iff}
use mathlib.Core.Option
use mathlib.Core.Bool.{false≢true}
use go_mcp_oauth_sdk.Prelude.Int.{pos}
use go_mcp_oauth_sdk.Prelude.Perm.{Reorder}
use go_mcp_oauth_sdk.Errors.{sentinel, invalid_jwe_token, ok, err}
use go_mcp_oauth_sdk.Json.{Object, int64, get, IsMap, below_int64, above_int64, truncate}
use go_mcp_oauth_sdk.Platform.{to_int64}
use go_mcp_oauth_sdk.Jwe.{
  Bytes, signed_plaintext, generate_jwe_token, parse_and_decrypt_jwe, exp_time, hash_sha256,
  derive_key, content_type_of, open_content, open_jwt, open_signed, check_opened,
  validate_claims_whitelist, validate_expiration, check_exp,
}
use go_mcp_oauth_sdk.Jwe.Claims.{Allowed, LastsIfSet}
use go_mcp_oauth_sdk.Jwe.Documented.{map_values}
use go_mcp_oauth_sdk.Jwe.Opening.{Yields, Opens}
use go_mcp_oauth_sdk.Jwe.Refusal.{IsRefusal, parse_and_decrypt_jwe-IsRefusal}
use go_mcp_oauth_sdk.Jwe.RoundTrip.{generate-parse}
use go_mcp_oauth_sdk.Artifact.{
  encode_oauth_jwe, decode_oauth_jwe, oauth_kid_v1, hkdf_info_oauth_pending_auth,
  hkdf_info_oauth_auth_code,
}
use go_mcp_oauth_sdk.Artifact.Laws.{
  OpensLabelled, encode-decode, decode-other_label, decode_oauth_jwe_iff,
}
use go_mcp_oauth_sdk.Tests.World.{platform}
use go_mcp_oauth_sdk.Tests.Vault.{Box, codes, decoded, vault, vault-Documented, vault-Separates}

abbrev expiring : Object
expiring = ("exp", int64 (pos 2000)) ∷ []

expiring-IsMap : IsMap expiring
expiring-IsMap = ((λ h. h), tt)

expiring-Allowed : Allowed expiring
expiring-Allowed = (inr (inr (inr (inl refl))), tt)

expiring-lasts : LastsIfSet platform (pos 1000) (Option.map decoded (get expiring "exp"))
unfolding get exp_time to_int64 below_int64 above_int64 truncate
expiring-lasts = omega arith

abbrev secret : Bytes
secret = 5 ∷ []

-- Signed inside, under the hashed secret.
abbrev signed_box : Box
signed_box = record { key = 1 ∷ (5 ∷ []); content_type = "JWT"; kid = ""; plaintext = 2000 ∷ [] }

generate_run : generate_jwe_token (vault signed_box) expiring secret secret ≡ ok "sealed"
unfolding generate_jwe_token signed_plaintext hash_sha256
generate_run = refl

generate-parse_example :
    (o : Object) × Reorder (map_values decoded expiring) o
    × (parse_and_decrypt_jwe (vault signed_box) platform (pos 1000) "sealed" secret secret ≡ ok o)
generate-parse_example =
    generate-parse (vault signed_box) (vault-Documented signed_box) platform (pos 1000) expiring
      secret secret "sealed" expiring-IsMap expiring-Allowed expiring-lasts generate_run

-- At second 3000 the claims are past.
late_run :
    parse_and_decrypt_jwe (vault signed_box) platform (pos 3000) "sealed" secret secret
    ≡ err (sentinel invalid_jwe_token)
unfolding parse_and_decrypt_jwe hash_sha256 content_type_of open_content open_jwt open_signed
    check_opened validate_claims_whitelist validate_expiration check_exp get exp_time to_int64
    below_int64 above_int64 truncate
late_run = refl

parse_and_decrypt_jwe-IsRefusal_example :
    IsRefusal (Yields (vault signed_box) "sealed" secret secret) (sentinel invalid_jwe_token)
parse_and_decrypt_jwe-IsRefusal_example =
    parse_and_decrypt_jwe-IsRefusal (vault signed_box) platform (pos 3000) "sealed" secret secret
      (sentinel invalid_jwe_token) late_run

-- An artifact for the label of pending authorizations.
abbrev labelled_box : Box
labelled_box = record {
  key = codes hkdf_info_oauth_pending_auth;
  content_type = "JSON";
  kid = "v1";
  plaintext = 2000 ∷ [];
}

encode_run :
    encode_oauth_jwe (vault labelled_box) secret hkdf_info_oauth_pending_auth expiring ≡ ok "sealed"
unfolding encode_oauth_jwe derive_key
encode_run = refl

encode-decode_example :
    (o : Object) × Reorder (map_values decoded expiring) o
    × (decode_oauth_jwe
          (vault labelled_box)
          platform
          (pos 1000)
          secret
          hkdf_info_oauth_pending_auth
          "sealed"
        ≡ ok o)
encode-decode_example =
    encode-decode (vault labelled_box) (vault-Documented labelled_box) platform (pos 1000) secret
      hkdf_info_oauth_pending_auth expiring "sealed" expiring-IsMap expiring-Allowed expiring-lasts
      encode_run

labels_differ : ◌≢◌ {A = String} hkdf_info_oauth_pending_auth hkdf_info_oauth_auth_code
labels_differ e =
    absurd (false≢true ((eq_iff hkdf_info_oauth_pending_auth hkdf_info_oauth_auth_code).1 e))

decode-other_label_example :
    decode_oauth_jwe
      (vault labelled_box)
      platform
      (pos 1000)
      secret
      hkdf_info_oauth_auth_code
      "sealed"
    ≡ err (sentinel invalid_jwe_token)
decode-other_label_example =
    decode-other_label (vault labelled_box) (vault-Documented labelled_box)
      (vault-Separates labelled_box) platform (pos 1000) secret hkdf_info_oauth_pending_auth
      hkdf_info_oauth_auth_code expiring "sealed" labels_differ encode_run

decode_oauth_jwe_iff_example :
    (decode_oauth_jwe
        (vault labelled_box)
        platform
        (pos 1000)
        secret
        hkdf_info_oauth_pending_auth
        "sealed"
      ≡ ok (map_values decoded expiring))
    ↔ ((jwe : Box) × ((vault labelled_box).parse_encrypted "sealed" ≡ ok jwe)
        × ((((vault labelled_box).key_id jwe ≡ oauth_kid_v1)
              × OpensLabelled
                  (vault labelled_box)
                  platform
                  (pos 1000)
                  secret
                  hkdf_info_oauth_pending_auth
                  jwe
                  (map_values decoded expiring))
            ⊎ (((vault labelled_box).key_id jwe ≢ oauth_kid_v1)
                × Opens
                    (vault labelled_box)
                    platform
                    (pos 1000)
                    "sealed"
                    secret
                    secret
                    (map_values decoded expiring))))
decode_oauth_jwe_iff_example =
    decode_oauth_jwe_iff (vault labelled_box) platform (pos 1000) secret
      hkdf_info_oauth_pending_auth "sealed" (map_values decoded expiring)
