-- ===== src/Artifact.antt =====
-- broker/helpers.go: the broker's pending authorizations and codes as JWE artifacts, their key by
-- label and key id, and the readers of their claims.
pub mod Laws
use Prim.Native.String
use go_mcp_oauth_sdk.Prelude.{ℕ, String, Option, none, some, List, ◌==◌, if◌then◌else◌}
use go_mcp_oauth_sdk.Prelude.Int.{ℤ, pos, sub_ℕ}
use go_mcp_oauth_sdk.Errors.{Failure, sentinel, invalid_jwe_token, Result, ok, err, ◌>>=◌}
use go_mcp_oauth_sdk.Json.{Value, float64, int64, int, str, Object, get}
use go_mcp_oauth_sdk.Platform.{Platform, to_int64}
use go_mcp_oauth_sdk.Jwe.{
  Bytes, Crypto, or_invalid, derive_key, check_opened, parse_and_decrypt_jwe,
}

abbrev pub oauth_kid_v1 : String
oauth_kid_v1 = "v1"

abbrev pub hkdf_info_oauth_pending_auth : String
hkdf_info_oauth_pending_auth = "altinity-mcp/oauth/pending-auth/v1"

abbrev pub hkdf_info_oauth_auth_code : String
hkdf_info_oauth_auth_code = "altinity-mcp/oauth/auth-code/v2"

module _ {Signer Encrypter Encrypted Signed : Type 0}
    (c : Crypto Signer Encrypter Encrypted Signed) where
  unfoldable pub encode_oauth_jwe : Bytes → String → Object → Result String
  encode_oauth_jwe secret info claims = do
    plaintext ← c.marshal claims
    encrypter ← c.new_encrypter (derive_key c secret info) "JSON" oauth_kid_v1
    sealed ← c.encrypt encrypter plaintext
    c.compact_serialize sealed

  -- an artifact with the key id of the labelled keys
  unfoldable pub open_labelled : Platform → ℤ → Bytes → String → Encrypted → Result Object
  open_labelled p now secret info jwe = do
    decrypted ← or_invalid (c.decrypt jwe (derive_key c secret info))
    claims ← or_invalid (c.unmarshal decrypted)
    check_opened c p now claims

  unfoldable pub decode_oauth_jwe : Platform → ℤ → Bytes → String → String → Result Object
  decode_oauth_jwe p now secret info token = do
    jwe ← or_invalid (c.parse_encrypted token)
    if c.key_id jwe == oauth_kid_v1
        then open_labelled p now secret info jwe
        else parse_and_decrypt_jwe c p now token secret secret

unfoldable pub string_from_claims : Object → String → String
string_from_claims claims key = elim (get claims key) [ some (str s) ↦ s | _ ↦ "" ]

-- The zero `time.Time`, the first of January of the year 1, in seconds since 1970.
abbrev pub zero_time : ℤ
zero_time = sub_ℕ 0 62_135_596_800

unfoldable pub unix_of : Platform → Value → ℤ
unix_of p (float64 x) = to_int64 p x
unix_of p (int64 n) = n
unix_of p (int n) = n
unix_of p _ = zero_time

-- The instant that `time.Unix` gives, in seconds since 1970.
unfoldable pub unix_from_claims : Platform → Object → String → ℤ
unix_from_claims p claims key = elim (get claims key) [ none ↦ zero_time | some v ↦ unix_of p v ]
