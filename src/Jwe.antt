-- ===== src/Jwe.antt =====
-- jwe_auth/jwe_auth.go: claims sealed in a JWE, signed inside or plain.
pub mod Claims
pub mod Documented
pub mod Reading
pub mod Opening
pub mod Refusal
pub mod RoundTrip
use Prim.Native.String
use go_mcp_oauth_sdk.Prelude.{
  ℕ, String, Bool, true, false, not, Option, none, some, List, [], ◌∷◌, ◌==◌, if◌then◌else◌,
  is_empty, contains,
}
use go_mcp_oauth_sdk.Prelude.Int.{ℤ, ltb_ℤ}
use go_mcp_oauth_sdk.Errors.{
  Failure, sentinel, plain, wrap, invalid_jwe_token, Result, ok, err, require, ◌>>=◌, ◌>>◌,
}
use go_mcp_oauth_sdk.Json.{Value, float64, int64, int, str, Object, get}
use go_mcp_oauth_sdk.Platform.{Platform, to_int64}

abbrev pub Bytes : Type 0
Bytes = List ℕ

-- SHA-256, HKDF-SHA256 by secret, label and length, `encoding/json`, and go-jose with AES-256 key
-- wrap, AES-256-GCM and HS256. An encrypter is made for a key, a content type and a key id, which is
-- "" where no such header is set; `content_type` is the entry `cty` of the extra headers. A signed
-- token is the bytes of its text.
pub record Crypto (Signer Encrypter Encrypted Signed : Type 0) : Type 0 where
  pub sum256 : Bytes → Bytes
  pub hkdf : Bytes → String → ℕ → Bytes
  pub marshal : Object → Result Bytes
  pub unmarshal : Bytes → Result Object
  pub new_signer : Bytes → Result Signer
  pub sign : Signer → Object → Result Bytes
  pub parse_signed : Bytes → Result Signed
  pub verified : Signed → Bytes → Result Object
  pub new_encrypter : Bytes → String → String → Result Encrypter
  pub encrypt : Encrypter → Bytes → Result Encrypted
  pub compact_serialize : Encrypted → Result String
  pub parse_encrypted : String → Result Encrypted
  pub decrypt : Encrypted → Bytes → Result Bytes
  pub content_type : Encrypted → Option Value
  pub key_id : Encrypted → String

abbrev pub allowed_keys : List String
allowed_keys =
    "iss" ∷ "sub" ∷ "aud" ∷ "exp" ∷ "nbf" ∷ "iat" ∷ "jti" ∷ "host" ∷ "port" ∷ "database"
    ∷ "username" ∷ "password" ∷ "protocol" ∷ "limit" ∷ "read_only" ∷ "max_execution_time"
    ∷ "tls_enabled" ∷ "tls_ca_cert" ∷ "tls_client_cert" ∷ "tls_client_key"
    ∷ "tls_insecure_skip_verify" ∷ "grant_type" ∷ "redirect_uris" ∷ "token_endpoint_auth_method"
    ∷ "client_id" ∷ "client_secret" ∷ "redirect_uri" ∷ "scope" ∷ "client_state" ∷ "code_challenge"
    ∷ "code_challenge_method" ∷ "upstream_bearer_token" ∷ "upstream_refresh_token"
    ∷ "upstream_token_type" ∷ "upstream_pkce_verifier" ∷ "upstream_auth_code" ∷ "resource"
    ∷ "access_token_exp" ∷ "email" ∷ "name" ∷ "hd" ∷ "email_verified" ∷ []

unfoldable pub disallowed : String → Failure
disallowed key =
    plain (String.◌++◌ "invalid token claims format: disallowed claim key '" (String.◌++◌ key "'"))

unfoldable pub validate_claims_whitelist : Object → Result (Unit {0})
validate_claims_whitelist [] = ok tt
validate_claims_whitelist ((key, v) ∷ claims) =
    let rest = validate_claims_whitelist claims in
    if contains allowed_keys key then rest else err (disallowed key)

-- The types that the switch on `exp` accepts; `int` has 64 bits.
unfoldable pub exp_time : Platform → Value → Option ℤ
exp_time p (float64 x) = some (to_int64 p x)
exp_time p (int64 n) = some n
exp_time p (int n) = some n
exp_time p _ = none

-- `now` is in seconds since 1970.
unfoldable pub check_exp : ℤ → Option ℤ → Result (Unit {0})
check_exp now none = err (sentinel invalid_jwe_token)
check_exp now (some t) = require (not (ltb_ℤ t now)) (sentinel invalid_jwe_token)

unfoldable pub validate_expiration : Platform → ℤ → Object → Result (Unit {0})
validate_expiration p now claims = elim (get claims "exp") [
  | none ↦ ok tt
  | some v ↦ check_exp now (exp_time p v)
]

-- `if err != nil { return nil, ErrInvalidToken }`
abbrev pub or_invalid {ℓ} : {A : Type ℓ} → Result A → Result A
or_invalid (ok a) = ok a
or_invalid (err e) = err (sentinel invalid_jwe_token)

-- `if err != nil { return "", fmt.Errorf("what: %w", err) }`
abbrev pub or_failed {ℓ} : {A : Type ℓ} → String → Result A → Result A
or_failed what (ok a) = ok a
or_failed what (err e) = err (wrap what e "")

module _ {Signer Encrypter Encrypted Signed : Type 0}
    (c : Crypto Signer Encrypter Encrypted Signed) where
  unfoldable pub hash_sha256 : Bytes → Bytes
  hash_sha256 input = c.sum256 input

  unfoldable pub derive_key : Bytes → String → Bytes
  derive_key secret info = c.hkdf secret info 32

  -- The bytes to encrypt, with their content type.
  unfoldable pub signed_plaintext : Object → Bytes → Result (Bytes × String)
  signed_plaintext claims jwt_secret = do
    signer ← or_failed "failed to create JWT signer: " (c.new_signer (hash_sha256 jwt_secret))
    signed ← or_failed "failed to sign JWT: " (c.sign signer claims)
    ok (signed, "JWT")

  unfoldable pub json_plaintext : Object → Result (Bytes × String)
  json_plaintext claims = do
    bytes ← or_failed "failed to marshal claims to JSON: " (c.marshal claims)
    ok (bytes, "JSON")

  unfoldable pub generate_jwe_token : Object → Bytes → Bytes → Result String
  generate_jwe_token claims jwe_secret jwt_secret = do
    (plaintext, content_type) ←
        if is_empty jwt_secret then json_plaintext claims else signed_plaintext claims jwt_secret
    encrypter ←
        or_failed "failed to create JWE encrypter: "
          (c.new_encrypter (hash_sha256 jwe_secret) content_type "")
    sealed ← or_failed "failed to encrypt JWE: " (c.encrypt encrypter plaintext)
    c.compact_serialize sealed

  -- The content type in the header, "JWT" where there is none or it is no text.
  unfoldable pub content_type_of : Option Value → String
  content_type_of (some (str ct)) = ct
  content_type_of _ = "JWT"

  unfoldable pub open_json : Bytes → Result Object
  open_json decrypted = or_invalid (c.unmarshal decrypted)

  unfoldable pub open_signed : Signed → Bytes → Result Object
  open_signed nested jwt_secret = or_invalid (c.verified nested (hash_sha256 jwt_secret))

  unfoldable pub open_jwt : Bytes → Bytes → Result Object
  open_jwt jwt_secret decrypted = do
    nested ← or_invalid (c.parse_signed decrypted)
    open_signed nested jwt_secret

  -- The default of the switch: a signed token if the bytes parse as one, and JSON otherwise.
  unfoldable pub open_either : Bytes → Bytes → Result Object
  open_either jwt_secret decrypted = elim (c.parse_signed decrypted) [
    | err e ↦ open_json decrypted
    | ok nested ↦ open_signed nested jwt_secret
  ]

  -- the switch on the content type
  unfoldable pub open_content : String → Bytes → Bytes → Result Object
  open_content content_type jwt_secret decrypted =
      if content_type == "JWT"
      then (if is_empty jwt_secret then open_json decrypted else open_jwt jwt_secret decrypted)
      else if content_type == "JSON"
      then open_json decrypted
      else if is_empty jwt_secret
      then open_json decrypted
      else open_either jwt_secret decrypted

  -- the checks at the end, which DecodeOAuthJWE makes too
  unfoldable pub check_opened : Platform → ℤ → Object → Result Object
  check_opened p now claims =
      validate_claims_whitelist claims >> (validate_expiration p now claims >> ok claims)

  unfoldable pub parse_and_decrypt_jwe : Platform → ℤ → String → Bytes → Bytes → Result Object
  parse_and_decrypt_jwe p now token jwe_secret jwt_secret = do
    jwe ← or_invalid (c.parse_encrypted token)
    decrypted ← or_invalid (c.decrypt jwe (hash_sha256 jwe_secret))
    claims ← open_content (content_type_of (c.content_type jwe)) jwt_secret decrypted
    check_opened p now claims
