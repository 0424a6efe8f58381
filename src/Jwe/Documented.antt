-- ===== src/Jwe/Documented.antt =====
-- What the repository relies on in go-jose and `encoding/json`, beside the types of their functions.
use go_mcp_oauth_sdk.Prelude.{String, ◌≡◌, some, [], ◌∷◌}
use go_mcp_oauth_sdk.Prelude.Perm.{Reorder}
use go_mcp_oauth_sdk.Errors.{ok}
use go_mcp_oauth_sdk.Json.{Value, str, Object, IsMap}
use go_mcp_oauth_sdk.Jwe.{Bytes, Crypto}

-- A map whose values went through JSON.
abbrev pub map_values : (Value → Value) → Object → Object
map_values f [] = []
map_values f ((k, v) ∷ o) = (k, f v) ∷ map_values f o

module _ {Signer Encrypter Encrypted Signed : Type 0}
    (c : Crypto Signer Encrypter Encrypted Signed) where
  -- A token that was made from a plaintext with a key and headers.
  pub record IsSealed (key : Bytes) (content_type kid : String) (plaintext : Bytes) (token : String)
      : Type 0 where
    pub encrypter : Encrypter
    pub sealed : Encrypted
    pub made : c.new_encrypter key content_type kid ≡ ok encrypter
    pub encrypted : c.encrypt encrypter plaintext ≡ ok sealed
    pub serialized : c.compact_serialize sealed ≡ ok token

  -- Such a token parses, shows its headers and decrypts to the plaintext under its key. A map that
  -- was marshalled or signed is decoded as a map of the same keys, in some order, each value as
  -- `decoded` has it: a Go integer comes back as a float64, say.
  pub record Documented (decoded : Value → Value) : Type 0 where
    pub unseal :
        {key : Bytes} {content_type kid : String} {plaintext : Bytes} {token : String}
        → IsSealed key content_type kid plaintext token
        → (jwe : Encrypted) × (c.parse_encrypted token ≡ ok jwe)
          × (c.decrypt jwe key ≡ ok plaintext)
          × (c.content_type jwe ≡ some (str content_type))
          × (c.key_id jwe ≡ kid)
    pub decode :
        {claims : Object} {bytes : Bytes}
        → IsMap claims
        → c.marshal claims ≡ ok bytes
        → (o : Object) × Reorder (map_values decoded claims) o × (c.unmarshal bytes ≡ ok o)
    pub verify :
        {claims : Object} {key bytes : Bytes} {signer : Signer}
        → IsMap claims
        → c.new_signer key ≡ ok signer
        → c.sign signer claims ≡ ok bytes
        → (o : Object) × Reorder (map_values decoded claims) o
          × (nested : Signed) × (c.parse_signed bytes ≡ ok nested)
          × (c.verified nested key ≡ ok o)

  -- Keys are told apart: what one key sealed, no other opens, and labels give different keys.
  pub record Separates : Type 0 where
    pub own_key :
        {key other : Bytes} {content_type kid : String} {plaintext opened : Bytes} {token : String}
        {jwe : Encrypted}
        → IsSealed key content_type kid plaintext token
        → c.parse_encrypted token ≡ ok jwe
        → c.decrypt jwe other ≡ ok opened
        → other ≡ key
    pub own_label :
        (secret : Bytes) (info other : String)
        → c.hkdf secret info 32 ≡ c.hkdf secret other 32
        → info ≡ other
