-- ===== src/Jwe/Opening.antt =====
-- What a JWE must hold for its claims to be accepted.
use go_mcp_oauth_sdk.Prelude.{String, ◌≡◌, ◌↔◌, refl, ap, ◌∙◌}
use go_mcp_oauth_sdk.Prelude.Int.{ℤ}
use go_mcp_oauth_sdk.Errors.{ok}
use go_mcp_oauth_sdk.Errors.Laws.{>>=-eq-ok}
use go_mcp_oauth_sdk.Json.{Object, get}
use go_mcp_oauth_sdk.Platform.{Platform}
use go_mcp_oauth_sdk.Jwe.{Bytes, Crypto, hash_sha256, parse_and_decrypt_jwe}
use go_mcp_oauth_sdk.Jwe.Claims.{Allowed, LastsIfSet, check_opened_iff}
use go_mcp_oauth_sdk.Jwe.Reading.{or_invalid-eq-ok, Reads, read_content_iff}

module _ {Signer Encrypter Encrypted Signed : Type 0}
    (c : Crypto Signer Encrypter Encrypted Signed) where
  -- When a token yields claims: it parses, the hashed secret decrypts it, and the claims come out of
  -- the decrypted bytes.
  pub record Yields (token : String) (jwe_secret jwt_secret : Bytes) (o : Object) : Type 0 where
    pub jwe : Encrypted
    pub decrypted : Bytes
    pub parses : c.parse_encrypted token ≡ ok jwe
    pub decrypts : c.decrypt jwe (c.sum256 jwe_secret) ≡ ok decrypted
    pub reads : Reads c (c.content_type jwe) jwt_secret decrypted o

  -- When a token opens to claims: it yields them, and they are allowed and not out of date.
  pub record Opens (p : Platform) (now : ℤ) (token : String) (jwe_secret jwt_secret : Bytes)
      (o : Object) : Type 0 where
    pub yields : Yields token jwe_secret jwt_secret o
    pub allowed : Allowed o
    pub lasts : LastsIfSet p now (get o "exp")

  module _ (p : Platform) (now : ℤ) (token : String) (jwe_secret jwt_secret : Bytes) where
    Opens-of_parse :
        (o : Object)
        → parse_and_decrypt_jwe c p now token jwe_secret jwt_secret ≡ ok o
        → Opens p now token jwe_secret jwt_secret o
    unfolding parse_and_decrypt_jwe hash_sha256
    Opens-of_parse o h =
        let (jwe, e1, h1) = >>=-eq-ok _ _ h in
        let (plain, e2, h2) = >>=-eq-ok _ _ h1 in
        let (claims, e3, h3) = >>=-eq-ok _ _ h2 in
        let (a, b, same) = (check_opened_iff c p now claims o).0 h3 in
        record {
          yields = record {
            jwe = jwe;
            decrypted = plain;
            parses = (or_invalid-eq-ok _ _).0 e1;
            decrypts = (or_invalid-eq-ok _ _).0 e2;
            reads = (read_content_iff c _ _ _ _).0 (e3 ∙ ap ok same);
          };
          allowed = rw (← same) a;
          lasts = rw (← same) b;
        }

    parse-of_Opens :
        (o : Object)
        → Opens p now token jwe_secret jwt_secret o
        → parse_and_decrypt_jwe c p now token jwe_secret jwt_secret ≡ ok o
    unfolding parse_and_decrypt_jwe hash_sha256
    parse-of_Opens o h =
        let y = h.yields in
        rw (y.parses, y.decrypts, (read_content_iff c _ _ _ _).1 y.reads)
          ((check_opened_iff c p now o o).1 (h.allowed, h.lasts, refl))

    pub parse_and_decrypt_jwe_iff :
        (o : Object)
        → (parse_and_decrypt_jwe c p now token jwe_secret jwt_secret ≡ ok o)
          ↔ Opens p now token jwe_secret jwt_secret o
    parse_and_decrypt_jwe_iff o = (Opens-of_parse o, parse-of_Opens o)
