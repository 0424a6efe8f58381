-- ===== src/Jwe/RoundTrip.antt =====
-- The claims that are sealed in a JWE come out of it again.
use mathlib.Core.Option
use go_mcp_oauth_sdk.Prelude.{
  String, ◌≡◌, refl, false, [], ◌∷◌, inl, inr, if◌then◌else◌, is_empty, Bool-cases, ◌==◌,
}
use go_mcp_oauth_sdk.Prelude.Int.{ℤ}
use go_mcp_oauth_sdk.Prelude.Perm.{Reorder}
use go_mcp_oauth_sdk.Errors.{Result, ok, err}
use go_mcp_oauth_sdk.Errors.Laws.{>>=-eq-ok}
use go_mcp_oauth_sdk.Json.{Value, Object, IsMap, keys, get}
use go_mcp_oauth_sdk.Platform.{Platform}
use go_mcp_oauth_sdk.Jwe.{
  Bytes, Crypto, or_failed, hash_sha256, signed_plaintext, json_plaintext, generate_jwe_token,
  content_type_of, open_json, open_signed, open_jwt, open_content, parse_and_decrypt_jwe,
}
use go_mcp_oauth_sdk.Jwe.Claims.{Allowed, LastsIfSet, check_opened-Reorder}
use go_mcp_oauth_sdk.Jwe.Documented.{map_values, IsSealed, Documented}

-- Decoding keeps the keys, so what is said of them holds of the decoded map.
pub keys-map_values : (f : Value → Value) (o : Object) → keys (map_values f o) ≡ keys o
keys-map_values f [] = refl
keys-map_values f ((k, v) ∷ o) = rw (keys-map_values f o) refl

pub IsMap-map_values : (f : Value → Value) (o : Object) → IsMap o → IsMap (map_values f o)
IsMap-map_values f o d = rw (keys-map_values f o) d

pub Allowed-map_values : (f : Value → Value) (o : Object) → Allowed o → Allowed (map_values f o)
Allowed-map_values f [] h = h
Allowed-map_values f ((k, v) ∷ o) h = (h.0, Allowed-map_values f o h.1)

pub get-map_values :
    (f : Value → Value) (o : Object) (key : String)
    → get (map_values f o) key ≡ Option.map f (get o key)
unfolding get
get-map_values f [] key = refl
get-map_values f ((k, v) ∷ o) key = elim (Bool-cases (k == key)) [
  | inl e ↦ rw e refl
  | inr e ↦ rw (e, get-map_values f o key) refl
]

pub or_failed-eq-ok {ℓ} :
    {A : Type ℓ} (what : String) (r : Result A) {a : A} → or_failed what r ≡ ok a → r ≡ ok a
or_failed-eq-ok what (ok b) h = h
or_failed-eq-ok what (err e) h = cc

same_pair :
    {a x : Bytes} {b y : String}
    → ◌≡◌ {A = Result (Bytes × String)} (ok (a, b)) (ok (x, y))
    → (x ≡ a) × (y ≡ b)
same_pair h = (cc, cc)

module _ {Signer Encrypter Encrypted Signed : Type 0}
    (c : Crypto Signer Encrypter Encrypted Signed) where
  -- The two ways to write the plaintext, read back by the content type that goes with each.
  module _ {decoded : Value → Value} (d : Documented c decoded) where
    json_reads :
        (claims : Object) {plain : Bytes} {ct : String}
        → IsMap claims
        → json_plaintext c claims ≡ ok (plain, ct)
        → (o : Object) × Reorder (map_values decoded claims) o × (open_content c ct [] plain ≡ ok o)
    unfolding json_plaintext open_content open_json
    json_reads claims unique h =
        let (bytes, e, h1) = >>=-eq-ok _ _ h in
        let (o, r, u) = d.decode unique (or_failed-eq-ok _ _ e) in
        let (p, q) = same_pair h1 in (o, r, rw (p, q, u) refl)

    signed_reads :
        (claims : Object) (secret : Bytes) {plain : Bytes} {ct : String}
        → IsMap claims
        → is_empty secret ≡ false
        → signed_plaintext c claims secret ≡ ok (plain, ct)
        → (o : Object) × Reorder (map_values decoded claims) o
          × (open_content c ct secret plain ≡ ok o)
    unfolding signed_plaintext open_content open_jwt open_signed
    signed_reads claims secret unique some_secret h =
        let (signer, e1, h1) = >>=-eq-ok _ _ h in
        let (bytes, e2, h2') = >>=-eq-ok _ _ h1 in
        let (o, r, nested, k, v) =
          d.verify unique (or_failed-eq-ok _ _ e1) (or_failed-eq-ok _ _ e2) in
        let (p, q) = same_pair h2' in (o, r, rw (p, q, some_secret, k, v) refl)

    reads :
        (claims : Object) (secret : Bytes) {plain : Bytes} {ct : String}
        → IsMap claims
        → (if is_empty secret then json_plaintext c claims else signed_plaintext c claims secret)
          ≡ ok (plain, ct)
        → (o : Object) × Reorder (map_values decoded claims) o
          × (open_content c ct secret plain ≡ ok o)
    reads claims [] unique h = json_reads claims unique h
    reads claims (b ∷ secret) unique h = signed_reads claims (b ∷ secret) unique refl h

    -- What `GenerateJWEToken` seals, signed or plain, `ParseAndDecryptJWE` opens with the same two
    -- secrets to the same claims, as JSON decodes them, if their names are allowed and the decoded
    -- `exp`, if there is one, is not past.
    pub generate-parse :
        (p : Platform) (now : ℤ) (claims : Object) (jwe_secret jwt_secret : Bytes) (token : String)
        → IsMap claims
        → Allowed claims
        → LastsIfSet p now (Option.map decoded (get claims "exp"))
        → generate_jwe_token c claims jwe_secret jwt_secret ≡ ok token
        → (o : Object) × Reorder (map_values decoded claims) o
          × (parse_and_decrypt_jwe c p now token jwe_secret jwt_secret ≡ ok o)
    unfolding generate_jwe_token parse_and_decrypt_jwe content_type_of
    generate-parse p now claims jwe_secret jwt_secret token unique allowed lasts h =
        let (pair, e1, h1) = >>=-eq-ok _ _ h in
        let (plain, ct) = pair in
        let (encrypter, e2, h2) = >>=-eq-ok _ _ h1 in
        let (sealed, e3, e4) = >>=-eq-ok _ _ h2 in
        let made : IsSealed c (hash_sha256 c jwe_secret) ct "" plain token = record {
          encrypter = encrypter;
          sealed = sealed;
          made = or_failed-eq-ok _ _ e2;
          encrypted = or_failed-eq-ok _ _ e3;
          serialized = e4;
        } in
        let (jwe, parses, decrypts, says, _) = d.unseal made in
        let (o, r, u) = reads claims jwt_secret unique e1 in
        let checks =
          check_opened-Reorder c p now r (IsMap-map_values decoded claims unique)
            (Allowed-map_values decoded claims allowed)
            (rw (get-map_values decoded claims "exp") lasts) in
        (o, r, rw (parses, decrypts, says, u) checks)
