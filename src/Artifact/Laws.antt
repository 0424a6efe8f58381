-- ===== src/Artifact/Laws.antt =====
-- What the broker's artifacts keep, and which keys open them.
use go_mcp_oauth_sdk.Prelude.{String, ◌≡◌, ◌≢◌, ◌↔◌, refl, sym, ap, ◌∙◌, ◌⊎◌, inl, inr, eq-cases}
use mathlib.Core.Option
use go_mcp_oauth_sdk.Prelude.Int.{ℤ}
use go_mcp_oauth_sdk.Prelude.Perm.{Reorder}
use go_mcp_oauth_sdk.Errors.{sentinel, invalid_jwe_token, ok, err}
use go_mcp_oauth_sdk.Errors.Laws.{>>=-eq-ok, Result-cases}
use go_mcp_oauth_sdk.Json.{Value, Object, IsMap, get}
use go_mcp_oauth_sdk.Platform.{Platform}
use go_mcp_oauth_sdk.Jwe.{Bytes, Crypto, derive_key}
use go_mcp_oauth_sdk.Jwe.Claims.{Allowed, LastsIfSet, check_opened_iff, check_opened-Reorder}
use go_mcp_oauth_sdk.Jwe.Documented.{map_values, IsSealed, Documented, Separates}
use go_mcp_oauth_sdk.Jwe.Reading.{or_invalid-eq-ok}
use go_mcp_oauth_sdk.Jwe.Opening.{Opens, parse_and_decrypt_jwe_iff}
use go_mcp_oauth_sdk.Jwe.RoundTrip.{IsMap-map_values, Allowed-map_values, get-map_values}
use go_mcp_oauth_sdk.Artifact.{oauth_kid_v1, encode_oauth_jwe, open_labelled, decode_oauth_jwe}

module _ {Signer Encrypter Encrypted Signed : Type 0}
    (c : Crypto Signer Encrypter Encrypted Signed) where
  -- An encoded artifact is sealed under the key of its label, with key id "v1".
  encode-IsSealed :
      (secret : Bytes) (info : String) (claims : Object) (token : String)
      → encode_oauth_jwe c secret info claims ≡ ok token
      → (plain : Bytes) × (c.marshal claims ≡ ok plain)
        × IsSealed c (derive_key c secret info) "JSON" oauth_kid_v1 plain token
  unfolding encode_oauth_jwe
  encode-IsSealed secret info claims token h =
      let (plain, e1, h1) = >>=-eq-ok _ _ h in
      let (encrypter, e2, h2) = >>=-eq-ok _ _ h1 in
      let (sealed, e3, e4) = >>=-eq-ok _ _ h2 in
      (
        plain,
        e1,
        record {
          encrypter = encrypter;
          sealed = sealed;
          made = e2;
          encrypted = e3;
          serialized = e4;
        },
      )

  -- What `EncodeOAuthJWE` seals under a secret and a label, `DecodeOAuthJWE` opens with both to the
  -- same claims, as JSON decodes them, if their names are allowed and the decoded `exp`, if there
  -- is one, is not past.
  pub encode-decode :
      {decoded : Value → Value}
      → Documented c decoded
      → (p : Platform) (now : ℤ) (secret : Bytes) (info : String) (claims : Object) (token : String)
      → IsMap claims
      → Allowed claims
      → LastsIfSet p now (Option.map decoded (get claims "exp"))
      → encode_oauth_jwe c secret info claims ≡ ok token
      → (o : Object) × Reorder (map_values decoded claims) o
        × (decode_oauth_jwe c p now secret info token ≡ ok o)
  unfolding decode_oauth_jwe open_labelled
  encode-decode {decoded} d p now secret info claims token unique allowed lasts h =
      let (plain, m, made) = encode-IsSealed secret info claims token h in
      let (jwe, parses, decrypts, _, kid) = d.unseal made in
      let (o, r, u) = d.decode unique m in
      let checks =
        check_opened-Reorder c p now r (IsMap-map_values decoded claims unique)
          (Allowed-map_values decoded claims allowed)
          (rw (get-map_values decoded claims "exp") lasts) in
      (o, r, rw (parses, kid, decrypts, u) checks)

  -- What `EncodeOAuthJWE` seals under one label, `DecodeOAuthJWE` refuses under any other label with
  -- the error for invalid tokens, where labels give different keys and no key opens what another
  -- sealed.
  pub decode-other_label :
      {decoded : Value → Value}
      → Documented c decoded
      → Separates c
      → (p : Platform) (now : ℤ) (secret : Bytes) (info other : String) (claims : Object)
        (token : String)
      → info ≢ other
      → encode_oauth_jwe c secret info claims ≡ ok token
      → decode_oauth_jwe c p now secret other token ≡ err (sentinel invalid_jwe_token)
  unfolding decode_oauth_jwe open_labelled derive_key
  decode-other_label d s p now secret info other claims token differ h =
      let (plain, m, made) = encode-IsSealed secret info claims token h in
      let (jwe, parses, _, _, kid) = d.unseal made in
      elim (Result-cases (c.decrypt jwe (derive_key c secret other))) [
        | inl (opened, e) ↦
            absurd (differ (sym (s.own_label secret other info (s.own_key made parses e))))
        | inr (x, e) ↦ rw (parses, kid, e) refl
      ]

  -- What an artifact with the key id "v1" must hold: the key of the label decrypts it to JSON claims
  -- whose names are allowed and whose `exp`, if there is one, is not past.
  pub record OpensLabelled (p : Platform) (now : ℤ) (secret : Bytes) (info : String)
      (jwe : Encrypted) (o : Object) : Type 0 where
    pub decrypted : Bytes
    pub decrypts : c.decrypt jwe (derive_key c secret info) ≡ ok decrypted
    pub decodes : c.unmarshal decrypted ≡ ok o
    pub allowed : Allowed o
    pub lasts : LastsIfSet p now (get o "exp")

  module _ (p : Platform) (now : ℤ) (secret : Bytes) (info : String) where
    open_labelled_iff :
        (jwe : Encrypted) (o : Object)
        → (open_labelled c p now secret info jwe ≡ ok o) ↔ OpensLabelled p now secret info jwe o
    unfolding open_labelled
    open_labelled_iff jwe o = (
      (λ h.
          let (plain, e1, h1) = >>=-eq-ok _ _ h in
          let (claims, e2, h2) = >>=-eq-ok _ _ h1 in
          let (a, b, same) = (check_opened_iff c p now claims o).0 h2 in
          record {
            decrypted = plain;
            decrypts = (or_invalid-eq-ok _ _).0 e1;
            decodes = (or_invalid-eq-ok _ _).0 e2 ∙ ap ok same;
            allowed = rw (← same) a;
            lasts = rw (← same) b;
          }),
      λ h. rw (h.decrypts, h.decodes) ((check_opened_iff c p now o o).1 (h.allowed, h.lasts, refl)),
    )

    -- `DecodeOAuthJWE` accepts a token exactly if it parses and, by its key id, either is "v1" and
    -- opens under the key of the label, or is not and opens as an unlabelled token, the secret both
    -- sealing and signing.
    pub decode_oauth_jwe_iff :
        (token : String) (o : Object)
        → (decode_oauth_jwe c p now secret info token ≡ ok o) ↔ (
            (jwe : Encrypted) × (c.parse_encrypted token ≡ ok jwe)
            × (((c.key_id jwe ≡ oauth_kid_v1) × OpensLabelled p now secret info jwe o)
                ⊎ ((c.key_id jwe ≢ oauth_kid_v1) × Opens c p now token secret secret o)))
    unfolding decode_oauth_jwe
    decode_oauth_jwe_iff token o = elim (Result-cases (c.parse_encrypted token)) [
      | inl (jwe, e) ↦ elim (eq-cases (c.key_id jwe) oauth_kid_v1) [
        | inl (t, k) ↦
            rw (decode_oauth_jwe, e, t)
              (
                (λ h. (jwe, refl, inl (k, (open_labelled_iff jwe o).0 h))),
                λ (other, e', h). elim h [
                  | inl (_, l) ↦ (open_labelled_iff jwe o).1 (rw (same e') l)
                  | inr (n, _) ↦ absurd (n (rw (← same e') k))
                ],
              )
        | inr (t, k) ↦
            rw (decode_oauth_jwe, e, t)
              (
                (λ h. (
                  jwe,
                  refl,
                  inr (k, (parse_and_decrypt_jwe_iff c p now token secret secret o).0 h),
                )),
                λ (other, e', h). elim h [
                  | inl (l, _) ↦ absurd (k (rw (same e') l))
                  | inr (_, opens) ↦
                      (parse_and_decrypt_jwe_iff c p now token secret secret o).1 opens
                ],
              )
      ]
      | inr (x, e) ↦ rw (decode_oauth_jwe, e) ((λ h. cc), λ (_, e', _). cc)
    ]
      where
        same : {a b : Encrypted} → ok a ≡ ok b → a ≡ b
        same h = cc
