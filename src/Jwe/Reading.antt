-- ===== src/Jwe/Reading.antt =====
-- How the claims come out of the decrypted bytes of a JWE.
use mathlib.Core.Bool.{false≢true}
use go_mcp_oauth_sdk.Prelude.{
  String, ◌≡◌, ◌≢◌, ◌↔◌, refl, sym, ap, ◌∙◌, true, false, Option, none, some, [], ◌∷◌, inl, inr,
  arith, eq_iff, is_empty, Bool-cases, eq-cases,
}
use go_mcp_oauth_sdk.Errors.{Failure, Result, ok, err}
use go_mcp_oauth_sdk.Errors.Laws.{Result-cases}
use go_mcp_oauth_sdk.Json.{Value, str, Object}
use go_mcp_oauth_sdk.Jwe.{
  Bytes, Crypto, or_invalid, hash_sha256, content_type_of, open_json, open_signed, open_jwt,
  open_either, open_content,
}

pub or_invalid-eq-ok {ℓ} : {A : Type ℓ} (r : Result A) (a : A) → (or_invalid r ≡ ok a) ↔ (r ≡ ok a)
or_invalid-eq-ok (ok b) a = ((λ h. h), λ h. h)
or_invalid-eq-ok (err e) a = ((λ h. cc), λ h. cc)

no_bytes : (b : Bytes) → (is_empty b ≡ true) ↔ (b ≡ [])
no_bytes [] = ((λ h. refl), λ h. refl)
no_bytes (x ∷ b) = ((λ h. cc), λ h. cc)

module _ {Signer Encrypter Encrypted Signed : Type 0}
    (c : Crypto Signer Encrypter Encrypted Signed) where
  -- Where the decrypted bytes are read as JSON without a signature, by a content type as the code
  -- has it.
  data PlainBy (content_type : String) (jwt_secret decrypted : Bytes) : Type 0 where
    no_secret_by : jwt_secret ≡ [] → PlainBy content_type jwt_secret decrypted
    json_by : content_type ≡ "JSON" → PlainBy content_type jwt_secret decrypted
    neither_by :
        (e : Failure)
        → content_type ≢ "JWT"
        → c.parse_signed decrypted ≡ err e
        → PlainBy content_type jwt_secret decrypted

  data ReadsBy (content_type : String) (jwt_secret decrypted : Bytes) (o : Object) : Type 0 where
    json :
        PlainBy content_type jwt_secret decrypted
        → c.unmarshal decrypted ≡ ok o
        → ReadsBy content_type jwt_secret decrypted o
    signed :
        (nested : Signed)
        → jwt_secret ≢ []
        → content_type ≢ "JSON"
        → c.parse_signed decrypted ≡ ok nested
        → c.verified nested (hash_sha256 c jwt_secret) ≡ ok o
        → ReadsBy content_type jwt_secret decrypted o

  open_json_iff :
      (decrypted : Bytes) (o : Object)
      → (open_json c decrypted ≡ ok o) ↔ (c.unmarshal decrypted ≡ ok o)
  unfolding open_json
  open_json_iff decrypted o = or_invalid-eq-ok (c.unmarshal decrypted) o

  jwt-ne-json : ◌≢◌ {A = String} "JWT" "JSON"
  jwt-ne-json e = absurd (false≢true ((eq_iff "JWT" "JSON").1 e))

  -- The decrypted bytes are read as JSON, or as a signed token.
  module _ (ct : String) (secret decrypted : Bytes) (o : Object) where
    opens_plain :
        PlainBy ct secret decrypted
        → (secret ≢ [] → ct ≢ "JSON" → (nested : Signed) → c.parse_signed decrypted ≡ ok nested → ⊥)
        → (open_json c decrypted ≡ ok o) ↔ ReadsBy ct secret decrypted o
    opens_plain why never = (
      (λ h. json why ((open_json_iff decrypted o).0 h)),
      elim [
        | json _ h ↦ (open_json_iff decrypted o).1 h
        | signed nested s k e h ↦ absurd (never s k nested e)
      ],
    )

    opens_nested :
        (nested : Signed)
        → c.parse_signed decrypted ≡ ok nested
        → secret ≢ []
        → ct ≢ "JSON"
        → (open_signed c nested secret ≡ ok o) ↔ ReadsBy ct secret decrypted o
    unfolding open_signed
    opens_nested nested e s k =
        let inner = or_invalid-eq-ok (c.verified nested (hash_sha256 c secret)) o in
        (
          (λ h. signed nested s k e (inner.0 h)),
          elim [
            | json (no_secret_by n) h ↦ absurd (s n)
            | json (json_by j) h ↦ absurd (k j)
            | json (neither_by x n f) h ↦ absurd (cc)
            | signed other s k e' h ↦ inner.1 (rw (same (sym e ∙ e')) h)
          ],
        )
      where
        same : {a b : Signed} → ok a ≡ ok b → a ≡ b
        same h = cc

    open_unsigned : secret ≡ [] → open_content c ct secret decrypted ≡ open_json c decrypted
    unfolding open_content
    open_unsigned n = rw n (ground arith)

    open_jwt_iff :
        secret ≢ []
        → ct ≡ "JWT"
        → (open_jwt c secret decrypted ≡ ok o) ↔ ReadsBy ct secret decrypted o
    unfolding open_jwt
    open_jwt_iff s k =
        let m = (λ (j : ct ≡ "JSON"). jwt-ne-json (sym k ∙ j)) in
        elim (Result-cases (c.parse_signed decrypted)) [
          | inl (nested, e) ↦ rw (open_jwt, e) (opens_nested nested e s m)
          | inr (x, e) ↦
              rw (open_jwt, e)
                (
                  (λ h. cc),
                  elim [
                    | json (no_secret_by n) h ↦ absurd (s n)
                    | json (json_by j) h ↦ absurd (m j)
                    | json (neither_by _ n _) h ↦ absurd (n k)
                    | signed other _ _ e' h ↦ cc
                  ],
                )
        ]

    open_either_iff :
        secret ≢ []
        → ct ≢ "JWT"
        → ct ≢ "JSON"
        → (open_either c secret decrypted ≡ ok o) ↔ ReadsBy ct secret decrypted o
    unfolding open_either
    open_either_iff s n m = elim (Result-cases (c.parse_signed decrypted)) [
      | inl (nested, e) ↦ rw (open_either, e) (opens_nested nested e s m)
      | inr (x, e) ↦
          rw (open_either, e) (opens_plain (neither_by x n e) (λ _ _ _ e'. cc (sym e ∙ e')))
    ]

    open_content_iff : (open_content c ct secret decrypted ≡ ok o) ↔ ReadsBy ct secret decrypted o
    unfolding open_content
    open_content_iff = elim (Bool-cases (is_empty secret)) [
      | inl n ↦
          let none_given = (no_bytes secret).0 n in
          rw (open_unsigned none_given)
            (opens_plain (no_secret_by none_given) (λ s. absurd (s none_given)))
      | inr n ↦ elim (eq-cases ct "JWT") [
        | inl (t, e) ↦ rw (open_content, t, n) (open_jwt_iff (given n) e)
        | inr (t, ne) ↦ elim (eq-cases ct "JSON") [
          | inl (u, e) ↦ rw (open_content, t, u) (opens_plain (json_by e) (λ s k. absurd (k e)))
          | inr (u, ne') ↦ rw (open_content, t, u, n) (open_either_iff (given n) ne ne')
        ]
      ]
    ]
      where
        given : is_empty secret ≡ false → secret ≢ []
        given n s = ground (arith, (no_bytes secret).1 s)

  -- Where the decrypted bytes are read as JSON without a signature: there is no secret to verify one
  -- with, the `cty` header is the text JSON, or it is a text that is not JWT and the bytes are no
  -- signed token.
  pub data Unsigned (cty : Option Value) (jwt_secret decrypted : Bytes) : Type 0 where
    no_secret : jwt_secret ≡ [] → Unsigned cty jwt_secret decrypted
    says_json : cty ≡ some (str "JSON") → Unsigned cty jwt_secret decrypted
    says_other :
        (ct : String) (e : Failure)
        → cty ≡ some (str ct)
        → ct ≢ "JWT"
        → c.parse_signed decrypted ≡ err e
        → Unsigned cty jwt_secret decrypted

  -- How the claims come out of the decrypted bytes.
  pub data Reads (cty : Option Value) (jwt_secret decrypted : Bytes) (o : Object) : Type 0 where
    plainly :
        Unsigned cty jwt_secret decrypted
        → c.unmarshal decrypted ≡ ok o
        → Reads cty jwt_secret decrypted o
    verified :
        (nested : Signed)
        → jwt_secret ≢ []
        → cty ≢ some (str "JSON")
        → c.parse_signed decrypted ≡ ok nested
        → c.verified nested (c.sum256 jwt_secret) ≡ ok o
        → Reads cty jwt_secret decrypted o

  module _ (secret decrypted : Bytes) (o : Object) where
    -- A content type that is read from the header, or stands for a header that is no text.
    content_type-text :
        (cty : Option Value) (ct : String)
        → ct ≢ "JWT"
        → content_type_of c cty ≡ ct
        → cty ≡ some (str ct)
    unfolding content_type_of
    content_type-text (some (str s)) ct ne e = ap (λ s. some (str s)) e
    content_type-text (some _) ct ne e = absurd (ne (sym e))
    content_type-text none ct ne e = absurd (ne (sym e))

    content_type-given :
        (cty : Option Value) (ct : String) → cty ≡ some (str ct) → content_type_of c cty ≡ ct
    unfolding content_type_of
    content_type-given cty ct e = rw e refl

    plain_header_iff :
        (cty : Option Value)
        → PlainBy (content_type_of c cty) secret decrypted ↔ Unsigned cty secret decrypted
    plain_header_iff cty = (
      elim [
        | no_secret_by n ↦ no_secret n
        | json_by e ↦ says_json (content_type-text cty "JSON" (λ f. jwt-ne-json (sym f)) e)
        | neither_by x ne f ↦
            says_other (content_type_of c cty) x (content_type-text cty _ ne refl) ne f
      ],
      elim [
        | no_secret n ↦ no_secret_by n
        | says_json e ↦ json_by (content_type-given cty "JSON" e)
        | says_other ct x e ne f ↦ neither_by x (λ g. ne (sym (content_type-given cty ct e) ∙ g)) f
      ],
    )

    from_header_iff :
        (cty : Option Value)
        → ReadsBy (content_type_of c cty) secret decrypted o ↔ Reads cty secret decrypted o
    unfolding hash_sha256
    from_header_iff cty = (
      elim [
        | json why h ↦ plainly ((plain_header_iff cty).0 why) h
        | signed nested s k e h ↦ verified nested s (λ g. k (content_type-given cty "JSON" g)) e h
      ],
      elim [
        | plainly why h ↦ json ((plain_header_iff cty).1 why) h
        | verified nested s k e h ↦
            signed nested s (λ g. k (content_type-text cty "JSON" (λ f. jwt-ne-json (sym f)) g)) e h
      ],
    )

    pub read_content_iff :
        (cty : Option Value)
        → (open_content c (content_type_of c cty) secret decrypted ≡ ok o)
          ↔ Reads cty secret decrypted o
    read_content_iff cty =
        let h = open_content_iff (content_type_of c cty) secret decrypted o in
        let k = from_header_iff cty in ((λ e. k.0 (h.0 e)), λ r. h.1 (k.1 r))
