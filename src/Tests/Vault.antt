-- ===== src/Tests/Vault.antt =====
-- A small cryptography: keys are told apart, JSON holds one integer, and one token can be written.
use Prim.Native.String.{[], ◌∷◌}
use text.Mathlib.TextEquality.{Char-path}
use go_mcp_oauth_sdk.Prelude.{
  ℕ, code, String, ◌≡◌, refl, sym, ap, ◌∙◌, Bool, true, false, ◌&&◌, some, List, inl, inr, arith,
  ◌==◌, eq_iff, eqb, if◌then◌else◌, Bool-cases, eq-cases,
}
use go_mcp_oauth_sdk.Prelude.Int.{pos, negsuc}
use go_mcp_oauth_sdk.Prelude.Perm.{Reorder}
use go_mcp_oauth_sdk.Errors.{plain, Result, ok, err}
use go_mcp_oauth_sdk.Json.{Value, null, bool, float64, number, int64, int, str, arr, obj, Object}
use go_mcp_oauth_sdk.Jwe.{Bytes, Crypto}
use go_mcp_oauth_sdk.Jwe.Documented.{map_values, IsSealed, Documented, Separates}

abbrev one : ℕ → Bytes
one n = List.◌∷◌ n List.[]

abbrev no : {A : Type 0} → Result A
no = err (plain "no")

abbrev eq_bytes : Bytes → Bytes → Bool
eq_bytes List.[] List.[] = true
eq_bytes (List.◌∷◌ a xs) (List.◌∷◌ b ys) = eqb a b && eq_bytes xs ys
eq_bytes _ _ = false

eq_bytes_sound : (a b : Bytes) → eq_bytes a b ≡ true → a ≡ b
eq_bytes_sound List.[] List.[] h = refl
eq_bytes_sound List.[] (List.◌∷◌ b ys) h = cc
eq_bytes_sound (List.◌∷◌ a xs) List.[] h = cc
eq_bytes_sound (List.◌∷◌ a xs) (List.◌∷◌ b ys) h = ground (arith, eq_bytes_sound xs ys)

eq_bytes_refl : (a : Bytes) → eq_bytes a a ≡ true
eq_bytes_refl List.[] = refl
eq_bytes_refl (List.◌∷◌ a xs) = ground (arith, eq_bytes_refl xs)

-- A label, as its code points.
abbrev pub codes : String → Bytes
codes [] = List.[]
codes (c ∷ s) = List.◌∷◌ (code c) (codes s)

codes_injective : (s t : String) → codes s ≡ codes t → s ≡ t
codes_injective [] [] h = refl
codes_injective [] (d ∷ t) h = cc
codes_injective (c ∷ s) [] h = cc
codes_injective (c ∷ s) (d ∷ t) h =
    let first : c ≡ d = Char-path c d (cc) in rw first (ap (λ r. d ∷ r) (codes_injective s t (cc)))

-- JSON: the object `{"exp": n}`, as the byte `n`.
abbrev whole : ℕ → Value
whole n = float64 (record { negative = false; numerator = n; scale = 0 })

abbrev pub decoded : Value → Value
decoded (int64 (pos n)) = whole n
decoded v = v

abbrev marshal_one : String → Value → Result Bytes
marshal_one k (int64 (pos n)) = if k == "exp" then ok (one n) else no
marshal_one k _ = no

abbrev marshal : Object → Result Bytes
marshal List.[] = no
marshal (List.◌∷◌ (k, v) List.[]) = marshal_one k v
marshal (List.◌∷◌ (k, v) (List.◌∷◌ e o)) = no

abbrev unmarshal : Bytes → Result Object
unmarshal (List.◌∷◌ n List.[]) = ok (List.◌∷◌ ("exp", whole n) List.[])
unmarshal _ = no

pub record Box : Type 0 where
  pub key : Bytes
  pub content_type : String
  pub kid : String
  pub plaintext : Bytes

abbrev same_box : Box → Box → Bool
same_box a b =
    eq_bytes a.key b.key
    && a.content_type == b.content_type
    && a.kid == b.kid
    && eq_bytes a.plaintext b.plaintext

abbrev fill : Bytes × String × String → Bytes → Box
fill (key, content_type, kid) b = record {
  key = key;
  content_type = content_type;
  kid = kid;
  plaintext = b;
}

-- Its one token "sealed" is written for the given box only.
abbrev pub vault : Box → Crypto Bytes (Bytes × String × String) Box Bytes
vault box = record {
  sum256 = λ b. List.◌∷◌ 1 b;
  hkdf = λ secret info n. codes info;
  marshal = marshal;
  unmarshal = unmarshal;
  new_signer = λ key. ok key;
  sign = λ signer claims. marshal claims;
  parse_signed = λ b. ok b;
  verified = λ b key. unmarshal b;
  new_encrypter = λ key content_type kid. ok (key, content_type, kid);
  encrypt = λ e b. ok (fill e b);
  compact_serialize = λ x. if same_box x box then ok "sealed" else no;
  parse_encrypted = λ t. if t == "sealed" then ok box else no;
  decrypt = λ x key. if eq_bytes key x.key then ok x.plaintext else no;
  content_type = λ x. some (str x.content_type);
  key_id = λ x. x.kid;
}

same : {A : Type 0} {a b : A} → ok a ≡ ok b → a ≡ b
same h = cc

both_true : (b c : Bool) → (b && c) ≡ true → (b ≡ true) × (c ≡ true)
both_true true c h = (refl, h)
both_true false c h = cc

decodes :
    (claims : Object) (bytes : Bytes)
    → marshal claims ≡ ok bytes
    → (o : Object) × Reorder (map_values decoded claims) o × (unmarshal bytes ≡ ok o)
decodes List.[] bytes h = cc
decodes (List.◌∷◌ (k, null) List.[]) bytes h = cc
decodes (List.◌∷◌ (k, bool b) List.[]) bytes h = cc
decodes (List.◌∷◌ (k, float64 x) List.[]) bytes h = cc
decodes (List.◌∷◌ (k, number x) List.[]) bytes h = cc
decodes (List.◌∷◌ (k, int64 (pos n)) List.[]) bytes h = elim (eq-cases k "exp") [
  | inl (t, e) ↦
      let read : ◌≡◌ {A = Result Bytes} (ok (one n)) (ok bytes) = rw (← h, t) refl in
      (
        List.◌∷◌ (k, whole n) List.[],
        Reorder.keep (k, whole n) Reorder.empty,
        rw (← same read, e) refl,
      )
  | inr (t, ne) ↦ let refused : ◌≡◌ {A = Result Bytes} no (ok bytes) = rw (← h, t) refl in cc
]
decodes (List.◌∷◌ (k, int64 (negsuc n)) List.[]) bytes h = cc
decodes (List.◌∷◌ (k, int n) List.[]) bytes h = cc
decodes (List.◌∷◌ (k, str x) List.[]) bytes h = cc
decodes (List.◌∷◌ (k, arr x) List.[]) bytes h = cc
decodes (List.◌∷◌ (k, obj x) List.[]) bytes h = cc
decodes (List.◌∷◌ (k, v) (List.◌∷◌ e o)) bytes h = cc

module _ (box : Box) where
  -- The token is only ever written for the box, whose parts are then those it was made from.
  record Holds (key : Bytes) (content_type kid : String) (plaintext : Bytes) (token : String)
      : Type 0 where
    key_eq : box.key ≡ key
    content_type_eq : box.content_type ≡ content_type
    kid_eq : box.kid ≡ kid
    plaintext_eq : box.plaintext ≡ plaintext
    token_eq : token ≡ "sealed"

  holds :
      {key : Bytes} {content_type kid : String} {plaintext : Bytes} {token : String}
      → IsSealed (vault box) key content_type kid plaintext token
      → Holds key content_type kid plaintext token
  holds {key} {content_type} {kid} {plaintext} {token} m =
      let from : (key, content_type, kid) ≡ m.encrypter = same m.made in
      let filled : fill m.encrypter plaintext ≡ m.sealed = same m.encrypted in
      let whole_box : fill (key, content_type, kid) plaintext ≡ m.sealed =
        ap (λ e. fill e plaintext) from ∙ filled in
      elim (Bool-cases (same_box m.sealed box)) [
        | inl t ↦
            let (h1, d) = both_true _ _ t in
            let (h2, c) = both_true _ _ h1 in
            let (a, b) = both_true _ _ h2 in
            record {
              key_eq = sym (ap Box.key whole_box ∙ eq_bytes_sound _ _ a);
              content_type_eq = sym (ap Box.content_type whole_box ∙ (eq_iff _ _).0 b);
              kid_eq = sym (ap Box.kid whole_box ∙ (eq_iff _ _).0 c);
              plaintext_eq = sym (ap Box.plaintext whole_box ∙ eq_bytes_sound _ _ d);
              token_eq = sym (same (rw (← m.serialized, t) refl));
            }
        | inr t ↦
            let refused : ◌≡◌ {A = Result String} no (ok token) = rw (← m.serialized, t) refl in cc
      ]

  pub vault-Documented : Documented (vault box) decoded
  vault-Documented = record {
    unseal = λ made.
        let h = holds made in
        (
          box,
          rw h.token_eq refl,
          rw (← h.key_eq, eq_bytes_refl box.key, h.plaintext_eq) refl,
          ap (λ t. some (str t)) h.content_type_eq,
          h.kid_eq,
        );
    decode = λ {claims} {bytes} unique h. decodes claims bytes h;
    verify = λ {claims} {key} {bytes} unique made signed.
        let (o, r, u) = decodes claims bytes signed in (o, r, bytes, refl, u);
  }

  pub vault-Separates : Separates (vault box)
  vault-Separates = record {
    own_key =
        λ {key} {other} {content_type} {kid} {plaintext} {opened} {token} {jwe} made parses
            decrypts.
          let h = holds made in
          let found : ◌≡◌ {A = Result Box} (ok box) (ok jwe) = rw (← parses, h.token_eq) refl in
          elim (Bool-cases (eq_bytes other jwe.key)) [
            | inl t ↦ eq_bytes_sound other jwe.key t ∙ ap Box.key (sym (same found)) ∙ h.key_eq
            | inr t ↦
                let refused : ◌≡◌ {A = Result Bytes} no (ok opened) = rw (← decrypts, t) refl in cc
          ];
    own_label = λ secret info other h. codes_injective info other h;
  }
