-- ===== src/Jwe/Refusal.antt =====
-- The errors with which a JWE is refused.
use mathlib.Core.Path.{subst}
use go_mcp_oauth_sdk.Prelude.{
  String, ◌≡◌, refl, Bool, true, false, not, Option, none, some, [], ◌∷◌, inl, inr, arith, ◌==◌,
  if◌then◌else◌, is_empty, In, contains, contains_iff, Bool-cases, Option-cases,
}
use go_mcp_oauth_sdk.Prelude.Int.{ℤ, ltb_ℤ}
use go_mcp_oauth_sdk.Errors.{Failure, sentinel, invalid_jwe_token, Result, ok, err, ◌>>=◌}
use go_mcp_oauth_sdk.Errors.Laws.{Result-cases}
use go_mcp_oauth_sdk.Json.{Value, Object, get}
use go_mcp_oauth_sdk.Platform.{Platform}
use go_mcp_oauth_sdk.Jwe.Reading.{or_invalid-eq-ok, read_content_iff}
use go_mcp_oauth_sdk.Jwe.Opening.{Yields}
use go_mcp_oauth_sdk.Jwe.{
  Bytes, Crypto, allowed_keys, disallowed, validate_claims_whitelist, exp_time, check_exp,
  validate_expiration, or_invalid, open_json, open_signed, open_jwt, open_either, open_content,
  check_opened, parse_and_decrypt_jwe, hash_sha256, content_type_of,
}

-- The error for invalid tokens, or that for a claim whose name is not allowed, which it names: a
-- claim of an object that `Y` holds of.
pub data IsRefusal (Y : Object → Type 0) (e : Failure) : Type 0 where
  invalid : e ≡ sentinel invalid_jwe_token → IsRefusal Y e
  names :
      (o : Object) (key : String) (v : Value)
      → Y o
      → In (key, v) o
      → ¬ (In key allowed_keys)
      → e ≡ disallowed key
      → IsRefusal Y e

-- Each error of the result is a refusal.
abbrev Refuses : {A : Type 0} → (Object → Type 0) → Result A → Type 0
Refuses Y (ok a) = Unit
Refuses Y (err e) = IsRefusal Y e

Refuses-bind :
    {A B : Type 0} (Y : Object → Type 0) (m : Result A) (f : A → Result B)
    → Refuses Y m
    → ((a : A) → m ≡ ok a → Refuses Y (f a))
    → Refuses Y (m >>= f)
Refuses-bind Y (ok a) f h k = k a refl
Refuses-bind Y (err e) f h k = h

Refuses-if :
    {A : Type 0} (Y : Object → Type 0) (b : Bool) (m n : Result A)
    → Refuses Y m
    → Refuses Y n
    → Refuses Y (if b then m else n)
Refuses-if Y true m n h k = h
Refuses-if Y false m n h k = k

Refuses-or_invalid : {A : Type 0} (Y : Object → Type 0) (r : Result A) → Refuses Y (or_invalid r)
Refuses-or_invalid Y (ok a) = tt
Refuses-or_invalid Y (err e) = invalid refl

-- Any part of the claims, whose entries are entries of the claims.
Refuses-part :
    (Y : Object → Type 0) (o part : Object)
    → Y o
    → ((entry : String × Value) → In entry part → In entry o)
    → Refuses Y (validate_claims_whitelist part)
unfolding validate_claims_whitelist
Refuses-part Y o [] y inside = tt
Refuses-part Y o ((k, v) ∷ part) y inside = elim (Bool-cases (contains allowed_keys k)) [
  | inl known ↦ rw known (Refuses-part Y o part y (λ entry m. inside entry (inr m)))
  | inr unknown ↦ rw unknown (
      names o k v y (inside (k, v) (inl refl))
        (λ m. absurd (ground (arith, (contains_iff allowed_keys k).1 m))) refl)
]

module _ (Y : Object → Type 0) where
  Refuses-check_exp : (now : ℤ) (t : Option ℤ) → Refuses Y (check_exp now t)
  unfolding check_exp
  Refuses-check_exp now none = invalid refl
  Refuses-check_exp now (some t) = elim (Bool-cases (not (ltb_ℤ t now))) [
    | inl e ↦ rw e tt
    | inr e ↦ rw e (invalid refl)
  ]

  Refuses-expiration :
      (p : Platform) (now : ℤ) (claims : Object) → Refuses Y (validate_expiration p now claims)
  unfolding validate_expiration
  Refuses-expiration p now claims = elim (Option-cases (get claims "exp")) [
    | inl e ↦ rw (e, validate_expiration) tt
    | inr (v, e) ↦ rw (e, validate_expiration) (Refuses-check_exp now (exp_time p v))
  ]

module _ {Signer Encrypter Encrypted Signed : Type 0}
    (c : Crypto Signer Encrypter Encrypted Signed) where
  module _ (Y : Object → Type 0) where
    Refuses-check_opened :
        (p : Platform) (now : ℤ) (claims : Object)
        → Y claims
        → Refuses Y (check_opened c p now claims)
    unfolding check_opened
    Refuses-check_opened p now claims y =
        Refuses-bind Y (validate_claims_whitelist claims) _
          (Refuses-part Y claims claims y (λ entry m. m))
          (λ _ _.
            Refuses-bind Y (validate_expiration p now claims) _ (Refuses-expiration Y p now claims)
              (λ _ _. tt))

    Refuses-open_json : (decrypted : Bytes) → Refuses Y (open_json c decrypted)
    unfolding open_json
    Refuses-open_json decrypted = Refuses-or_invalid Y _

    Refuses-open_signed :
        (nested : Signed) (secret : Bytes) → Refuses Y (open_signed c nested secret)
    unfolding open_signed
    Refuses-open_signed nested secret = Refuses-or_invalid Y _

    Refuses-open_jwt : (secret decrypted : Bytes) → Refuses Y (open_jwt c secret decrypted)
    unfolding open_jwt
    Refuses-open_jwt secret decrypted =
        Refuses-bind Y (or_invalid (c.parse_signed decrypted)) _ (Refuses-or_invalid Y _)
          (λ nested _. Refuses-open_signed nested secret)

    Refuses-open_either : (secret decrypted : Bytes) → Refuses Y (open_either c secret decrypted)
    unfolding open_either
    Refuses-open_either secret decrypted = elim (Result-cases (c.parse_signed decrypted)) [
      | inl (nested, e) ↦ rw (e, open_either) (Refuses-open_signed nested secret)
      | inr (x, e) ↦ rw (e, open_either) (Refuses-open_json decrypted)
    ]

    Refuses-open_content :
        (ct : String) (secret decrypted : Bytes) → Refuses Y (open_content c ct secret decrypted)
    unfolding open_content
    Refuses-open_content ct secret decrypted =
        let plain = Refuses-open_json decrypted in
        Refuses-if Y (ct == "JWT") _ _
          (Refuses-if Y (is_empty secret) _ _ plain (Refuses-open_jwt secret decrypted))
          (Refuses-if Y (ct == "JSON") _ _ plain
            (Refuses-if Y (is_empty secret) _ _ plain (Refuses-open_either secret decrypted)))

  Refuses-parse :
      (p : Platform) (now : ℤ) (token : String) (jwe_secret jwt_secret : Bytes)
      → Refuses
          (Yields c token jwe_secret jwt_secret)
          (parse_and_decrypt_jwe c p now token jwe_secret jwt_secret)
  unfolding parse_and_decrypt_jwe hash_sha256
  Refuses-parse p now token jwe_secret jwt_secret =
      let Y = Yields c token jwe_secret jwt_secret in
      Refuses-bind Y (or_invalid (c.parse_encrypted token)) _ (Refuses-or_invalid Y _) (λ jwe e1.
        Refuses-bind Y (or_invalid (c.decrypt jwe (c.sum256 jwe_secret))) _ (Refuses-or_invalid Y _)
          (λ decrypted e2.
            let content = open_content c (content_type_of c (c.content_type jwe)) in
            Refuses-bind Y (content jwt_secret decrypted) _
              (Refuses-open_content Y _ jwt_secret decrypted)
              (λ claims e3. Refuses-check_opened Y p now claims (record {
                jwe = jwe;
                decrypted = decrypted;
                parses = (or_invalid-eq-ok _ _).0 e1;
                decrypts = (or_invalid-eq-ok _ _).0 e2;
                reads = (read_content_iff c jwt_secret decrypted claims _).0 e3;
              }))))

  -- A token that does not open is refused with the one error for invalid tokens, or with that for a
  -- claim whose name is not allowed, which names a claim of the token: one of the claims that a
  -- verified signature or the plain JSON yields. So no error of the libraries passes.
  pub parse_and_decrypt_jwe-IsRefusal :
      (p : Platform) (now : ℤ) (token : String) (jwe_secret jwt_secret : Bytes) (e : Failure)
      → parse_and_decrypt_jwe c p now token jwe_secret jwt_secret ≡ err e
      → IsRefusal (Yields c token jwe_secret jwt_secret) e
  parse_and_decrypt_jwe-IsRefusal p now token jwe_secret jwt_secret e h =
      subst (Refuses (Yields c token jwe_secret jwt_secret)) h
        (Refuses-parse p now token jwe_secret jwt_secret)
