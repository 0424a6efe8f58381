-- ===== src/Errors.antt =====
-- Go's error values: the sentinels of oauth/errors.go and, the last two, of jwe_auth/jwe_auth.go,
-- the errors that `fmt.Errorf` builds around others, and the two error types of oauth/jwt.go, with
-- `Error`, `errors.Is` and `errors.As`.
pub mod Laws
use Prim.Native.String
use go_mcp_oauth_sdk.Prelude.{
  ℕ, String, Bool, true, false, ◌||◌, Option, none, some, eqb, if◌then◌else◌,
}

pub data Sentinel : Type 0 where
  missing_token invalid_token token_expired insufficient_scopes email_not_verified : Sentinel
  unauthorized_domain email_claim_missing email_claim_ambiguous transient : Sentinel
  missing_jwe_token invalid_jwe_token : Sentinel

abbrev index : Sentinel → ℕ
index missing_token = 0
index invalid_token = 1
index token_expired = 2
index insufficient_scopes = 3
index email_not_verified = 4
index unauthorized_domain = 5
index email_claim_missing = 6
index email_claim_ambiguous = 7
index transient = 8
index missing_jwe_token = 9
index invalid_jwe_token = 10

abbrev pub same : Sentinel → Sentinel → Bool
same a b = eqb (index a) (index b)

unfoldable pub message : Sentinel → String
message missing_token = "missing OAuth token"
message invalid_token = "invalid OAuth token"
message token_expired = "OAuth token expired"
message insufficient_scopes = "insufficient OAuth scopes"
message email_not_verified = "OAuth email is not verified"
message unauthorized_domain = "OAuth identity domain is not allowed"
message email_claim_missing = "oauth token has no email claim"
message email_claim_ambiguous = "OAuth email identity is ambiguous"
message transient = "transient OAuth validation failure"
message missing_jwe_token = "missing JWE token"
message invalid_jwe_token = "invalid JWE token"

-- `plain` is an error that wraps none: of `errors.New`, of `fmt.Errorf` without `%w`, or of another
-- package. `wrap` and `wrap_two` are `fmt.Errorf` with one and two verbs `%w`, by the texts
-- before, between and after them. The last two are the types of oauth/jwt.go.
pub data Failure : Type 0 where
  sentinel : Sentinel → Failure
  plain : String → Failure
  wrap : String → Failure → String → Failure
  wrap_two : String → Failure → String → Failure → Failure
  header_parse : Failure → Failure
  kid_not_found : Failure

-- `Error()`
unfoldable pub text : Failure → String
unfolding message
text (sentinel s) = message s
text (plain t) = t
text (wrap before e after) = String.◌++◌ before (String.◌++◌ (text e) after)
text (wrap_two before d between e) =
    String.◌++◌ before (String.◌++◌ (text d) (String.◌++◌ between (text e)))
text (header_parse e) = text e
text kid_not_found = "no JWK found for token key id"

-- `errors.Is(err, target)` for a sentinel
unfoldable pub is : Sentinel → Failure → Bool
is target (sentinel s) = same target s
is target (plain t) = false
is target (wrap before e after) = is target e
is target (wrap_two before d between e) = is target d || is target e
is target (header_parse e) = is target e
is target kid_not_found = same target transient

abbrev or_else {ℓ} : {A : Type ℓ} → Option A → Option A → Option A
or_else none o = o
or_else (some a) o = some a

-- `errors.As` for `*jwtHeaderParseError`: the error inside the first one in the tree
unfoldable pub as_header_parse : Failure → Option Failure
as_header_parse (sentinel s) = none
as_header_parse (plain t) = none
as_header_parse (wrap before e after) = as_header_parse e
as_header_parse (wrap_two before d between e) = or_else (as_header_parse d) (as_header_parse e)
as_header_parse (header_parse e) = some e
as_header_parse kid_not_found = none

-- `isKidNotFoundError`: `errors.As` for `*kidNotFoundError`
unfoldable pub is_kid_not_found : Failure → Bool
is_kid_not_found (sentinel s) = false
is_kid_not_found (plain t) = false
is_kid_not_found (wrap before e after) = is_kid_not_found e
is_kid_not_found (wrap_two before d between e) = is_kid_not_found d || is_kid_not_found e
is_kid_not_found (header_parse e) = is_kid_not_found e
is_kid_not_found kid_not_found = true

-- The Go results `(value, error)`; the SDK returns no value beside an error.
pub data Result {ℓ} (A : Type ℓ) : Type ℓ where
  ok : A → Result A
  err : Failure → Result A

-- `if !test { return nil, e }`
abbrev pub require : Bool → Failure → Result (Unit {0})
require test e = elim test [ false ↦ err e | true ↦ ok tt ]

-- An early return of the error, or the rest of the function.
infixl 5 ◌>>=◌
abbrev pub ◌>>=◌ {ℓ₁ ℓ₂} :
    {Value : Type ℓ₁} {Out : Type ℓ₂} → Result Value → (Value → Result Out) → Result Out
err failure >>= rest = err failure
ok value >>= rest = rest value

-- The same for a check, which has no value.
infixl 5 ◌>>◌
abbrev pub ◌>>◌ {ℓ} : {Out : Type ℓ} → Result (Unit {0}) → Result Out → Result Out
check >> rest = check >>= (λ _. rest)

-- `fmt.Errorf("%w: detail", s)`
abbrev pub detail : Sentinel → String → Failure
detail s t = wrap "" (sentinel s) (String.◌++◌ ": " t)
