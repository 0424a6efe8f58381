-- ===== src/Context.antt =====
-- oauth/context.go: the bearer and the validated claims on a request context. A context is the list
-- of the values it carries, the latest first. Keys are compared by their type and their value: those
-- of the type `contextKey` by their texts, and they differ from every key of another type. Any
-- package can use the two exported keys, with a value of any type.
pub mod Laws
use go_mcp_oauth_sdk.Prelude.{
  String, Bool, true, false, Option, none, some, List, [], ◌∷◌, ◌==◌, if◌then◌else◌,
}
use go_mcp_oauth_sdk.Claims.{Claims}

-- A key of the type `contextKey`, or of another package's type, which is given by some text.
pub data ContextKey : Type 0 where
  context_key : String → ContextKey
  foreign : String → ContextKey

abbrev pub token_key : ContextKey
token_key = context_key "oauth_token"

abbrev pub claims_key : ContextKey
claims_key = context_key "oauth_claims"

-- A value is a `string`, a `*Claims`, which may be nil, or of another type.
pub data ContextValue : Type 0 where
  text : String → ContextValue
  claims : Option Claims → ContextValue
  other : ContextValue

abbrev pub Context : Type 0
Context = List (ContextKey × ContextValue)

unfoldable pub same_key : ContextKey → ContextKey → Bool
same_key (context_key k) (context_key l) = k == l
same_key (foreign k) (foreign l) = k == l
same_key _ _ = false

-- `ctx.Value(key)` and `context.WithValue`
unfoldable pub value : Context → ContextKey → Option ContextValue
value [] key = none
value ((k, v) ∷ ctx) key = let outer = value ctx key in if same_key k key then some v else outer

unfoldable pub with_value : Context → ContextKey → ContextValue → Context
with_value ctx key v = (key, v) ∷ ctx

abbrev pub as_text : Option ContextValue → String
as_text (some (text s)) = s
as_text _ = ""

-- `none` is the nil pointer.
abbrev pub as_claims : Option ContextValue → Option Claims
as_claims (some (claims c)) = c
as_claims _ = none

unfoldable pub token_from_context : Context → String
token_from_context ctx = as_text (value ctx token_key)

unfoldable pub claims_from_context : Context → Option Claims
claims_from_context ctx = as_claims (value ctx claims_key)

unfoldable pub with_token : Context → String → Context
with_token ctx tok = with_value ctx token_key (text tok)

unfoldable pub with_claims : Context → Option Claims → Context
with_claims ctx c = with_value ctx claims_key (claims c)
