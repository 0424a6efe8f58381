-- ===== src/Context/Laws.antt =====
-- The two values of a request context do not disturb each other, nor do those of other packages.
use mathlib.Core.Bool.{false≢true}
use go_mcp_oauth_sdk.Prelude.{
  String, ◌≡◌, ◌≢◌, ◌↔◌, refl, ap, sym, ◌∙◌, true, Option, none, some, List, [], ◌∷◌, All, inl, inr,
  eq_iff, Bool-cases,
}
use go_mcp_oauth_sdk.Claims.{Claims}
use go_mcp_oauth_sdk.Context.{
  Context, ContextKey, context_key, foreign, token_key, claims_key, ContextValue, text, claims,
  other, as_text, as_claims, same_key, value, with_value, token_from_context, claims_from_context,
  with_token, with_claims,
}

-- A step that puts a value on a context: by the two functions here, or by `context.WithValue` with
-- one of the exported keys or with another key.
pub data Put : Type 0 where
  put_token : String → Put
  put_claims : Option Claims → Put
  put_at_token : ContextValue → Put
  put_at_claims : ContextValue → Put
  put_elsewhere : ContextKey → ContextValue → Put

abbrev pub put : Context → Put → Context
put ctx (put_token tok) = with_token ctx tok
put ctx (put_claims c) = with_claims ctx c
put ctx (put_at_token v) = with_value ctx token_key v
put ctx (put_at_claims v) = with_value ctx claims_key v
put ctx (put_elsewhere key v) = with_value ctx key v

abbrev pub put_all : Context → List Put → Context
put_all ctx [] = ctx
put_all ctx (p ∷ ps) = put_all (put ctx p) ps

-- Another key is neither of the exported ones.
abbrev pub IsElsewhere : Put → Type 0
IsElsewhere (put_elsewhere key v) = (key ≢ token_key) × (key ≢ claims_key)
IsElsewhere _ = Unit

-- A token is a text, and claims are a pointer to claims; a value of another type counts as none.
abbrev pub token_of : ContextValue → String
token_of (text s) = s
token_of _ = ""

abbrev pub claims_of : ContextValue → Option Claims
claims_of (claims c) = c
claims_of _ = none

-- The last of the tokens, or claims, that were put, and the earlier one where none was.
abbrev pub last_token : String → List Put → String
last_token tok [] = tok
last_token tok (put_token t ∷ ps) = last_token t ps
last_token tok (put_at_token v ∷ ps) = last_token (token_of v) ps
last_token tok (_ ∷ ps) = last_token tok ps

abbrev pub last_claims : Option Claims → List Put → Option Claims
last_claims c [] = c
last_claims c (put_claims d ∷ ps) = last_claims d ps
last_claims c (put_at_claims v ∷ ps) = last_claims (claims_of v) ps
last_claims c (_ ∷ ps) = last_claims c ps

same_key_iff : (k l : ContextKey) → (same_key k l ≡ true) ↔ (k ≡ l)
unfolding same_key
same_key_iff (context_key k) (context_key l) =
    let h = eq_iff k l in ((λ e. ap context_key (h.0 e)), λ e. h.1 (cc))
same_key_iff (foreign k) (foreign l) =
    let h = eq_iff k l in ((λ e. ap foreign (h.0 e)), λ e. h.1 (cc))
same_key_iff (context_key k) (foreign l) = ((λ e. cc), λ e. cc)
same_key_iff (foreign k) (context_key l) = ((λ e. cc), λ e. cc)

value-same :
    (ctx : Context) (key : ContextKey) (v : ContextValue)
    → value (with_value ctx key v) key ≡ some v
unfolding value with_value
value-same ctx key v = rw ((same_key_iff key key).1 refl) refl

value-other :
    (ctx : Context) (key key' : ContextKey) (v : ContextValue)
    → key ≢ key'
    → value (with_value ctx key v) key' ≡ value ctx key'
unfolding value with_value
value-other ctx key key' v ne = elim (Bool-cases (same_key key key')) [
  | inl e ↦ absurd (ne ((same_key_iff key key').0 e))
  | inr e ↦ rw e refl
]

token-ne-claims : token_key ≢ claims_key
unfolding same_key
token-ne-claims e = absurd (false≢true ((same_key_iff token_key claims_key).1 e))

-- One step.
token-put :
    (ctx : Context) (p : Put)
    → IsElsewhere p
    → token_from_context (put ctx p) ≡ last_token (token_from_context ctx) (p ∷ [])
unfolding token_from_context with_token with_claims
token-put ctx (put_token t) h = rw (value-same ctx token_key (text t)) refl
token-put ctx (put_claims c) h =
    ap as_text (value-other ctx claims_key token_key (claims c) (λ e. token-ne-claims (sym e)))
token-put ctx (put_at_token v) h = rw (value-same ctx token_key v) (as_text_of v)
  where
    as_text_of : (v : ContextValue) → as_text (some v) ≡ token_of v
    as_text_of (text s) = refl
    as_text_of (claims c) = refl
    as_text_of other = refl
token-put ctx (put_at_claims v) h =
    ap as_text (value-other ctx claims_key token_key v (λ e. token-ne-claims (sym e)))
token-put ctx (put_elsewhere key v) h = ap as_text (value-other ctx key token_key v h.0)

claims-put :
    (ctx : Context) (p : Put)
    → IsElsewhere p
    → claims_from_context (put ctx p) ≡ last_claims (claims_from_context ctx) (p ∷ [])
unfolding claims_from_context with_token with_claims
claims-put ctx (put_token t) h =
    ap as_claims (value-other ctx token_key claims_key (text t) token-ne-claims)
claims-put ctx (put_claims c) h = rw (value-same ctx claims_key (claims c)) refl
claims-put ctx (put_at_token v) h =
    ap as_claims (value-other ctx token_key claims_key v token-ne-claims)
claims-put ctx (put_at_claims v) h = rw (value-same ctx claims_key v) (as_claims_of v)
  where
    as_claims_of : (v : ContextValue) → as_claims (some v) ≡ claims_of v
    as_claims_of (text s) = refl
    as_claims_of (claims c) = refl
    as_claims_of other = refl
claims-put ctx (put_elsewhere key v) h = ap as_claims (value-other ctx key claims_key v h.1)

last_token-step :
    (tok : String) (p : Put) (ps : List Put)
    → last_token (last_token tok (p ∷ [])) ps ≡ last_token tok (p ∷ ps)
last_token-step tok (put_token t) ps = refl
last_token-step tok (put_claims c) ps = refl
last_token-step tok (put_at_token v) ps = refl
last_token-step tok (put_at_claims v) ps = refl
last_token-step tok (put_elsewhere key v) ps = refl

last_claims-step :
    (c : Option Claims) (p : Put) (ps : List Put)
    → last_claims (last_claims c (p ∷ [])) ps ≡ last_claims c (p ∷ ps)
last_claims-step c (put_token t) ps = refl
last_claims-step c (put_claims d) ps = refl
last_claims-step c (put_at_token v) ps = refl
last_claims-step c (put_at_claims v) ps = refl
last_claims-step c (put_elsewhere key v) ps = refl

-- Whatever is put on a context, in any order, by the functions here, or by any package under the
-- exported keys or under other keys: reading gives the last token and the last claims that were put,
-- where a value of a wrong type under one of the exported keys counts as "" or as nil.
pub from_context-put_all :
    (ctx : Context) (ps : List Put)
    → All IsElsewhere ps
    → (token_from_context (put_all ctx ps) ≡ last_token (token_from_context ctx) ps)
      × (claims_from_context (put_all ctx ps) ≡ last_claims (claims_from_context ctx) ps)
from_context-put_all ctx [] h = (refl, refl)
from_context-put_all ctx (p ∷ ps) (here, rest) =
    let (t, c) = from_context-put_all (put ctx p) ps rest in
    (
      t ∙ ap (λ tok. last_token tok ps) (token-put ctx p here) ∙ last_token-step _ p ps,
      c ∙ ap (λ d. last_claims d ps) (claims-put ctx p here) ∙ last_claims-step _ p ps,
    )
