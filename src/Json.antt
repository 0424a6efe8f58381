-- ===== src/Json.antt =====
-- Decoded JSON, Go's `interface{}` as `encoding/json` and the JWE code fill it, with the type
-- assertions and the map lookups that the SDK makes. A Go map is an association list; its order
-- is the order in which a `range` loop visits the keys, which Go leaves open.
pub mod Order
use go_mcp_oauth_sdk.Prelude.{
  ℕ, ◌*◌, ◌/◌, ◌^◌, String, Bool, false, ◌&&◌, Option, none, some, List, [], ◌∷◌, ◌==◌, ltb, leb,
  if◌then◌else◌, Distinct,
}
use go_mcp_oauth_sdk.Prelude.Int.{ℤ, pos, sub_ℕ}

-- A finite float64, which is ± numerator / 2 ^ scale. A JSON number is never NaN or infinite.
pub record Float64 : Type 0 where
  pub negative : Bool
  pub numerator : ℕ
  pub scale : ℕ

mutual
  pub data Value : Type 0 where
    null : Value
    bool : Bool → Value
    float64 : Float64 → Value
    number : String → Value
    int64 : ℤ → Value
    int : ℤ → Value
    str : String → Value
    arr : Items → Value
    obj : Fields → Value

  pub data Items : Type 0 where
    cons : Value → Items → Items
    nil : Items

  pub data Fields : Type 0 where
    field : String → Value → Fields → Fields
    end : Fields

-- A `map[string]interface{}`, and when it is one: no key stands twice.
abbrev pub Object : Type 0
Object = List (String × Value)

abbrev pub keys : Object → List String
keys [] = []
keys ((k, v) ∷ o) = k ∷ keys o

abbrev pub IsMap : Object → Type 0
IsMap o = Distinct (keys o)

abbrev pub elems : Items → List Value
elems nil = []
elems (cons v vs) = v ∷ elems vs

-- The two-result lookup `v, ok := m[key]`.
unfoldable pub get : Object → String → Option Value
get [] key = none
get ((k, v) ∷ o) key = if k == key then some v else get o key

-- The type assertions `v.(string)` and `v.(bool)`, also of the nil that a missing key gives.
abbrev pub as_string : Value → Option String
as_string (str s) = some s
as_string _ = none

abbrev pub as_bool : Value → Option Bool
as_bool (bool b) = some b
as_bool _ = none

unfoldable pub get_string : Object → String → Option String
unfolding get
get_string o key = elim (get o key) [ none ↦ none | some v ↦ as_string v ]

unfoldable pub get_bool : Object → String → Option Bool
unfolding get
get_bool o key = elim (get o key) [ none ↦ none | some v ↦ as_bool v ]

-- the members of an array that are strings, in order
unfoldable pub strings : List Value → List String
strings [] = []
strings (str s ∷ vs) = s ∷ strings vs
strings (_ ∷ vs) = strings vs

-- The tests `n < -2^63` and `n >= 2^63` of a float64, and its value rounded towards zero.
unfoldable pub below_int64 : Float64 → Bool
below_int64 x = x.negative && ltb (2 ^ 63 * 2 ^ x.scale) x.numerator

unfoldable pub above_int64 : Float64 → Bool
above_int64 x = if x.negative then false else leb (2 ^ 63 * 2 ^ x.scale) x.numerator

unfoldable pub truncate : Float64 → ℤ
truncate x =
    let whole = x.numerator / 2 ^ x.scale in if x.negative then sub_ℕ 0 whole else pos whole
