-- ===== src/Text.antt =====
-- The functions of Go's `strings`, `unicode` and `strconv` packages that the SDK calls, on texts of
-- Unicode code points. A text that is not valid UTF-8 has no counterpart here, but in Text/Bytes:
-- claims and configuration reach the SDK through JSON and YAML decoders, which give valid UTF-8.
pub mod Bytes
pub mod Trim
pub mod Prefix
pub mod Split
use Prim.Native.String.{[], ◌∷◌}
use mathlib.Core.List
use go_mcp_oauth_sdk.Prelude.{
  ℕ, zero, suc, ◌+◌, ◌-◌, ◌*◌, ◌/◌, ◌%◌, ◌^◌, Char, code, String, Bool, true, false, ◌&&◌, ◌||◌,
  Option, none, some, List, ◌==◌, leb, ltb, eqb, if◌then◌else◌,
}
use go_mcp_oauth_sdk.Prelude.Int.{ℤ, pos, sub_ℕ}

-- `unicode.IsSpace`: the code points with the White_Space property.
unfoldable pub is_space : Char → Bool
is_space ch =
    let c = code ch in
    (leb 9 c && leb c 13)
    || eqb c 32
    || eqb c 0x85
    || eqb c 0xA0
    || eqb c 0x1680
    || (leb 0x2000 c && leb c 0x200a)
    || eqb c 0x2028
    || eqb c 0x2029
    || eqb c 0x202f
    || eqb c 0x205f
    || eqb c 0x3000

unfoldable pub is_slash : Char → Bool
is_slash ch = eqb (code ch) b'/'

-- the text without the longest prefix, or suffix, of characters that satisfy `p`
unfoldable pub trim_left : (Char → Bool) → String → String
trim_left p [] = []
trim_left p (c ∷ s) = let rest = trim_left p s in if p c then rest else c ∷ s

abbrev pub keep_if : Bool → Char → String → String
keep_if drop c [] = if drop then [] else c ∷ []
keep_if drop c (d ∷ s) = c ∷ (d ∷ s)

unfoldable pub trim_right : (Char → Bool) → String → String
trim_right p [] = []
trim_right p (c ∷ s) = keep_if (p c) c (trim_right p s)

-- `strings.TrimSpace`
unfoldable pub trim_space : String → String
trim_space s = trim_right is_space (trim_left is_space s)

-- `strings.TrimRight(s, "/")`
unfoldable pub trim_slashes : String → String
trim_slashes s = trim_right is_slash s

-- what follows the prefix `p`, if the text begins with it
unfoldable pub cut_prefix : String → String → Option String
cut_prefix [] s = some s
cut_prefix (c ∷ p) [] = none
cut_prefix (c ∷ p) (d ∷ s) = if eqb (code c) (code d) then cut_prefix p s else none

-- `strings.HasPrefix`, `strings.TrimPrefix` and `strings.HasSuffix`
unfoldable pub has_prefix : String → String → Bool
has_prefix s p = elim (cut_prefix p s) [ none ↦ false | some _ ↦ true ]

unfoldable pub trim_prefix : String → String → String
trim_prefix s p = elim (cut_prefix p s) [ none ↦ s | some rest ↦ rest ]

unfoldable pub has_suffix : String → String → Bool
has_suffix [] t = "" == t
has_suffix (c ∷ s) t = (c ∷ s) == t || has_suffix s t

-- `strings.Count(s, sep)` for a separator of one character
unfoldable pub count_char : ℕ → String → ℕ
count_char sep [] = 0
count_char sep (c ∷ s) = (if eqb (code c) sep then 1 else 0) + count_char sep s

abbrev pub cons_first : Char → List String → List String
cons_first c List.[] = List.◌∷◌ (c ∷ []) List.[]
cons_first c (List.◌∷◌ field fields) = List.◌∷◌ (c ∷ field) fields

-- `strings.Split(s, sep)` for a separator of one character
unfoldable pub split : ℕ → String → List String
split sep [] = List.◌∷◌ [] List.[]
split sep (c ∷ s) =
    let rest = split sep s in if eqb (code c) sep then List.◌∷◌ [] rest else cons_first c rest

-- The text before the first separator: the first result of `strings.Cut`.
unfoldable pub cut_before : ℕ → String → String
cut_before sep [] = []
cut_before sep (c ∷ s) = let rest = cut_before sep s in if eqb (code c) sep then [] else c ∷ rest

-- `strings.Fields`: the words between runs of white space. The flag says whether the character
-- before belongs to a word, so that the next one extends it.
abbrev pub add_to_word : Bool → Char → List String → List String
add_to_word true c words = cons_first c words
add_to_word false c words = List.◌∷◌ (c ∷ []) words

abbrev pub starts_word : String → Bool
starts_word [] = false
starts_word (c ∷ s) = if is_space c then false else true

unfoldable pub fields : String → List String
unfolding is_space
fields [] = List.[]
fields (c ∷ s) =
    let rest = fields s in if is_space c then rest else add_to_word (starts_word s) c rest

-- `strings.Join(words, " ")`
unfoldable pub join_space : List String → String
join_space List.[] = []
join_space (List.◌∷◌ w List.[]) = w
join_space (List.◌∷◌ w (List.◌∷◌ v ws)) =
    Prim.Native.String.◌++◌ w (Prim.Native.String.◌++◌ " " (join_space (List.◌∷◌ v ws)))

unfoldable pub map_chars : (Char → Char) → String → String
map_chars f [] = []
map_chars f (c ∷ s) = f c ∷ map_chars f s

-- `strconv.ParseInt(s, 10, 64)`, `none` where it reports an error: a sign, then at least one
-- decimal digit and no other character, with a value in range.
abbrev pub add_digit : Option ℕ → Char → Option ℕ
add_digit none ch = none
add_digit (some n) ch =
    if leb b'0' (code ch) && leb (code ch) b'9' then some (n * 10 + (code ch - b'0')) else none

unfoldable pub parse_digits : Option ℕ → String → Option ℕ
parse_digits n [] = n
parse_digits n (c ∷ s) = parse_digits (add_digit n c) s

unfoldable pub parse_uint : String → Option ℕ
unfolding parse_digits
parse_uint s = if s == "" then none else parse_digits (some 0) s

abbrev pub check_pos : Option ℕ → Option ℤ
check_pos none = none
check_pos (some n) = if ltb n (2 ^ 63) then some (pos n) else none

abbrev pub check_neg : Option ℕ → Option ℤ
check_neg none = none
check_neg (some n) = if leb n (2 ^ 63) then some (sub_ℕ 0 n) else none

unfoldable pub parse_int : String → Option ℤ
unfolding parse_uint
parse_int [] = none
parse_int (c ∷ s) =
    if eqb (code c) b'+'
    then check_pos (parse_uint s)
    else if eqb (code c) b'-'
    then check_neg (parse_uint s)
    else check_pos (parse_uint (c ∷ s))

-- `strconv.Itoa` of a number below 10 ^ fuel that is not negative.
abbrev pub digit : ℕ → String
digit zero = "0"
digit (suc zero) = "1"
digit (suc (suc zero)) = "2"
digit (suc (suc (suc zero))) = "3"
digit (suc (suc (suc (suc zero)))) = "4"
digit (suc (suc (suc (suc (suc zero))))) = "5"
digit (suc (suc (suc (suc (suc (suc zero)))))) = "6"
digit (suc (suc (suc (suc (suc (suc (suc zero))))))) = "7"
digit (suc (suc (suc (suc (suc (suc (suc (suc zero)))))))) = "8"
digit _ = "9"

unfoldable pub itoa : ℕ → ℕ → String
itoa zero n = ""
itoa (suc fuel) n =
    let high = itoa fuel (n / 10) in
    Prim.Native.String.◌++◌ (if ltb n 10 then "" else high) (digit (n % 10))
