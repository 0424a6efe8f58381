-- ===== src/Text/Bytes.antt =====
-- The UTF-8 form of a text: its length in bytes. And Go strings as they are, any bytes: what a
-- `range` loop visits, `len`, `s[:n]` and `strings.TrimSpace`.
use Prim.Native.String.{[], ◌∷◌}
use go_mcp_oauth_sdk.Prelude.{
  ℕ, zero, suc, ◌+◌, ◌-◌, Char, code, String, Bool, false, List, leb, ltb, if◌then◌else◌,
}
use go_mcp_oauth_sdk.Text.{is_space}

abbrev pub width : Char → ℕ
width c =
    if ltb (code c) 0x80
    then 1
    else if ltb (code c) 0x800
    then 2
    else if ltb (code c) 0x10000
    then 3
    else 4

-- `len(s)`
unfoldable pub byte_length : String → ℕ
byte_length [] = 0
byte_length (c ∷ s) = width c + byte_length s

-- A step of a `range` loop: a character, or a byte that is part of no character.
pub data Piece : Type 0 where
  char : Char → Piece
  broken : Piece

-- A Go string, valid UTF-8 or not.
abbrev pub Raw : Type 0
Raw = List Piece

unfoldable pub valid : String → Raw
valid [] = List.[]
valid (c ∷ s) = List.◌∷◌ (char c) (valid s)

abbrev pub piece_width : Piece → ℕ
piece_width (char c) = width c
piece_width broken = 1

-- U+FFFD, which the loop has in place of a broken byte.
abbrev pub rune : Piece → Char
rune (char c) = c
rune broken = "�"

abbrev pub is_white : Piece → Bool
is_white (char c) = is_space c
is_white broken = false

unfoldable pub raw_length : Raw → ℕ
raw_length List.[] = 0
raw_length (List.◌∷◌ p s) = piece_width p + raw_length s

abbrev pub broken_bytes : ℕ → Raw
broken_bytes zero = List.[]
broken_bytes (suc n) = List.◌∷◌ broken (broken_bytes n)

-- `s[:n]`, where `s` has at least `n` bytes: the bytes of a character that is cut in two are each
-- part of no character.
unfoldable pub cut_raw : ℕ → Raw → Raw
cut_raw n List.[] = List.[]
cut_raw n (List.◌∷◌ p s) =
    let rest = cut_raw (n - piece_width p) s in
    if leb (piece_width p) n then List.◌∷◌ p rest else broken_bytes n

-- `strings.TrimSpace`
unfoldable pub drop_white : Raw → Raw
drop_white List.[] = List.[]
drop_white (List.◌∷◌ p s) = let rest = drop_white s in if is_white p then rest else List.◌∷◌ p s

abbrev pub keep_piece : Piece → Raw → Raw
keep_piece p List.[] = if is_white p then List.[] else List.◌∷◌ p List.[]
keep_piece p (List.◌∷◌ q s) = List.◌∷◌ p (List.◌∷◌ q s)

unfoldable pub drop_trailing : Raw → Raw
drop_trailing List.[] = List.[]
drop_trailing (List.◌∷◌ p s) = keep_piece p (drop_trailing s)

unfoldable pub trim_raw : Raw → Raw
trim_raw s = drop_trailing (drop_white s)
