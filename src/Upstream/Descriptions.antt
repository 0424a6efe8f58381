-- ===== src/Upstream/Descriptions.antt =====
-- What an error description becomes before the broker shows it.
use mathlib.Core.Bool.{false≢true}
use Prim.Native.String.{◌++◌}
use text.Mathlib.TextLemmas.{nil-append, cons-append}
use go_mcp_oauth_sdk.Prelude.{
  ℕ, zero, suc, ◌+◌, ◌-◌, ◌*◌, ◌≤◌, code, String, ◌≡◌, ◌≢◌, ◌↔◌, ◌⊎◌, refl, ap, ◌∙◌, true, false,
  [], ◌∷◌, All, inl, inr, arith, ltb, is_empty, Bool-cases,
}
use go_mcp_oauth_sdk.Text.Bytes.{
  width, piece_width, byte_length, Piece, char, broken, Raw, valid, rune, is_white, raw_length,
  broken_bytes, cut_raw, drop_white, keep_piece, drop_trailing, trim_raw,
}
use go_mcp_oauth_sdk.Upstream.{is_line_space, is_control, clean, cap, sanitize_error_desc}

-- No character is a control character of ASCII.
abbrev pub IsPrintable : String → Type 0
IsPrintable String.[] = Unit
IsPrintable (String.◌∷◌ c s) = (0x20 ≤ code c) × (code c ≢ 0x7f) × IsPrintable s

-- the bytes that are part of no character
abbrev pub broken_count : Raw → ℕ
broken_count [] = 0
broken_count (char c ∷ s) = broken_count s
broken_count (broken ∷ s) = suc (broken_count s)

abbrev pub IsBlank : Raw → Type 0
IsBlank = All (λ p. is_white p ≡ true)

clean-IsPrintable : (s : Raw) → IsPrintable (clean s)
unfolding clean is_control
clean-IsPrintable [] = tt
clean-IsPrintable (p ∷ s) = elim (Bool-cases (is_line_space (rune p))) [
  | inl b ↦ rw b (omega arith, (λ e. omega arith), clean-IsPrintable s)
  | inr b ↦ elim (Bool-cases (is_control (rune p))) [
    | inl x ↦ rw (b, x) (clean-IsPrintable s)
    | inr x ↦ rw (b, x) (ground (arith, x), (λ e. ground (arith, x)), clean-IsPrintable s)
  ]
]

-- A broken byte becomes three bytes.
byte_length-clean : (s : Raw) → byte_length (clean s) ≤ raw_length s + 2 * broken_count s
unfolding clean byte_length raw_length is_line_space is_control
byte_length-clean [] = omega arith
byte_length-clean (char c ∷ s) = ground (arith, byte_length-clean s)
byte_length-clean (broken ∷ s) = ground (arith, byte_length-clean s)

broken_count-le : (s : Raw) → broken_count s ≤ raw_length s
unfolding raw_length
broken_count-le [] = omega arith
broken_count-le (char c ∷ s) = ground (arith, broken_count-le s)
broken_count-le (broken ∷ s) = ground (arith, broken_count-le s)

broken_bytes_lem : (n : ℕ) → (raw_length (broken_bytes n) ≡ n) × (broken_count (broken_bytes n) ≡ n)
unfolding raw_length
broken_bytes_lem zero = (refl, refl)
broken_bytes_lem (suc n) = let (a, b) = broken_bytes_lem n in (omega arith, omega arith)

raw_length-cut : (n : ℕ) (s : Raw) → raw_length (cut_raw n s) ≤ n
unfolding cut_raw raw_length
raw_length-cut n [] = omega arith
raw_length-cut n (p ∷ s) = ground (arith, raw_length-cut (n - piece_width p) s, broken_bytes_lem n)

-- A cut breaks one character at most, whose bytes that are left are three at most.
broken_count-cut : (n : ℕ) (s : Raw) → broken_count (cut_raw n s) ≤ broken_count s + 3
unfolding cut_raw
broken_count-cut n [] = omega arith
broken_count-cut n (char c ∷ s) =
    ground (arith, broken_count-cut (n - width c) s, broken_bytes_lem n)
broken_count-cut n (broken ∷ s) = ground (arith, broken_count-cut (n - 1) s, broken_bytes_lem n)

cap_lem : (s : Raw) → (raw_length (cap s) ≤ 120) × (broken_count (cap s) ≤ broken_count s + 3)
unfolding cap
cap_lem s = ground (arith, raw_length-cut 120 s, broken_count-cut 120 s)

-- Trimming adds no broken bytes, and leaves nothing of blank strings only.
broken_count-drop_white : (s : Raw) → broken_count (drop_white s) ≤ broken_count s
unfolding drop_white
broken_count-drop_white [] = omega arith
broken_count-drop_white (char c ∷ s) = ground (arith, broken_count-drop_white s)
broken_count-drop_white (broken ∷ s) = omega arith

broken_count-keep : (p : Piece) (s : Raw) → broken_count (keep_piece p s) ≤ broken_count (p ∷ s)
broken_count-keep p (q ∷ s) = omega arith
broken_count-keep (char c) [] = ground arith
broken_count-keep broken [] = omega arith

broken_count-drop_trailing : (s : Raw) → broken_count (drop_trailing s) ≤ broken_count s
unfolding drop_trailing
broken_count-drop_trailing [] = omega arith
broken_count-drop_trailing (char c ∷ s) =
    omega (arith, broken_count-keep (char c) (drop_trailing s), broken_count-drop_trailing s)
broken_count-drop_trailing (broken ∷ s) =
    omega (arith, broken_count-keep broken (drop_trailing s), broken_count-drop_trailing s)

broken_count-trim : (s : Raw) → broken_count (trim_raw s) ≤ broken_count s
unfolding trim_raw
broken_count-trim s =
    omega (arith, broken_count-drop_trailing (drop_white s), broken_count-drop_white s)

keep_solid : (p : Piece) (s : Raw) → is_white p ≡ false → keep_piece p s ≢ []
keep_solid p [] solid e = ground arith
keep_solid p (q ∷ s) solid e = cc

trim_raw_iff : (s : Raw) → (trim_raw s ≡ []) ↔ IsBlank s
unfolding trim_raw drop_white drop_trailing
trim_raw_iff [] = ((λ e. tt), λ b. refl)
trim_raw_iff (p ∷ s) = elim (Bool-cases (is_white p)) [
  | inl white ↦ let ih = trim_raw_iff s in rw white ((λ e. (refl, ih.0 e)), λ b. ih.1 b.1)
  | inr solid ↦
      rw solid
        ((λ e. absurd (keep_solid p (drop_trailing s) solid e)), λ b. absurd (false≢true b.0))
]

-- The separator in front: two printable bytes.
colon : (s : String) → ": " ++ s ≡ String.◌∷◌ ":" (String.◌∷◌ " " s)
colon s =
    cons-append ":" " " s
    ∙ ap (λ r. String.◌∷◌ ":" r)
        (cons-append " " String.[] s ∙ ap (λ r. String.◌∷◌ " " r) (nil-append s))

byte_length-colon : (s : String) → byte_length (": " ++ s) ≡ 2 + byte_length s
unfolding byte_length
byte_length-colon s = rw (colon s) (omega arith)

colon-IsPrintable : (s : String) → IsPrintable s → IsPrintable (": " ++ s)
colon-IsPrintable s h =
    rw (colon s) (omega arith, (λ e. omega arith), (omega arith, (λ e. omega arith), h))

colon-ne-nil : (s : String) → ": " ++ s ≢ ""
unfolding byte_length
colon-ne-nil s e = ground (arith, byte_length-colon s, ap byte_length e)

is_empty-cases : (s : Raw) → ((s ≡ []) × (is_empty s ≡ true)) ⊎ ((s ≢ []) × (is_empty s ≡ false))
is_empty-cases [] = inl (refl, refl)
is_empty-cases (p ∷ s) = inr ((λ e. cc), refl)

-- A description, which may be any bytes, becomes "" exactly if it is white space only. What it
-- becomes has no control character of ASCII, at most 128 bytes and two more for each byte that is
-- part of no UTF-8 character, and at most 362 bytes in any case.
pub sanitize_error_desc-IsPrintable :
    (s : Raw)
    → ((sanitize_error_desc s ≡ "") ↔ IsBlank s)
      × IsPrintable (sanitize_error_desc s)
      × (byte_length (sanitize_error_desc s) ≤ 128 + 2 * broken_count s)
      × (byte_length (sanitize_error_desc s) ≤ 362)
unfolding sanitize_error_desc byte_length
sanitize_error_desc-IsPrintable s =
    let blank = trim_raw_iff s in
    elim (is_empty-cases (trim_raw s)) [
      | inl (e, t) ↦
          rw (sanitize_error_desc, t) (((λ _. blank.0 e), λ _. refl), tt, omega arith, omega arith)
      | inr (ne, t) ↦
          let r = cap (trim_raw s) in
          let (short, few) = cap_lem (trim_raw s) in
          let trimmed = broken_count-trim s in
          let cleaned = byte_length-clean r in
          let at_most = broken_count-le r in
          let front = byte_length-colon (clean r) in
          rw (sanitize_error_desc, t)
            (
              ((λ e. absurd (colon-ne-nil _ e)), λ b. absurd (ne (blank.1 b))),
              colon-IsPrintable _ (clean-IsPrintable r),
              omega arith,
              omega arith,
            )
    ]

-- The text of valid characters.
clean-valid : (t : String) → IsPrintable t → clean (valid t) ≡ t
unfolding clean valid is_line_space is_control
clean-valid String.[] h = refl
clean-valid (String.◌∷◌ c t) (low, no_delete, rest) =
    ground (arith, clean-valid t rest, low, no_delete)

raw_length-valid : (t : String) → raw_length (valid t) ≡ byte_length t
unfolding raw_length valid byte_length
raw_length-valid String.[] = refl
raw_length-valid (String.◌∷◌ c t) = omega (arith, raw_length-valid t)

not_empty : (t : String) → t ≢ "" → is_empty (valid t) ≡ false
unfolding valid
not_empty String.[] ne = absurd (ne refl)
not_empty (String.◌∷◌ c t) ne = refl

-- A description that is a printable text of one to 120 bytes, but for white space around it, is kept
-- as it is, after ": ".
pub sanitize_error_desc_of_IsPrintable :
    (s : Raw) (t : String)
    → trim_raw s ≡ valid t
    → t ≢ ""
    → IsPrintable t
    → byte_length t ≤ 120
    → sanitize_error_desc s ≡ ": " ++ t
unfolding sanitize_error_desc cap
sanitize_error_desc_of_IsPrintable s t trimmed ne h short =
    let none_cut : ltb 120 (raw_length (valid t)) ≡ false = ground (arith, raw_length-valid t) in
    rw (sanitize_error_desc, trimmed, not_empty t ne, cap, none_cut, clean-valid t h) refl
