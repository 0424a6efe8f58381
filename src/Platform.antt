-- ===== src/Platform.antt =====
-- What the SDK takes from the Go runtime and does not compute itself: Unicode's case tables, the
-- result of converting a float64 that no int64 holds, which the Go specification leaves to the
-- implementation, and the quoting of a text by `%q`.
use go_mcp_oauth_sdk.Prelude.{Char, String, ◌==◌, Bool, ◌||◌, if◌then◌else◌}
use go_mcp_oauth_sdk.Prelude.Int.{ℤ}
use go_mcp_oauth_sdk.Json.{Float64, below_int64, above_int64, truncate}
use go_mcp_oauth_sdk.Text.{map_chars}

pub record Platform : Type 0 where
  -- `unicode.ToLower`
  pub lower : Char → Char
  -- one member of each class of characters that `unicode.SimpleFold` joins
  pub fold : Char → Char
  -- `int64(x)` for an `x` out of range
  pub convert : Float64 → ℤ
  -- the verb `%q`
  pub quote : String → String

-- `strings.ToLower`, `strings.EqualFold` and the conversion `int64(x)`
unfoldable pub to_lower : Platform → String → String
to_lower p s = map_chars p.lower s

unfoldable pub equal_fold : Platform → String → String → Bool
equal_fold p s t = map_chars p.fold s == map_chars p.fold t

unfoldable pub to_int64 : Platform → Float64 → ℤ
to_int64 p x = if below_int64 x || above_int64 x then p.convert x else truncate x
