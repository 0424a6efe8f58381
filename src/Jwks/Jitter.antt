-- ===== src/Jwks/Jitter.antt =====
-- The jitter of a cache deadline stays within a tenth of the time to live.
use go_mcp_oauth_sdk.Prelude.{ℕ, ◌+◌, ◌-◌, ◌*◌, ◌/◌, ◌^◌, ◌≤◌, ◌<◌, ◌≡◌, ap, ◌∙◌, arith}
use go_mcp_oauth_sdk.Prelude.Int.{pos, sub_ℕ, ◌+ℤ◌, wrap64, wrap64_self}
use go_mcp_oauth_sdk.Jwks.{add_time, jittered_expiry}

add_difference : (a b c : ℕ) → c ≤ a + b → pos a +ℤ sub_ℕ b c ≡ pos (a + b - c)
unfolding ◌+ℤ◌
add_difference a b c h = ground arith

add_time_pos : (t n : ℕ) → add_time t (pos n) ≡ t + n
unfolding add_time ◌+ℤ◌
add_time_pos t n = ground arith

-- The sum in the middle: it is exact, and lies between nine tenths and eleven tenths.
jitter_sum :
    (ttl r : ℕ)
    → r < ttl / 5
    → ttl ≤ 2 ^ 62
    → wrap64 (pos ttl +ℤ sub_ℕ r (ttl / 10)) ≡ pos (ttl + r - ttl / 10)
jitter_sum ttl r h bound =
    ap wrap64 (add_difference ttl r (ttl / 10) (omega arith))
    ∙ wrap64_self (pos (ttl + r - ttl / 10)) (record { above = omega arith; below = omega arith })

-- For a positive ttl of at most 2 ^ 62 ns, and whatever number below its bound is drawn, the
-- deadline lies at least nine tenths and at most eleven tenths of the ttl after `now`.
pub jittered_expiry_bounds :
    (rand : ℕ → ℕ) (now ttl : ℕ)
    → (0 < ttl / 5 → rand (ttl / 5) < ttl / 5)
    → 0 < ttl
    → ttl ≤ 2 ^ 62
    → (10 * now + 9 * ttl ≤ 10 * jittered_expiry rand now (pos ttl))
      × (10 * jittered_expiry rand now (pos ttl) ≤ 10 * now + 11 * ttl)
unfolding jittered_expiry
jittered_expiry_bounds rand now ttl h pos_ttl bound = ground (
  arith,
  add_time_pos now ttl,
  add_time_pos now (ttl + rand (ttl / 5) - ttl / 10),
  jitter_sum ttl (rand (ttl / 5)),
)
