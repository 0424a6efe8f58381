-- ===== src/Validator/Times.antt =====
-- The checks of `ValidateClaims`, in exact arithmetic.
use go_mcp_oauth_sdk.Prelude.{
  ◌+◌, ◌^◌, ◌≤◌, ◌<◌, String, ◌≡◌, ◌≢◌, ◌↔◌, true, none, some, List, [], ◌∷◌, arith, eq_iff, Any,
  All, In, is_empty,
}
use go_mcp_oauth_sdk.Prelude.Int.{ℤ, pos, pos_part, neg_part, ◌+ℤ◌, ◌≤ℤ◌, ◌<ℤ◌, wrap64, wrap64_self}
use go_mcp_oauth_sdk.Errors.{sentinel, token_expired}
use go_mcp_oauth_sdk.Config.{OauthConfig}
use go_mcp_oauth_sdk.Claims.{Claims}
use go_mcp_oauth_sdk.Policy.{clock_skew_secs}
use go_mcp_oauth_sdk.Policy.Scopes.{has_required_scopes_iff}
use go_mcp_oauth_sdk.Verifier.{LogEntry, time_field}
use go_mcp_oauth_sdk.Jwt.{comparable}
use go_mcp_oauth_sdk.Jwt.Audience.{audience_matches_resource_iff}
use go_mcp_oauth_sdk.Validator.{audience_rejection, time_rejection, scope_rejection, error_entry}

-- Adding the clock skew to such a time does not overflow.
abbrev pub HasRoom : ℤ → Type 0
HasRoom a = (pos_part a + 60 < 2 ^ 63) × (neg_part a ≤ 2 ^ 63)

-- A time that is set holds the property; one that is 0 or negative counts as not set.
abbrev pub IfSet : (ℤ → Type 0) → ℤ → Type 0
IfSet P a = pos 0 <ℤ a → P a

pub record InTime (now : ℤ) (claims : Claims) : Type 0 where
  pub expiry : IfSet (λ exp. now ≤ℤ exp +ℤ clock_skew_secs) claims.expires_at
  pub not_before : IfSet (λ nbf. nbf ≤ℤ now +ℤ clock_skew_secs) claims.not_before
  pub issued_at : IfSet (λ iat. iat ≤ℤ now +ℤ clock_skew_secs) claims.issued_at

skewed : (a : ℤ) → HasRoom a → wrap64 (a +ℤ clock_skew_secs) ≡ a +ℤ clock_skew_secs
unfolding ◌+ℤ◌
skewed a h =
    wrap64_self (a +ℤ clock_skew_secs)
      (record { above = ground (arith, h); below = ground (arith, h) })

module _ (now : ℤ) (claims : Claims) (room : HasRoom now)
    (exp_room : HasRoom claims.expires_at) where
  -- Where the sums do not overflow, `ValidateClaims` finds no fault with the times of a token
  -- exactly when exp, if it is positive, is at most sixty seconds ago, and nbf and iat, each if it
  -- is positive, are at most sixty seconds ahead.
  pub time_rejection_iff : (time_rejection now claims ≡ none) ↔ InTime now claims
  unfolding time_rejection
  time_rejection_iff =
      rw (skewed now room, skewed claims.expires_at exp_room, time_rejection)
        (
          (λ h. record {
            expiry = ground (arith, h);
            not_before = ground (arith, h);
            issued_at = ground (arith, h);
          }),
          λ h. ground (arith, h.expiry, h.not_before, h.issued_at),
        )

  -- Where the sums do not overflow, the error is `ErrTokenExpired` exactly when exp is positive and
  -- more than sixty seconds ago.
  pub time_rejection-expired_iff :
      ((entry : LogEntry) × (time_rejection now claims ≡ some (entry, sentinel token_expired)))
      ↔ ((pos 0 <ℤ claims.expires_at) × (claims.expires_at +ℤ clock_skew_secs <ℤ now))
  unfolding time_rejection
  time_rejection-expired_iff =
      rw (skewed now room, skewed claims.expires_at exp_room, time_rejection)
        (
          (λ (entry, h). ground (arith, h)),
          λ h. (
            error_entry (time_field "exp" claims.expires_at ∷ []) "OAuth token expired",
            ground (arith, h),
          ),
        )

empty-none :
    (audience : List String) (expected : String)
    → is_empty audience ≡ true
    → ¬ Any (λ a. comparable a ≡ comparable expected) audience
empty-none [] expected h m = elim m [ ]
empty-none (a ∷ audience) expected h m = cc

-- `ValidateClaims` finds no fault with the audience exactly when none is configured, or when some
-- audience of the token is the configured one up to white space and trailing slashes.
pub audience_rejection_iff :
    (cfg : OauthConfig) (claims : Claims)
    → (audience_rejection cfg claims ≡ none)
      ↔ (cfg.audience ≢ "" → Any (λ a. comparable a ≡ comparable cfg.audience) claims.audience)
unfolding audience_rejection
audience_rejection_iff cfg claims = ground (
  arith,
  eq_iff cfg.audience "",
  empty-none claims.audience cfg.audience,
  audience_matches_resource_iff claims.audience cfg.audience,
)

scopes_empty :
    (scopes required : List String) → is_empty required ≡ true → All (λ s. In s scopes) required
scopes_empty scopes [] h = tt
scopes_empty scopes (r ∷ required) h = cc

-- It finds no fault with the scopes exactly when the token has every required one.
pub scope_rejection_iff :
    (cfg : OauthConfig) (claims : Claims)
    → (scope_rejection cfg claims ≡ none) ↔ All (λ s. In s claims.scopes) cfg.required_scopes
unfolding scope_rejection
scope_rejection_iff cfg claims = ground (
  arith,
  scopes_empty claims.scopes cfg.required_scopes,
  has_required_scopes_iff claims.scopes cfg.required_scopes,
)
