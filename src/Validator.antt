-- ===== src/Validator.antt =====
-- oauth/validator.go: the legacy validation, which passes opaque tokens on to ClickHouse.
pub mod Kept
pub mod Times
pub mod Soft
pub mod Logs
pub mod Run
pub mod Vouched
use go_mcp_oauth_sdk.Prelude.{
  ℕ, ◌+◌, String, Bool, true, false, not, ◌&&◌, ◌||◌, Option, none, some, List, [], ◌∷◌, ◌==◌,
  if◌then◌else◌, is_empty, length,
}
use go_mcp_oauth_sdk.Prelude.Int.{ℤ, pos, ◌+ℤ◌, ltb_ℤ, wrap64}
use go_mcp_oauth_sdk.Text.{trim_space, has_prefix}
use go_mcp_oauth_sdk.Errors.{
  Failure, sentinel, text, is, is_kid_not_found, missing_token, invalid_token, token_expired,
  insufficient_scopes, transient, Result, ok, err,
}
use go_mcp_oauth_sdk.Config.{OauthConfig}
use go_mcp_oauth_sdk.Claims.{Claims}
use go_mcp_oauth_sdk.Policy.{has_required_scopes, clock_skew_secs}
use go_mcp_oauth_sdk.Env.{Env}
use go_mcp_oauth_sdk.Verifier.{
  Verifier, System, Action, Level, debug, error, LogField, LogEntry, text_field, texts_field,
  count_field, time_field, error_field, log, pure, lift, fail, get_verifier, ◌>>=◌, ◌>>◌,
}
use go_mcp_oauth_sdk.Jwks.{time_now}
use go_mcp_oauth_sdk.Jwt.{
  looks_like_jwt, audience_matches_resource, parse_and_verify_external_jwt, jwt_parse_failed_prefix,
  jwt_missing_header_text,
}
use go_mcp_oauth_sdk.Strict.{unix}

unfoldable pub requires_local_validation : {Key : Type 0} → Verifier Key → Bool
requires_local_validation v = v.cfg.enabled

unfoldable pub legacy_validation_error_class : Failure → String
legacy_validation_error_class e =
    if is invalid_token e
    then "ErrInvalidToken"
    else if is token_expired e
    then "ErrTokenExpired"
    else if is insufficient_scopes e
    then "ErrInsufficientScopes"
    else if is missing_token e
    then "ErrMissingToken"
    else "unclassified"

abbrev pub error_entry : List LogField → String → LogEntry
error_entry fields message = record { level = error; fields = fields; message = message }

-- The entry that `logLegacyValidationFailure` writes.
unfoldable pub legacy_failure_entry : Failure → LogEntry
unfolding legacy_validation_error_class
legacy_failure_entry e =
    if has_prefix (text e) jwt_parse_failed_prefix || text e == jwt_missing_header_text
    then error_entry [] "Failed to validate OAuth token: jwt header rejected"
    else if is_kid_not_found e
    then error_entry [] "Failed to validate OAuth token: no JWK for token key id"
    else if is transient e
    then error_entry (error_field e ∷ []) "Failed to validate OAuth token"
    else error_entry (text_field "class" (legacy_validation_error_class e) ∷ [])
        "Failed to validate OAuth token: token validation failed"

-- One failed check: what is logged, and the error.
abbrev pub Rejection : Type 0
Rejection = LogEntry × Failure

unfoldable pub audience_rejection : OauthConfig → Claims → Option Rejection
audience_rejection cfg claims =
    if cfg.audience == ""
    then none
    else if is_empty claims.audience
    then some (
      error_entry (text_field "expected" cfg.audience ∷ []) "OAuth token missing audience claim",
      sentinel invalid_token,
    )
    else if not (audience_matches_resource claims.audience cfg.audience)
    then some (
      error_entry
          (text_field "expected" cfg.audience
            ∷ (count_field "got_count" (length claims.audience) ∷ []))
          "OAuth token audience mismatch",
      sentinel invalid_token,
    )
    else none

-- `now` is in seconds; the sums are those of int64.
unfoldable pub time_rejection : ℤ → Claims → Option Rejection
time_rejection now claims =
    if ltb_ℤ (pos 0) claims.expires_at && ltb_ℤ (wrap64 (claims.expires_at +ℤ clock_skew_secs)) now
    then some (
      error_entry (time_field "exp" claims.expires_at ∷ []) "OAuth token expired",
      sentinel token_expired,
    )
    else if ltb_ℤ (pos 0) claims.not_before
        && ltb_ℤ (wrap64 (now +ℤ clock_skew_secs)) claims.not_before
    then some (
      error_entry (time_field "nbf" claims.not_before ∷ []) "OAuth token not yet valid",
      sentinel invalid_token,
    )
    else if ltb_ℤ (pos 0) claims.issued_at
        && ltb_ℤ (wrap64 (now +ℤ clock_skew_secs)) claims.issued_at
    then some (
      error_entry (time_field "iat" claims.issued_at ∷ []) "OAuth token issued in the future",
      sentinel invalid_token,
    )
    else none

unfoldable pub scope_rejection : OauthConfig → Claims → Option Rejection
scope_rejection cfg claims =
    if is_empty cfg.required_scopes
    then none
    else if not (has_required_scopes claims.scopes cfg.required_scopes)
    then some (
      error_entry
          (texts_field "required" cfg.required_scopes
            ∷ (count_field "got_count" (length claims.scopes) ∷ []))
          "OAuth token missing required scopes",
      sentinel insufficient_scopes,
    )
    else none

-- Log a rejection and return its error, or go on.
unfoldable pub enforce : {Key : Type 0} → Option Rejection → Action Key (Unit {0})
enforce none s = (ok tt, s)
enforce (some (entry, e)) s = (err e, record s { logs = entry ∷ s.logs })

module _ {Key Token : Type 0} (env : Env Key Token) where
  unfoldable pub validate_claims : Claims → Action Key Claims
  validate_claims claims = do
    v ← get_verifier
    enforce (audience_rejection v.cfg claims)
    now ← time_now env
    enforce (time_rejection (unix now) claims)
    enforce (scope_rejection v.cfg claims)
    pure claims

  abbrev pub logged : Result Claims × System Key → Result Claims × System Key
  logged (ok claims, s) = (ok claims, s)
  logged (err e, s) = (err e, record s { logs = legacy_failure_entry e ∷ s.logs })

  -- the last part of `ValidateToken`
  unfoldable pub validate_jwt : String → Action Key (Option Claims)
  validate_jwt token = do
    v ← get_verifier
    claims ← λ s. logged (parse_and_verify_external_jwt env token v.cfg.audience s)
    validated ← validate_claims claims
    pure (some validated)

  -- `none` is the soft pass, `(nil, nil)`.
  unfoldable pub validate_token : String → Action Key (Option Claims)
  validate_token token s =
      let cfg = s.verifier.cfg in
      (if not cfg.enabled
          then pure none
          else if token == ""
          then fail (sentinel missing_token)
          else if not (looks_like_jwt token)
          then (if cfg.strict_jwt_only
              then (log error [] "OAuth token is not a JWT; StrictJWTOnly rejects opaque bearers"
                  >> fail (sentinel invalid_token))
              else (log debug [] "Bearer is opaque (not a JWT); skipping local validation"
                  >> pure none))
          else if trim_space cfg.jwks_url == "" && trim_space cfg.issuer == ""
          then (log debug []
                "JWT received but neither oauth_issuer nor jwks_url is configured; skipping local validation"
              >> pure none)
          else validate_jwt token)
        s

  unfoldable pub validate_upstream_identity_token : String → String → Action Key Claims
  validate_upstream_identity_token token expected_audience =
      parse_and_verify_external_jwt env token expected_audience
