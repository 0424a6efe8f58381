-- ===== src/Tests/Pure.antt =====
-- Applications to plain values: claims, policies, audiences, headers and roles.
use Prim.Native.String
use go_mcp_oauth_sdk.Prelude.{
  ◌+◌, ◌*◌, ◌≤◌, String, ◌≡◌, ◌≢◌, ◌↔◌, refl, true, false, Option, none, some, List, [], ◌∷◌, inl,
  inr, arith, ◌==◌, eq_iff, if◌then◌else◌, Any, In, Distinct,
}
use go_mcp_oauth_sdk.Prelude.Collect.{Subsequence}
use go_mcp_oauth_sdk.Prelude.Perm.{swap}
use go_mcp_oauth_sdk.Prelude.Int.{ℤ, pos}
use go_mcp_oauth_sdk.Text.{trim_space}
use go_mcp_oauth_sdk.Errors.{ok, err, sentinel, email_claim_missing}
use go_mcp_oauth_sdk.Json.{Object, Value, IsMap, get, get_string, str, bool}
use go_mcp_oauth_sdk.Policy.{clock_skew_secs, has_required_scopes}
use go_mcp_oauth_sdk.Policy
use go_mcp_oauth_sdk.Claims.{Claims}
use go_mcp_oauth_sdk.Identity.{IdentityPolicy, validate_identity_claims}
use go_mcp_oauth_sdk.Identity.Laws.{
  Admits, answers, claims_required, HasNoEmail, validate_identity_claims_iff,
  validate_identity_claims_errors,
}
use go_mcp_oauth_sdk.Email.{EmailIdentity, resolve_email_identity}
use go_mcp_oauth_sdk.Email.Order.{resolve_email_identity_order}
use go_mcp_oauth_sdk.Roles.{roles_from_claim}
use go_mcp_oauth_sdk.Roles.Laws.{Granted, In-roles_from_claim_iff}
use go_mcp_oauth_sdk.Forward.{build_clickhouse_headers, header, extract_token_from_request}
use go_mcp_oauth_sdk.Forward.Laws.{extract_token-build_headers}
use go_mcp_oauth_sdk.Jwks.{jittered_expiry}
use go_mcp_oauth_sdk.Jwks.Jitter.{jittered_expiry_bounds}
use go_mcp_oauth_sdk.Strict.{validate_strict_raw_claims}
use go_mcp_oauth_sdk.Strict.Contract.{Meets, validate_strict_raw_claims_iff}
use go_mcp_oauth_sdk.Validator.{time_rejection}
use go_mcp_oauth_sdk.Validator.Times.{InTime, time_rejection_iff}
use go_mcp_oauth_sdk.Prelude.Collect.{texts}
use go_mcp_oauth_sdk.Config.{OauthConfig}
use go_mcp_oauth_sdk.Broker.{normalized_path, path_of, unique_paths}
use go_mcp_oauth_sdk.Broker.Laws.{unique_paths_lem}
use go_mcp_oauth_sdk.Tests.World.{platform, raw_claims, claims, config, policy}

distinct : {s t : String} → (s == t) ≡ false → s ≢ t
distinct {s = s} {t = t} h e = ground (arith, eq_iff s t)

abbrev now : ℤ
now = pos 1_764_403_200

validate_strict_raw_claims_iff_example :
    (validate_strict_raw_claims raw_claims policy now ≡ ok tt) ↔ Meets policy now raw_claims
validate_strict_raw_claims_iff_example =
    validate_strict_raw_claims_iff policy now raw_claims (omega arith, omega arith)
      (record { above = omega arith; below = omega arith })

time_rejection_iff_example : (time_rejection now claims ≡ none) ↔ InTime now claims
time_rejection_iff_example =
    time_rejection_iff now claims (omega arith, omega arith) (omega arith, omega arith)

jittered_expiry_bounds_example :
    (10 * 7 + 9 * 100 ≤ 10 * jittered_expiry (λ n. 19) 7 (pos 100))
    × (10 * jittered_expiry (λ n. 19) 7 (pos 100) ≤ 10 * 7 + 11 * 100)
jittered_expiry_bounds_example =
    jittered_expiry_bounds (λ n. 19) 7 100 (λ h. omega arith) (omega arith) (omega arith)

abbrev identity_policy : IdentityPolicy
identity_policy = record {
  require_email_verified = true;
  allowed_email_domains = "example.com" ∷ [];
  allowed_hosted_domains = [];
}

validate_identity_claims_iff_example :
    (validate_identity_claims platform (some claims) identity_policy ≡ ok tt)
    ↔ Admits platform identity_policy claims
validate_identity_claims_iff_example = validate_identity_claims_iff platform identity_policy claims

validate_identity_claims_errors_example :
    In (validate_identity_claims platform (some claims) identity_policy) answers
    × ((validate_identity_claims platform (some claims) identity_policy ≡ err claims_required)
        ↔ (◌≡◌ {A = Option Claims} (some claims) none))
    × ((validate_identity_claims platform (some claims) identity_policy
          ≡ err (sentinel email_claim_missing))
        ↔ ((identity_policy.allowed_email_domains ≢ []) × HasNoEmail (some claims)))
validate_identity_claims_errors_example =
    validate_identity_claims_errors platform identity_policy (some claims)

abbrev ann : EmailIdentity
ann = record { email = "ann@example.com"; email_verified = true }

abbrev two_claims : Claims
two_claims = record claims { extra = ("a", str "x") ∷ (("n/email", str "e@x.org") ∷ []) }

two_claims-IsMap : IsMap two_claims.extra
two_claims-IsMap =
    ((λ m. elim m [ inl h ↦ distinct refl h | inr h ↦ elim h [ ] ]), ((λ m. elim m [ ]), tt))

resolve_email_identity_order_example :
    resolve_email_identity
      (some (record two_claims { extra = ("n/email", str "e@x.org") ∷ (("a", str "x") ∷ []) }))
    ≡ resolve_email_identity (some two_claims)
resolve_email_identity_order_example =
    resolve_email_identity_order two_claims (("n/email", str "e@x.org") ∷ (("a", str "x") ∷ []))
      (swap ("a", str "x") ("n/email", str "e@x.org") []) two_claims-IsMap

In-roles_from_claim_iff_example :
    In "admin" (roles_from_claim (some claims) "roles" (some (λ r. true)))
    ↔ ((◌≢◌ {A = String} "roles" "") × Granted (λ r. true) "admin" (get claims.extra "roles"))
In-roles_from_claim_iff_example = In-roles_from_claim_iff claims "roles" (λ r. true) "admin"

extract_token-build_headers_example :
    extract_token_from_request (build_clickhouse_headers config " t")
    ≡ (if trim_space " t" == "" then "" else " t")
extract_token-build_headers_example = extract_token-build_headers config " t"

abbrev request : List (String × String)
request = ("Host", "h") ∷ (("Authorization", "Bearer t") ∷ [])

request_bearer : header request "Authorization" ≡ String.◌++◌ "Bearer " "t"
unfolding header
request_bearer = refl

no_email : trim_space claims.email ≡ ""
unfolding trim_space go_mcp_oauth_sdk.Text.trim_right go_mcp_oauth_sdk.Text.trim_left
no_email = refl

unique_paths_lem_example :
    ((r : String)
      → In r (unique_paths ("a/" ∷ ("/a" ∷ [])))
        ↔ Any (λ raw. (normalized_path raw "" ≡ r) × (r ≢ "")) ("a/" ∷ ("/a" ∷ [])))
    × Distinct (unique_paths ("a/" ∷ ("/a" ∷ [])))
    × Subsequence (unique_paths ("a/" ∷ ("/a" ∷ []))) (texts path_of ("a/" ∷ ("/a" ∷ [])))
unique_paths_lem_example = unique_paths_lem ("a/" ∷ ("/a" ∷ []))

abbrev scoped : OauthConfig
scoped = record config { scopes = "email" ∷ ("admin" ∷ []) }
