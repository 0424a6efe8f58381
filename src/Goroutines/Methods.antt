-- ===== src/Goroutines/Methods.antt =====
-- The exported methods with no other goroutine in between.
use mathlib.Core.Path.{fun_ext}
use go_mcp_oauth_sdk.Prelude.{String, ◌≡◌, refl, ◌∙◌, ap, ◌&&◌, List, inl, inr, Bool-cases, ◌==◌}
use go_mcp_oauth_sdk.Text.{trim_space}
use go_mcp_oauth_sdk.Errors.{Result, ok, err}
use go_mcp_oauth_sdk.Claims.{Claims}
use go_mcp_oauth_sdk.Env.{Env}
use go_mcp_oauth_sdk.Verifier.{System, Action, log, ◌>>=◌}
use go_mcp_oauth_sdk.Jwt.{
  looks_like_jwt, unwrap_header_error, parse_and_fetch_keys, parse_and_verify_external_jwt,
  unwrapped,
}
use go_mcp_oauth_sdk.Strict.{
  StrictJwtPolicy, strict_error, reclassified, validate_strict_parsed, validate_strict_jwt,
}
use go_mcp_oauth_sdk.Validator.{
  validate_claims, logged, validate_jwt, validate_token, validate_upstream_identity_token,
}
use go_mcp_oauth_sdk.Program.{finished, run, after, atomic, ◌>>=◌ as then}
use go_mcp_oauth_sdk.Program.Laws.{then_run, run-after, run-bind, run-atomic, run-finished, run-if}
use go_mcp_oauth_sdk.Parallel.Runs.{config_first, run-fetch_meta, run-parse_and_fetch}
use go_mcp_oauth_sdk.Goroutines.{program, respond}
use go_mcp_oauth_sdk.Api.{Request, fetch_metadata, validate, validate_identity, validate_strict}
use go_mcp_oauth_sdk.Parallel.{
  map_error, parse_and_fetch_program, external_program, claims_program, logged_after, jwt_program,
  token_program_with, token_program, strict_parsed_program, strict_program,
}

bind_same :
    {Key A B : Type 0} {m n : Action Key A} (next : A → Action Key B)
    → m ≡ n
    → (m >>= next) ≡ (n >>= next)
bind_same next e = ap (λ m. m >>= next) e

module _ {Key Token : Type 0} (env : Env Key Token) where
  unwrapped-run :
      (token : String)
      → run (
          after
            (parse_and_fetch_program env token)
            (λ r. finished (map_error (unwrap_header_error env) r)))
        ≡ (λ s. unwrapped env (parse_and_fetch_keys env token s))
  unfolding run
  unwrapped-run token = fun_ext λ s.
      run-after (parse_and_fetch_program env token) _ s
      ∙ at_result (run (parse_and_fetch_program env token) s)
      ∙ ap (λ m. unwrapped env (m s)) (run-parse_and_fetch env token)
    where
      at_result :
          (x : Result (Token × List Key) × System Key)
          → then_run x (λ r. finished (map_error (unwrap_header_error env) r)) ≡ unwrapped env x
      at_result (ok a, s) = refl
      at_result (err e, s) = refl

  reclassified-run :
      (token : String)
      → run (
          after
            (parse_and_fetch_program env token)
            (λ r. finished (map_error (strict_error env) r)))
        ≡ (λ s. reclassified env (parse_and_fetch_keys env token s))
  unfolding run
  reclassified-run token = fun_ext λ s.
      run-after (parse_and_fetch_program env token) _ s
      ∙ at_result (run (parse_and_fetch_program env token) s)
      ∙ ap (λ m. reclassified env (m s)) (run-parse_and_fetch env token)
    where
      at_result :
          (x : Result (Token × List Key) × System Key)
          → then_run x (λ r. finished (map_error (strict_error env) r)) ≡ reclassified env x
      at_result (ok a, s) = refl
      at_result (err e, s) = refl

  pub run-external :
      (token expected : String)
      → run (external_program env token expected) ≡ parse_and_verify_external_jwt env token expected
  unfolding external_program parse_and_verify_external_jwt
  run-external token expected =
      simp (run-bind, run-atomic, run-finished, config_first env)
        (bind_same _ (unwrapped-run token))

  run-claims : (claims : Claims) → run (claims_program env claims) ≡ validate_claims env claims
  unfolding claims_program validate_claims
  run-claims claims = simp (run-bind, run-atomic, run-finished) (config_first env _)

  logged-run :
      (token expected : String)
      → run (logged_after env (external_program env token expected))
        ≡ (λ s. logged env (parse_and_verify_external_jwt env token expected s))
  unfolding logged_after run atomic
  logged-run token expected = fun_ext λ s.
      run-after (external_program env token expected) _ s
      ∙ ap (λ m. logged env (m s)) (run-external token expected)

  run-strict_parsed :
      (token : String) (policy : StrictJwtPolicy)
      → run (strict_parsed_program env token policy) ≡ validate_strict_parsed env token policy
  unfolding strict_parsed_program validate_strict_parsed
  run-strict_parsed token policy =
      simp (run-bind, run-atomic, run-finished) (bind_same _ (reclassified-run token))

  pub run-strict :
      (token : String) (policy : StrictJwtPolicy)
      → run (strict_program env token policy) ≡ validate_strict_jwt env token policy
  unfolding strict_program validate_strict_jwt
  run-strict token policy = simp (run-if, run-finished, run-strict_parsed)

  run-jwt : (token : String) → run (jwt_program env token) ≡ validate_jwt env token
  unfolding jwt_program validate_jwt
  run-jwt token =
      simp (run-bind, run-atomic, run-finished, logged-run, run-claims) (config_first env _)

  jwt_at :
      (token : String) (s : System Key) → run (jwt_program env token) s ≡ validate_jwt env token s
  jwt_at token s = ap (λ m. m s) (run-jwt token)

  run-token : (token : String) → run (token_program env token) ≡ validate_token env token
  unfolding token_program token_program_with validate_token run then after atomic ◌>>=◌ log
  run-token token = fun_ext λ s.
      let cfg = s.verifier.cfg in
      elim (Bool-cases cfg.enabled) [
        | inr off ↦ rw (off, run, validate_token) refl
        | inl on ↦ elim (Bool-cases (token == "")) [
          | inl e ↦ rw (on, e, run, validate_token) refl
          | inr e ↦ elim (Bool-cases (looks_like_jwt token)) [
            | inr o ↦ elim (Bool-cases cfg.strict_jwt_only) [
              | inl k ↦ rw (on, e, o, k, run, validate_token) refl
              | inr k ↦ rw (on, e, o, k, run, validate_token) refl
            ]
            | inl j ↦
                elim (Bool-cases (trim_space cfg.jwks_url == "" && trim_space cfg.issuer == "")) [
                  | inl k ↦ rw (on, e, j, k, run, validate_token) refl
                  | inr k ↦ rw (on, e, j, k, run, validate_token) (jwt_at token _)
                ]
          ]
        ]
      ]

  -- The program of a call, with no other goroutine in between, is the method.
  pub run-program : (r : Request) → run (program env r) ≡ respond env r
  unfolding program respond validate_upstream_identity_token
  run-program (fetch_metadata issuer) =
      simp (run-bind, run-finished) (bind_same _ (run-fetch_meta env issuer))
  run-program (validate token) = simp (run-bind, run-finished) (bind_same _ (run-token token))
  run-program (validate_identity token audience) =
      simp (run-bind, run-finished) (bind_same _ (run-external token audience))
  run-program (validate_strict token policy) =
      simp (run-bind, run-finished) (bind_same _ (run-strict token policy))
