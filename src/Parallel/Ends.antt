-- ===== src/Parallel/Ends.antt =====
-- How many sections each method has at most.
use go_mcp_oauth_sdk.Prelude.{
  ℕ, ◌+◌, String, ◌==◌, not, ◌&&◌, Option, none, some, List, arith, is_empty,
}
use go_mcp_oauth_sdk.Text.{trim_space, trim_slashes}
use go_mcp_oauth_sdk.Prelude.Int.{pos, ltb_ℤ}
use go_mcp_oauth_sdk.Config.{OauthConfig}
use go_mcp_oauth_sdk.Claims.{Claims}
use go_mcp_oauth_sdk.Env.{AuthServerMeta, Env}
use go_mcp_oauth_sdk.Jwt.{looks_like_jwt}
use go_mcp_oauth_sdk.Strict.{StrictJwtPolicy, has_non_empty_expected_audience}
use go_mcp_oauth_sdk.Program.{Program}
use go_mcp_oauth_sdk.Program.Ends.{Ends, Ends-more, Ends-atomic, Ends-if, Ends-after, Ends-bind}
use go_mcp_oauth_sdk.Parallel.{
  with_outcome_after, use_cached_keys, fetch_keys_program, use_cached_meta, fetch_meta_program,
  resolve_with, refetch_program, candidates_program, parse_and_fetch_program, external_program,
  claims_program, logged_after, jwt_program, token_program_with, token_program,
  strict_parsed_program, strict_program,
}

module _ {Key Token : Type 0} (env : Env Key Token) where
  with_outcome-Ends :
      (n : ℕ) (p : Program Key (List Key)) → Ends n p → Ends (n + 1) (with_outcome_after env p)
  unfolding with_outcome_after
  with_outcome-Ends n p h = Ends-after n 1 p _ h (λ r. Ends-atomic _)

  use_cached_keys-Ends :
      (uri : String) (now : ℕ) (cached : Option (List Key))
      → Ends 4 (use_cached_keys env uri now cached)
  unfolding use_cached_keys
  use_cached_keys-Ends uri now (some keys) = tt
  use_cached_keys-Ends uri now none = Ends-bind 1 3 _ _ (Ends-atomic _) (λ _.
      with_outcome-Ends 2 _
        (Ends-bind 1 1 _ _ (Ends-atomic _) (λ keys. Ends-bind 1 0 _ _ (Ends-atomic _) (λ _. tt))))

  fetch_keys-Ends : (uri : String) → Ends 6 (fetch_keys_program env uri)
  unfolding fetch_keys_program
  fetch_keys-Ends uri =
      Ends-bind 1 5 _ _ (Ends-atomic _)
        (λ now. Ends-bind 1 4 _ _ (Ends-atomic _) (use_cached_keys-Ends uri now))

  use_cached_meta-Ends :
      (issuer : String) (cached : Option AuthServerMeta)
      → Ends 2 (use_cached_meta env issuer cached)
  unfolding use_cached_meta
  use_cached_meta-Ends issuer (some meta) = tt
  use_cached_meta-Ends issuer none =
      Ends-bind 1 1 _ _ (Ends-atomic _) (λ meta. Ends-bind 1 0 _ _ (Ends-atomic _) (λ _. tt))

  pub fetch_meta-Ends : (raw : String) → Ends 3 (fetch_meta_program env raw)
  unfolding fetch_meta_program
  fetch_meta-Ends raw =
      Ends-if 3 (trim_slashes (trim_space raw) == "") _ _ tt
        (Ends-bind 1 2 _ _ (Ends-atomic _) (use_cached_meta-Ends _))

  resolve-Ends : (cfg : OauthConfig) → Ends 3 (resolve_with env cfg)
  unfolding resolve_with
  resolve-Ends cfg = Ends-if 3 (not (trim_space cfg.jwks_url == "")) _ _ tt (
      Ends-if 3 (trim_space cfg.issuer == "") _ _ tt
        (Ends-bind 3 0 _ _ (fetch_meta-Ends (trim_space cfg.issuer)) (λ meta. tt)))

  refetch-Ends :
      (uri : String) (parsed : Token) (key_id : String)
      → Ends 8 (refetch_program env uri parsed key_id)
  unfolding refetch_program
  refetch-Ends uri parsed key_id =
      Ends-bind 1 7 _ _ (Ends-atomic _)
        (λ _. Ends-bind 6 1 _ _ (fetch_keys-Ends uri) (λ set. Ends-atomic _))

  candidates-Ends :
      (uri : String) (parsed : Token) (key_id : String) (set : List Key)
      → Ends 8 (candidates_program env uri parsed key_id set)
  unfolding candidates_program
  candidates-Ends uri parsed key_id set =
      Ends-if 8 (key_id == "") _ _ tt (
        Ends-if 8 (is_empty (env.jose.find_keys set key_id)) _ _ (refetch-Ends uri parsed key_id)
          tt)

  parse_and_fetch-Ends : (token : String) → Ends 18 (parse_and_fetch_program env token)
  unfolding parse_and_fetch_program
  parse_and_fetch-Ends token = Ends-bind 1 17 _ _ (Ends-atomic _) (λ cfg.
      Ends-bind 3 14 _ _ (resolve-Ends cfg) (λ uri.
        Ends-bind 0 14 _ _ tt
          (λ read. Ends-bind 6 8 _ _ (fetch_keys-Ends uri) (candidates-Ends uri read.0 read.1))))

  pub external-Ends : (token expected : String) → Ends 19 (external_program env token expected)
  unfolding external_program
  external-Ends token expected =
      Ends-bind 18 1 _ _ (Ends-after 18 0 _ _ (parse_and_fetch-Ends token) (λ r. tt))
        (λ found. Ends-bind 1 0 _ _ (Ends-atomic _) (λ cfg. tt))

  claims-Ends : (claims : Claims) → Ends 5 (claims_program env claims)
  unfolding claims_program
  claims-Ends claims = Ends-bind 1 4 _ _ (Ends-atomic _) (λ cfg.
      Ends-bind 1 3 _ _ (Ends-atomic _) (λ _. Ends-bind 1 2 _ _ (Ends-atomic _) (λ now.
        Ends-bind 1 1 _ _ (Ends-atomic _) (λ _. Ends-bind 1 0 _ _ (Ends-atomic _) (λ _. tt)))))

  logged-Ends : (n : ℕ) (p : Program Key Claims) → Ends n p → Ends (n + 1) (logged_after env p)
  unfolding logged_after
  logged-Ends n p h = Ends-after n 1 p _ h (λ r. Ends-atomic _)

  jwt-Ends : (token : String) → Ends 26 (jwt_program env token)
  unfolding jwt_program
  jwt-Ends token = Ends-bind 1 25 _ _ (Ends-atomic _) (λ cfg.
      Ends-bind 20 5 _ _ (logged-Ends 19 _ (external-Ends token cfg.audience))
        (λ claims. Ends-bind 5 0 _ _ (claims-Ends claims) (λ _. tt)))

  token_with-Ends :
      (cfg : OauthConfig) (token : String) → Ends 26 (token_program_with env cfg token)
  unfolding token_program_with
  token_with-Ends cfg token =
      let noted =
        λ (p : Program Key (Option Claims)) (h : Ends 1 p). Ends-more 1 26 p (omega arith) h in
      Ends-if 26 (not cfg.enabled) _ _ tt (
        Ends-if 26 (token == "") _ _ tt (
          Ends-if 26 (not (looks_like_jwt token)) _ _
            (Ends-if 26 cfg.strict_jwt_only _ _
              (noted _ (Ends-bind 1 0 _ _ (Ends-atomic _) (λ _. tt)))
              (noted _ (Ends-bind 1 0 _ _ (Ends-atomic _) (λ _. tt))))
            (Ends-if 26 (trim_space cfg.jwks_url == "" && trim_space cfg.issuer == "") _ _
              (noted _ (Ends-bind 1 0 _ _ (Ends-atomic _) (λ _. tt))) (jwt-Ends token))))

  pub token-Ends : (token : String) → Ends 27 (token_program env token)
  unfolding token_program
  token-Ends token = Ends-bind 1 26 _ _ (Ends-atomic _) (λ cfg. token_with-Ends cfg token)

  strict_parsed-Ends :
      (token : String) (policy : StrictJwtPolicy) → Ends 19 (strict_parsed_program env token policy)
  unfolding strict_parsed_program
  strict_parsed-Ends token policy =
      Ends-bind 18 1 _ _ (Ends-after 18 0 _ _ (parse_and_fetch-Ends token) (λ r. tt))
        (λ found. Ends-bind 1 0 _ _ (Ends-atomic _) (λ now. tt))

  pub strict-Ends :
      (token : String) (policy : StrictJwtPolicy) → Ends 19 (strict_program env token policy)
  unfolding strict_program
  strict-Ends token policy = Ends-if 19 (not (looks_like_jwt token)) _ _ tt (
      Ends-if 19 (not (has_non_empty_expected_audience policy.expected_audiences)) _ _ tt
        (Ends-if 19 (ltb_ℤ policy.leeway (pos 0)) _ _ tt (strict_parsed-Ends token policy)))
