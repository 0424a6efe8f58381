-- ===== src/Parallel/Runs.antt =====
-- A program with no other goroutine in between is the sequential method.
use mathlib.Core.Path.{fun_ext}
use go_mcp_oauth_sdk.Prelude.{
  ℕ, String, ◌≡◌, refl, ◌∙◌, ap, not, ◌&&◌, none, some, List, inl, inr, Bool-cases, ◌==◌, ltb,
  is_empty,
}
use go_mcp_oauth_sdk.Text.{trim_space, trim_slashes}
use go_mcp_oauth_sdk.Errors.{ok}
use go_mcp_oauth_sdk.Errors.Laws.{Result-cases}
use go_mcp_oauth_sdk.Config.{OauthConfig}
use go_mcp_oauth_sdk.Env.{AuthServerMeta, Env}
use go_mcp_oauth_sdk.Verifier.{System, Action, get_verifier, next_call, lift, resume, ◌>>=◌}
use go_mcp_oauth_sdk.Jwks.{
  is_cached, decode_reply, time_now, record_attempt, store_keys, download, with_outcome, refetch,
  fetch_jwk_set, store_meta, decode_discovery, discover, cached_or_discover, fetch_auth_server_meta,
  resolve_jwks_url, discovered_uri,
}
use go_mcp_oauth_sdk.Jwt.{refetch_for, candidate_keys, parse_and_fetch_keys}
use go_mcp_oauth_sdk.Program.{run, after, atomic, ◌>>=◌ as then}
use go_mcp_oauth_sdk.Program.Laws.{run-bind, run-atomic, run-finished}
use go_mcp_oauth_sdk.Parallel.{
  read_config, lookup_keys, get_keys, with_outcome_after, use_cached_keys, fetch_keys_program,
  lookup_meta, get_meta, store_meta_now, use_cached_meta, fetch_meta_program, resolve_with,
  refetch_program, candidates_program, parse_and_fetch_program,
}

module _ {Key Token : Type 0} (env : Env Key Token) where
  use_none-refetch :
      (uri : String) (now : ℕ) (s : System Key)
      → run (use_cached_keys env uri now none) s ≡ refetch env uri now s
  unfolding use_cached_keys with_outcome_after run after atomic get_keys refetch record_attempt
      download store_keys with_outcome then next_call ◌>>=◌
  use_none-refetch uri now s = elim (Result-cases (decode_reply (env.get_jwks s.calls uri))) [
    | inl (keys, e) ↦ rw (e, run, refetch) refl
    | inr (x, e) ↦ rw (e, run, refetch) refl
  ]

  use_some-done :
      (uri : String) (now : ℕ) (keys : List Key) (s : System Key)
      → run (use_cached_keys env uri now (some keys)) s ≡ (ok keys, s)
  unfolding use_cached_keys run
  use_some-done uri now keys s = refl

  pub run-fetch_keys : (uri : String) → run (fetch_keys_program env uri) ≡ fetch_jwk_set env uri
  unfolding fetch_keys_program time_now next_call lookup_keys run after atomic then ◌>>=◌
      fetch_jwk_set get_verifier
  run-fetch_keys uri = fun_ext λ s.
      elim (Bool-cases (is_cached s.verifier uri (env.clock s.calls))) [
        | inl hit ↦
            rw (hit, run, fetch_jwk_set)
              (use_some-done uri (env.clock s.calls) s.verifier.jwks_cache _)
        | inr stale ↦ rw (stale, run, fetch_jwk_set) (use_none-refetch uri (env.clock s.calls) _)
      ]

  use_none-discover :
      (issuer : String) (s : System Key)
      → run (use_cached_meta env issuer none) s ≡ discover env issuer s
  unfolding use_cached_meta run after atomic then get_meta store_meta_now store_meta time_now
      next_call discover ◌>>=◌
  use_none-discover issuer s =
      elim (Result-cases (decode_discovery env issuer (env.get_metadata s.calls issuer))) [
        | inl (meta, e) ↦ rw (e, run, discover) refl
        | inr (x, e) ↦ rw (e, run, discover) refl
      ]

  use_some-meta :
      (issuer : String) (meta : AuthServerMeta) (s : System Key)
      → run (use_cached_meta env issuer (some meta)) s ≡ (ok meta, s)
  unfolding use_cached_meta run
  use_some-meta issuer meta s = refl

  pub run-fetch_meta :
      (raw : String) → run (fetch_meta_program env raw) ≡ fetch_auth_server_meta env raw
  unfolding fetch_meta_program lookup_meta time_now next_call run after atomic then ◌>>=◌
      fetch_auth_server_meta cached_or_discover get_verifier
  run-fetch_meta raw = fun_ext λ s.
      let issuer = trim_slashes (trim_space raw) in
      let v = s.verifier in
      let now = env.clock s.calls in
      elim (Bool-cases (issuer == "")) [
        | inl blank ↦ rw (blank, run, fetch_auth_server_meta) refl
        | inr given ↦ elim (Bool-cases (v.as_meta_cache_url == issuer)) [
          | inr other ↦ rw (given, other, run, fetch_auth_server_meta) (use_none-discover issuer s)
          | inl same ↦
              elim (Bool-cases
                (ltb now v.as_meta_expires_at && not (v.as_meta_cache.issuer == ""))) [
                  | inl fresh ↦
                      rw (given, same, fresh, run, fetch_auth_server_meta)
                        (use_some-meta issuer v.as_meta_cache _)
                  | inr stale ↦
                      rw (given, same, stale, run, fetch_auth_server_meta)
                        (use_none-discover issuer _)
                ]
        ]
      ]

  run-resolve : (s : System Key) → run (resolve_with env s.verifier.cfg) s ≡ resolve_jwks_url env s
  unfolding resolve_with resolve_jwks_url get_verifier run ◌>>=◌
  run-resolve s =
      let cfg = s.verifier.cfg in
      let issuer = trim_space cfg.issuer in
      elim (Bool-cases (trim_space cfg.jwks_url == "")) [
        | inr explicit ↦ rw (explicit, run, resolve_jwks_url) refl
        | inl none_given ↦ elim (Bool-cases (issuer == "")) [
          | inl neither ↦ rw (none_given, neither, run, resolve_jwks_url) refl
          | inr given ↦
              rw (none_given, given, resolve_jwks_url)
                (ap (λ m. m s)
                  (run-bind (fetch_meta_program env issuer) _
                    ∙ ap (λ m. m >>= (λ meta. lift (discovered_uri env meta)))
                        (run-fetch_meta issuer)))
        ]
      ]

  run-refetch :
      (uri : String) (parsed : Token) (key_id : String)
      → run (refetch_program env uri parsed key_id) ≡ refetch_for env uri parsed key_id
  unfolding refetch_program refetch_for
  run-refetch uri parsed key_id = simp (run-bind, run-atomic, run-fetch_keys)

  run-candidates :
      (uri : String) (parsed : Token) (key_id : String) (set : List Key)
      → run (candidates_program env uri parsed key_id set)
        ≡ candidate_keys env uri parsed key_id set
  unfolding candidates_program candidate_keys
  run-candidates uri parsed key_id set =
      let found = is_empty (env.jose.find_keys set key_id) in
      elim (Bool-cases (key_id == "")) [
        | inl no_id ↦ rw (no_id, candidate_keys) (run-finished _)
        | inr id ↦ elim (Bool-cases found) [
          | inl absent ↦ rw (id, absent, candidate_keys) (run-refetch uri parsed key_id)
          | inr present ↦ rw (id, present, candidate_keys) (run-finished _)
        ]
      ]

  -- What follows the choice of the URI may be anything.
  resolve_first :
      {A : Type 0} (next : String → Action Key A)
      → (read_config >>= λ cfg. run (resolve_with env cfg) >>= next)
        ≡ (resolve_jwks_url env >>= next)
  unfolding ◌>>=◌
  resolve_first next = fun_ext λ s. ap (λ x. resume x next) (run-resolve s)

  -- The configuration is read with the verifier.
  pub config_first :
      {A : Type 0} (next : OauthConfig → Action Key A)
      → (read_config >>= next) ≡ (get_verifier >>= λ v. next v.cfg)
  unfolding ◌>>=◌ get_verifier
  config_first next = refl

  pub run-parse_and_fetch :
      (token : String) → run (parse_and_fetch_program env token) ≡ parse_and_fetch_keys env token
  unfolding parse_and_fetch_program parse_and_fetch_keys
  run-parse_and_fetch token =
      simp (run-bind, run-atomic, run-finished, run-fetch_keys, run-candidates) (resolve_first _)
