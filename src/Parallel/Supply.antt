-- ===== src/Parallel/Supply.antt =====
-- The keys for a token while other goroutines run: they come from the configured or discovered URI.
use go_mcp_oauth_sdk.Prelude.{
  ℕ, ◌≤◌, String, ◌≡◌, ◌≢◌, refl, sym, List, inl, inr, arith, Bool-cases, eq-cases, ◌==◌, is_empty,
}
use mathlib.Core.Path.{subst}
use go_mcp_oauth_sdk.Text.{trim_space}
use go_mcp_oauth_sdk.Errors.{ok}
use go_mcp_oauth_sdk.Errors.Laws.{Result-cases}
use go_mcp_oauth_sdk.Config.{OauthConfig}
use go_mcp_oauth_sdk.Env.{Env, IsRandom}
use go_mcp_oauth_sdk.Verifier.{log, ◌>>=◌ as bind}
use go_mcp_oauth_sdk.Jwks.{invalidate_jwks_cache, discovered_uri}
use go_mcp_oauth_sdk.Jwks.Cache.{TtlFits}
use go_mcp_oauth_sdk.Jwks.Metadata.{issuer_key}
use go_mcp_oauth_sdk.Jwt.{parse_token, found_after_refetch}
use go_mcp_oauth_sdk.Program.{atomic, ◌>>=◌}
use go_mcp_oauth_sdk.Program.Safe.{Yields, Safe-bind, Safe-if, Safe-more, Safe-finished}
use go_mcp_oauth_sdk.Parallel.{
  read_config, resolve_with, fetch_keys_program, refetch_program, candidates_program,
  parse_and_fetch_program,
}
use go_mcp_oauth_sdk.Parallel.Origins.{IsIntact, IsIntact-later}
use go_mcp_oauth_sdk.Parallel.Fetches.{Fresh, relax-Fresh, fetch_keys-Safe}
use go_mcp_oauth_sdk.Parallel.Discovery.{Known, fetch_meta-Safe}
use go_mcp_oauth_sdk.Parallel.Provision.{
  Names, explicit, discovered, relax-Names, Offered, Provided,
}

module _ {Key Token : Type 0} (env : Env Key Token) (cfg : OauthConfig) where
  pub config-Safe : (n : ℕ) → Yields (IsIntact env cfg) (λ m c. c ≡ cfg) n (atomic read_config)
  unfolding atomic
  config-Safe n = λ s i le. (IsIntact-later env cfg s _ i (ground arith), i.keys.configured)

  invalidate-Safe :
      (n : ℕ) → Yields (IsIntact env cfg) (λ m _. Unit {0}) n (atomic invalidate_jwks_cache)
  unfolding atomic invalidate_jwks_cache
  invalidate-Safe n = λ s i le. (IsIntact-later env cfg s _ i (ground arith), tt)

  -- The parsed token as it was, with a choice of keys.
  abbrev OfferedFor : ℕ → String → String → Token → ℕ → Token × List Key → Type 0
  OfferedFor first uri key_id parsed limit found =
      (parsed ≡ found.0) × Offered env cfg first uri key_id limit found.1

  found-Safe :
      (first n : ℕ) (uri key_id : String) (parsed : Token) (set : List Key)
      → key_id ≢ ""
      → Fresh env cfg first uri n set
      → Yields
          (IsIntact env cfg)
          (OfferedFor first uri key_id parsed)
          n
          (atomic (found_after_refetch env parsed (env.jose.find_keys set key_id)))
  unfolding atomic found_after_refetch log bind
  found-Safe first n uri key_id parsed set id fresh = λ s i le.
      elim (Bool-cases (is_empty (env.jose.find_keys set key_id))) [
        | inl none_found ↦ rw (none_found) (IsIntact-later env cfg s _ i (ground arith), tt)
        | inr some_found ↦ rw (some_found) (
          IsIntact-later env cfg s _ i (ground arith),
          (
            refl,
            record {
              set = set;
              fresh = relax-Fresh env cfg first s.calls (omega arith) le fresh;
              chosen = record { all = λ e. absurd (id e); named = λ _. (refl, ground arith) };
            },
          ),
        )
      ]

  module _ (random : IsRandom env) (fits : TtlFits cfg) where
    refetch-Safe :
        (first n : ℕ) (uri : String) (parsed : Token) (key_id : String)
        → first ≤ n
        → key_id ≢ ""
        → Yields
            (IsIntact env cfg)
            (OfferedFor first uri key_id parsed)
            n
            (refetch_program env uri parsed key_id)
    unfolding refetch_program
    refetch-Safe first n uri parsed key_id le id =
        let I = IsIntact env cfg in
        let Q = OfferedFor first uri key_id parsed in
        Safe-bind I (λ m _. Unit {0}) Q n _ _ (invalidate-Safe n)
          (λ m _ le' _.
            Safe-bind I (Fresh env cfg m uri) Q m _ _ (fetch_keys-Safe env cfg random fits m uri)
              (λ k set le'' fresh.
                found-Safe first k uri key_id parsed set id
                  (relax-Fresh env cfg first k (omega arith) (omega arith) fresh)))

    candidates-Safe :
        (first n : ℕ) (uri : String) (parsed : Token) (key_id : String) (set : List Key)
        → first ≤ n
        → Fresh env cfg first uri n set
        → Yields
            (IsIntact env cfg)
            (OfferedFor first uri key_id parsed)
            n
            (candidates_program env uri parsed key_id set)
    unfolding candidates_program
    candidates-Safe first n uri parsed key_id set le fresh = elim (eq-cases key_id "") [
      | inl (t, no_id) ↦ rw t (
        refl,
        record {
          set = set;
          fresh = fresh;
          chosen = record { all = λ _. refl; named = λ id. absurd (id no_id) };
        },
      )
      | inr (t, id) ↦ elim (Bool-cases (is_empty (env.jose.find_keys set key_id))) [
        | inl absent ↦ rw (t, absent) (refetch-Safe first n uri parsed key_id le id)
        | inr present ↦
            rw (t, present)
              (
                refl,
                record {
                  set = set;
                  fresh = fresh;
                  chosen = record { all = λ e. absurd (id e); named = λ _. (refl, ground arith) };
                },
              )
      ]
    ]

    resolve-Safe : (n : ℕ) → Yields (IsIntact env cfg) (Names env cfg n) n (resolve_with env cfg)
    unfolding resolve_with
    resolve-Safe n =
        let I = IsIntact env cfg in
        let issuer = trim_space cfg.issuer in
        elim (eq-cases (trim_space cfg.jwks_url) "") [
          | inr (t, given) ↦ rw t (explicit given refl)
          | inl (t, none_given) ↦ rw t (
              Safe-if I _ n (issuer == "") _ _ tt (
                Safe-bind I (Known env cfg n (issuer_key issuer)) (Names env cfg n) n _ _
                  (fetch_meta-Safe env cfg random fits n issuer)
                  (λ m meta le known. elim (Result-cases (discovered_uri env meta)) [
                    | inl (uri, e) ↦ rw e (discovered meta none_given known e)
                    | inr (x, e) ↦ rw e tt
                  ])))
        ]

    -- The keys for a token whose header was read are those of a recent key set of the URI.
    keys-Safe :
        (first n : ℕ) (token uri key_id : String) (parsed : Token)
        → first ≤ n
        → Names env cfg first n uri
        → parse_token env token ≡ ok (parsed, key_id)
        → Yields
            (IsIntact env cfg)
            (Provided env cfg token first)
            n
            (fetch_keys_program env uri >>= candidates_program env uri parsed key_id)
    keys-Safe first n token uri key_id parsed le named read =
        let I = IsIntact env cfg in
        Safe-bind I (Fresh env cfg n uri) (Provided env cfg token first) n _ _
          (fetch_keys-Safe env cfg random fits n uri)
          (λ m set le' fresh.
            Safe-more I (OfferedFor first uri key_id parsed) (Provided env cfg token first) m _
              (candidates-Safe first m uri parsed key_id set (omega arith)
                (relax-Fresh env cfg first m le (omega arith) fresh))
              (λ k found le'' offered. record {
                uri = uri;
                key_id = key_id;
                named = relax-Names env cfg first k (omega arith) (omega arith) named;
                read = rw (← offered.0) read;
                offered = offered.1;
              }))

    -- The keys that `parseAndFetchKeys` returns are chosen by the token's key id from a recent key set
    -- of the configured or discovered URI.
    pub parse_and_fetch-Safe :
        (n : ℕ) (token : String)
        → Yields (IsIntact env cfg) (Provided env cfg token n) n (parse_and_fetch_program env token)
    unfolding parse_and_fetch_program
    parse_and_fetch-Safe n token =
        let I = IsIntact env cfg in
        let Q = Provided env cfg token n in
        Safe-bind I (λ m c. c ≡ cfg) Q n _ _ (config-Safe n)
          (λ m c le same.
            Safe-bind I (Names env cfg n) Q m _ _
              (subst (λ c. Yields I (Names env cfg n) m (resolve_with env c)) (sym same)
                (Safe-more I (Names env cfg m) (Names env cfg n) m _ (resolve-Safe m)
                  (λ k uri le' named. relax-Names env cfg n k le (omega arith) named)))
              (λ k uri le' named.
                Safe-bind I (λ l p. parse_token env token ≡ ok p) Q k _ _
                  (Safe-finished I k (parse_token env token))
                  (λ l p le'' read.
                    keys-Safe n l token uri p.1 p.0 (omega arith)
                      (relax-Names env cfg n l (omega arith) le'' named) read)))
