-- ===== src/Jwt/Supply.antt =====
-- The keys that a token is verified with come from a recent download.
use go_mcp_oauth_sdk.Prelude.{
  ℕ, ◌≤◌, ◌<◌, String, ◌≡◌, ◌≢◌, ap, ◌∙◌, List, [], inl, inr, arith, Bool-cases, eq-cases, is_empty,
}
use go_mcp_oauth_sdk.Errors.{ok}
use go_mcp_oauth_sdk.Config.{OauthConfig}
use go_mcp_oauth_sdk.Env.{Env, IsRandom}
use go_mcp_oauth_sdk.Verifier.{System, log, lift, ◌>>=◌}
use go_mcp_oauth_sdk.Verifier.Runs.{bind_inv, pure_inv}
use go_mcp_oauth_sdk.Jwks.{fetch_jwk_set, invalidate_jwks_cache, resolve_jwks_url}
use go_mcp_oauth_sdk.Jwks.Cache.{
  TtlFits, Downloaded, IsCoherent, fetch-IsCoherent, fetch-Downloaded, invalidate-IsCoherent,
  resolve-IsCoherent, relax-Downloaded,
}
use go_mcp_oauth_sdk.Jwt.Kept.{Keeps-found, Keeps-candidate_keys}
use go_mcp_oauth_sdk.Jwt.Counts.{fetch_counts, Keeps-resolve, Counted-IsKept}
use go_mcp_oauth_sdk.Jwt.{
  parse_token, found_after_refetch, refetch_for, candidate_keys, parse_and_fetch_keys,
}

module _ {Key Token : Type 0} (env : Env Key Token) (cfg : OauthConfig) where
  -- The keys are chosen from a key set by the key id: all of it if there is no id, and otherwise
  -- those that it names, of which there is one at least.
  pub record Chosen (key_id : String) (keys set : List Key) : Type 0 where
    pub all : key_id ≡ "" → keys ≡ set
    pub named : key_id ≢ "" → (keys ≡ env.jose.find_keys set key_id) × (keys ≢ [])

  -- Where the keys for a token come from, in a run from `s` that makes its last call before `last`: the
  -- URI that the run resolves, a key set that was downloaded from it at most eleven tenths of the
  -- time to live before a reading of the clock in this run, and the token's key id.
  pub record Supplied (s : System Key) (last : ℕ) (token : String) (parsed : Token)
      (keys : List Key) : Type 0 where
    pub uri : String
    pub key_id : String
    pub set : List Key
    pub now_call : ℕ
    pub resolved : (resolve_jwks_url env s).0 ≡ ok uri
    pub since : s.calls ≤ now_call
    pub until : now_call < last
    pub read : parse_token env token ≡ ok (parsed, key_id)
    pub downloaded : Downloaded env cfg uri set (env.clock now_call) last
    pub chosen : Chosen key_id keys set

  pub relax-Supplied :
      {s : System Key} {last : ℕ} {token : String} {parsed : Token} {keys : List Key} (last' : ℕ)
      → last ≤ last'
      → Supplied s last token parsed keys
      → Supplied s last' token parsed keys
  relax-Supplied last' later k = record {
    uri = k.uri;
    key_id = k.key_id;
    set = k.set;
    now_call = k.now_call;
    resolved = k.resolved;
    since = k.since;
    until = omega (arith, k.until);
    read = k.read;
    downloaded = relax-Downloaded env cfg _ last' (omega arith) later k.downloaded;
    chosen = k.chosen;
  }

  module _ (random : IsRandom env) (fits : TtlFits cfg) where
    found-Chosen :
        (key_id : String) (parsed p : Token) (keys set : List Key) (s t : System Key)
        → key_id ≢ ""
        → found_after_refetch env parsed (env.jose.find_keys set key_id) s ≡ (ok (p, keys), t)
        → (parsed ≡ p) × Chosen key_id keys set
    unfolding found_after_refetch ◌>>=◌ log
    found-Chosen key_id parsed p keys set s t named h =
        (ground arith, record { all = λ e. absurd (named e); named = ground arith })

    -- A choice from a key set that was downloaded, as of a reading of the clock since `first`.
    record Selected (uri key_id : String) (parsed p : Token) (keys : List Key) (first last : ℕ)
        : Type 0 where
      same : parsed ≡ p
      set : List Key
      now_call : ℕ
      since : first ≤ now_call
      until : now_call < last
      downloaded : Downloaded env cfg uri set (env.clock now_call) last
      chosen : Chosen key_id keys set

    -- What choosing the keys does to the number of calls.
    found-calls :
        (parsed : Token) (keys : List Key) (s : System Key)
        → s.calls ≤ (found_after_refetch env parsed keys s).1.calls
    found-calls parsed keys s =
        (Keeps-found env (Counted-IsKept env s.calls) parsed keys).at s (omega arith)

    candidate-calls :
        (uri : String) (parsed : Token) (key_id : String) (set : List Key) (s : System Key)
        → s.calls ≤ (candidate_keys env uri parsed key_id set s).1.calls
    candidate-calls uri parsed key_id set s =
        (Keeps-candidate_keys env (Counted-IsKept env s.calls) uri parsed key_id set).at s
          (omega arith)

    invalidated-calls : (s : System Key) → s.calls ≤ (invalidate_jwks_cache s).1.calls
    unfolding invalidate_jwks_cache
    invalidated-calls s = omega arith

    refetch_for-Selected :
        (uri key_id : String) (parsed p : Token) (keys : List Key) (s t : System Key)
        → IsCoherent env cfg s
        → key_id ≢ ""
        → refetch_for env uri parsed key_id s ≡ (ok (p, keys), t)
        → Selected uri key_id parsed p keys s.calls t.calls
    unfolding refetch_for
    refetch_for-Selected uri key_id parsed p keys s t h named run =
        let (_, _, run') = bind_inv invalidate_jwks_cache _ s run in
        let s' = (invalidate_jwks_cache s).1 in
        let (set, fetched, run'') = bind_inv (fetch_jwk_set env uri) _ s' run' in
        let (same, chosen) = found-Chosen key_id parsed p keys set _ t named run'' in
        let s'' = (fetch_jwk_set env uri s').1 in
        let found = found-calls parsed (env.jose.find_keys set key_id) s'' in
        let later : s''.calls ≤ t.calls = omega (arith, found, ap (λ r. r.1.calls) run'') in
        record {
          same = same;
          set = set;
          now_call = s'.calls;
          since = invalidated-calls s;
          until = omega (arith, fetch_counts env uri s', later);
          downloaded = relax-Downloaded env cfg _ t.calls (omega arith) later (
              fetch-Downloaded env cfg random fits uri set s'
                ((invalidate-IsCoherent env cfg).at s h) fetched);
          chosen = chosen;
        }

    -- The choice from a key set as of the reading of the clock that came with it.
    candidate_keys-Selected :
        (uri key_id : String) (parsed p : Token) (keys set : List Key) (first now_call : ℕ)
        (s t : System Key)
        → IsCoherent env cfg s
        → first ≤ now_call
        → now_call < s.calls
        → Downloaded env cfg uri set (env.clock now_call) s.calls
        → candidate_keys env uri parsed key_id set s ≡ (ok (p, keys), t)
        → Selected uri key_id parsed p keys first t.calls
    unfolding candidate_keys
    candidate_keys-Selected uri key_id parsed p keys set first now_call s t h since until d run =
        let chosen_later : s.calls ≤ t.calls =
          omega (arith, candidate-calls uri parsed key_id set s, ap (λ r. r.1.calls) run) in
        let kept =
          relax-Downloaded env cfg (env.clock now_call) t.calls (omega arith) chosen_later d in
        let at_once : parsed ≡ p
            → Chosen key_id keys set
            → Selected uri key_id parsed p keys first t.calls =
          λ same chosen. record {
            same = same;
            set = set;
            now_call = now_call;
            since = since;
            until = omega (arith, chosen_later);
            downloaded = kept;
            chosen = chosen;
          } in
        elim (eq-cases key_id "") [
          | inl (no_id, e) ↦
              let run' = pure_inv (parsed, set) (p, keys) s t (rw no_id at run) in
              at_once (ground arith)
                (record { all = λ _. ground arith; named = λ ne. absurd (ne e) })
          | inr (id, ne) ↦ elim (Bool-cases (is_empty (env.jose.find_keys set key_id))) [
            | inl absent ↦
                let k =
                  refetch_for-Selected uri key_id parsed p keys s t h ne (rw (id, absent) at run) in
                record {
                  same = k.same;
                  set = k.set;
                  now_call = k.now_call;
                  since = omega (arith, k.since);
                  until = k.until;
                  downloaded = k.downloaded;
                  chosen = k.chosen;
                }
            | inr present ↦
                let run' =
                  pure_inv (parsed, env.jose.find_keys set key_id) (p, keys) s t
                    (rw (id, present) at run) in
                at_once (ground arith)
                  (record { all = λ e. absurd (ne e); named = λ _. ground arith })
          ]
        ]

    -- From a coherent cache, the keys that `parseAndFetchKeys` returns are chosen by the key id of
    -- the token's first header from a key set of the URI that the run resolves. It was downloaded
    -- at most eleven tenths of the time to live before a reading of the clock in this run, and an
    -- id always chooses at least one key. The random numbers are below their bound, and the time
    -- to live fits.
    pub parse_and_fetch_keys-Supplied :
        (token : String) (parsed : Token) (keys : List Key) (s t : System Key)
        → IsCoherent env cfg s
        → parse_and_fetch_keys env token s ≡ (ok (parsed, keys), t)
        → Supplied s t.calls token parsed keys
    unfolding parse_and_fetch_keys
    parse_and_fetch_keys-Supplied token parsed keys s t h run =
        let (uri, resolved, run1) = bind_inv (resolve_jwks_url env) _ s run in
        let s1 = (resolve_jwks_url env s).1 in
        let later1 : s.calls ≤ s1.calls = (Keeps-resolve env s.calls).at s (omega arith) in
        let h1 = (resolve-IsCoherent env cfg).at s h in
        let (p, read, run2) = bind_inv (lift (parse_token env token)) _ s1 run1 in
        let (set, fetched, run3) = bind_inv (fetch_jwk_set env uri) _ s1 run2 in
        let d = fetch-Downloaded env cfg random fits uri set s1 h1 fetched in
        let h3 = (fetch-IsCoherent env cfg random fits uri).at s1 h1 in
        let s3 = (fetch_jwk_set env uri s1).1 in
        let chosen =
          candidate_keys-Selected uri p.1 p.0 parsed keys set s.calls s1.calls s3 t h3 later1
            (omega (arith, fetch_counts env uri s1)) d run3 in
        record {
          uri = uri;
          key_id = p.1;
          set = chosen.set;
          now_call = chosen.now_call;
          resolved = resolved;
          since = chosen.since;
          until = chosen.until;
          read = read ∙ ap (λ q. ok (q, p.1)) chosen.same;
          downloaded = chosen.downloaded;
          chosen = chosen.chosen;
        }
