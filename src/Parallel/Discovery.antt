-- ===== src/Parallel/Discovery.antt =====
-- Discovery while other goroutines run: the metadata are those of the issuer, and recent.
use go_mcp_oauth_sdk.Prelude.{
  ℕ, ◌+◌, ◌≤◌, ◌<◌, String, ◌≡◌, ◌≢◌, refl, Bool, true, not, ◌&&◌, Option, none, some, inl, inr,
  arith, Bool-cases, eq-cases, ◌==◌, eq_iff, ltb,
}
use mathlib.Core.Path.{subst}
use go_mcp_oauth_sdk.Errors.{ok}
use go_mcp_oauth_sdk.Errors.Laws.{Result-cases}
use go_mcp_oauth_sdk.Config.{OauthConfig}
use go_mcp_oauth_sdk.Env.{AuthServerMeta, Env, IsRandom}
use go_mcp_oauth_sdk.Verifier.{Verifier, next_call, ◌>>=◌}
use go_mcp_oauth_sdk.Jwks.{time_now, decode_discovery, store_meta}
use go_mcp_oauth_sdk.Jwks.Cache.{TtlFits, deadline_recent}
use go_mcp_oauth_sdk.Jwks.Metadata.{issuer_key}
use go_mcp_oauth_sdk.Concurrent.Origins.{HasOrigin-later}
use go_mcp_oauth_sdk.Program.{atomic}
use go_mcp_oauth_sdk.Program.Safe.{Yields, Safe-bind, Safe-if}
use go_mcp_oauth_sdk.Parallel.{
  lookup_meta, get_meta, store_meta_now, use_cached_meta, fetch_meta_program,
}
use go_mcp_oauth_sdk.Parallel.Origins.{Learned, relax-Learned, IsIntact, IsIntact-later}

module _ {Key Token : Type 0} (env : Env Key Token) (cfg : OauthConfig) where
  -- Metadata that a call which began at `first` got for an issuer: it discovered them itself, or
  -- they were discovered not long before a reading of the clock in this call.
  pub data Known (first : ℕ) (issuer : String) (limit : ℕ) (meta : AuthServerMeta) : Type 0 where
    new :
        (call : ℕ)
        → first ≤ call
        → call < limit
        → decode_discovery env issuer (env.get_metadata call issuer) ≡ ok meta
        → Known first issuer limit meta
    recalled :
        (call : ℕ)
        → first ≤ call
        → call < limit
        → Learned env cfg issuer meta (env.clock call) limit
        → Known first issuer limit meta

  pub relax-Known :
      {first : ℕ} {issuer : String} {limit : ℕ} {meta : AuthServerMeta} (first' limit' : ℕ)
      → first' ≤ first
      → limit ≤ limit'
      → Known first issuer limit meta
      → Known first' issuer limit' meta
  relax-Known first' limit' earlier later (new call since until reply) =
      new call (omega arith) (omega arith) reply
  relax-Known first' limit' earlier later (recalled call since until learned) =
      recalled call (omega arith) (omega arith)
        (relax-Learned env cfg (env.clock call) limit' (omega arith) later learned)

  abbrev Recalled : ℕ → String → ℕ → Option AuthServerMeta → Type 0
  Recalled first issuer limit none = Unit {0}
  Recalled first issuer limit (some meta) = Known first issuer limit meta

  abbrev is_fresh : Verifier Key → ℕ → Bool
  is_fresh v now = ltb now v.as_meta_expires_at && not (v.as_meta_cache.issuer == "")

  is_fresh_parts :
      (v : Verifier Key) (now : ℕ)
      → is_fresh v now ≡ true
      → (now < v.as_meta_expires_at) × (v.as_meta_cache.issuer ≢ "")
  is_fresh_parts v now h = ground (arith, eq_iff v.as_meta_cache.issuer "")

  lookup_meta-Safe :
      (n : ℕ) (issuer : String)
      → Yields (IsIntact env cfg) (Recalled n issuer) n (atomic (lookup_meta env issuer))
  unfolding atomic lookup_meta
  lookup_meta-Safe n issuer = λ s i le. elim (eq-cases s.verifier.as_meta_cache_url issuer) [
    | inr (t, other) ↦ rw t (IsIntact-later env cfg s _ i (ground arith), tt)
    | inl (t, same) ↦ rw t (
      IsIntact-later env cfg s _ i (ground arith),
      elim (Bool-cases (is_fresh s.verifier (env.clock s.calls))) [
        | inr stale ↦ rw stale tt
        | inl fresh ↦
            let (soon, present) = is_fresh_parts s.verifier (env.clock s.calls) fresh in
            rw fresh (
              recalled s.calls le (omega arith) (
                subst
                  (λ u.
                    Learned env cfg u s.verifier.as_meta_cache (env.clock s.calls) (s.calls + 1))
                  same
                  (relax-Learned env cfg (env.clock s.calls) (s.calls + 1) (omega arith)
                    (omega arith) (i.meta present))))
      ],
    )
  ]

  -- A call before `limit` and since `first` discovered the metadata.
  abbrev Got : ℕ → String → ℕ → AuthServerMeta → Type 0
  Got first issuer limit meta =
      (call : ℕ) × (first ≤ call)
      × (call < limit)
      × (decode_discovery env issuer (env.get_metadata call issuer) ≡ ok meta)

  get_meta-Safe :
      (n : ℕ) (issuer : String)
      → Yields (IsIntact env cfg) (Got n issuer) n (atomic (get_meta env issuer))
  unfolding atomic get_meta
  get_meta-Safe n issuer = λ s i le. (
    IsIntact-later env cfg s _ i (ground arith),
    elim (Result-cases (decode_discovery env issuer (env.get_metadata s.calls issuer))) [
      | inl (meta, e) ↦ rw e (s.calls, le, omega arith, e)
      | inr (x, e) ↦ rw e tt
    ],
  )

  module _ (random : IsRandom env) (fits : TtlFits cfg) where
    store_meta-Safe :
        (first n : ℕ) (issuer : String) (meta : AuthServerMeta)
        → Got first issuer n meta
        → Yields
            (IsIntact env cfg)
            (λ m _. Got first issuer m meta)
            n
            (atomic (store_meta_now env issuer meta))
    unfolding atomic store_meta_now store_meta time_now next_call ◌>>=◌
    store_meta-Safe first n issuer meta (call, since, until, reply) = λ s i le. (
      record {
        keeps = record {
          keys = HasOrigin-later env cfg s _ i.keys refl refl refl (omega arith) (omega arith);
          meta = λ _. record {
            get_call = call;
            clock_call = s.calls;
            order = omega arith;
            before = omega arith;
            reply = reply;
            recent =
                rw i.keys.configured
                  (deadline_recent env cfg random fits (s.calls + 1) (env.clock s.calls));
          };
        };
        later = omega arith;
      },
      (call, since, omega arith, reply),
    )

    use_cached_meta-Safe :
        (first n : ℕ) (issuer : String) (cached : Option AuthServerMeta)
        → first ≤ n
        → Recalled first issuer n cached
        → Yields (IsIntact env cfg) (Known first issuer) n (use_cached_meta env issuer cached)
    unfolding use_cached_meta
    use_cached_meta-Safe first n issuer (some meta) le k = k
    use_cached_meta-Safe first n issuer none le _ =
        let I = IsIntact env cfg in
        Safe-bind I (Got n issuer) (Known first issuer) n _ _ (get_meta-Safe n issuer)
          (λ m meta le' got.
            Safe-bind I (λ k _. Got n issuer k meta) (Known first issuer) m _ _
              (store_meta-Safe n m issuer meta got)
              (λ k _ le'' stored.
                let (call, since, until, reply) = stored in new call (omega arith) until reply))

    -- Metadata that `fetchAuthServerMeta` returns are those of the issuer, without white space and
    -- trailing slashes, and recent as of a reading of the clock in this call.
    pub fetch_meta-Safe :
        (n : ℕ) (raw : String)
        → Yields (IsIntact env cfg) (Known n (issuer_key raw)) n (fetch_meta_program env raw)
    unfolding fetch_meta_program
    fetch_meta-Safe n raw =
        let I = IsIntact env cfg in
        let issuer = issuer_key raw in
        Safe-if I _ n (issuer == "") _ _ tt (
          Safe-bind I (Recalled n issuer) (Known n issuer) n _ _ (lookup_meta-Safe n issuer)
            (λ m cached le k. use_cached_meta-Safe n m issuer cached le k))
