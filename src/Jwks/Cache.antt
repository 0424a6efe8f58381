-- ===== src/Jwks/Cache.antt =====
-- The key cache: whatever it serves for a URI was downloaded from that URI, not long before.
use go_mcp_oauth_sdk.Prelude.{
  ℕ, ◌+◌, ◌*◌, ◌/◌, ◌^◌, ◌≤◌, ◌<◌, String, ◌≡◌, ◌≢◌, refl, ◌∙◌, true, List, [], inl, inr,
  Bool-cases, if◌then◌else◌, arith, eq_iff,
}
use mathlib.Core.Path.{subst}
use go_mcp_oauth_sdk.Prelude.Int.{ℤ, pos, negsuc, pos_part, ltb_ℤ}
use go_mcp_oauth_sdk.Errors.{ok}
use go_mcp_oauth_sdk.Config.{OauthConfig}
use go_mcp_oauth_sdk.Env.{AuthServerMeta, Env, IsRandom}
use go_mcp_oauth_sdk.Verifier.{
  Verifier, System, Level, LogField, log, initial, new_verifier, next_call,
}
use go_mcp_oauth_sdk.Verifier.Keeps.{Keeps, keeps_rules}
use go_mcp_oauth_sdk.Jwks.{
  jwks_cache_ttl, default_jwks_cache_ttl, jittered_expiry, decode_reply, is_cached, fetch_jwk_set,
  time_now, store_meta, discover, cached_or_discover, fetch_auth_server_meta, resolve_jwks_url,
  invalidate_jwks_cache,
}
use go_mcp_oauth_sdk.Jwks.Jitter.{jittered_expiry_bounds}
use go_mcp_oauth_sdk.Jwks.Steps.{ticked, after_download, from_cache, downloaded, failed, ending}

-- The configured time to live, if any, is at most 2 ^ 62 ns (146 years), so that the jitter does
-- not overflow.
abbrev pub TtlFits : OauthConfig → Type 0
TtlFits cfg = pos_part cfg.jwks_cache_ttl ≤ 2 ^ 62

-- the time to live in use, as a number
abbrev pub ttl : OauthConfig → ℕ
ttl cfg = pos_part (jwks_cache_ttl cfg)

effective_ttl :
    (z : ℤ)
    → pos_part z ≤ 2 ^ 62
    → (n : ℕ) × (0 < n)
      × (n ≤ 2 ^ 62)
      × ((if ltb_ℤ (pos 0) z then z else default_jwks_cache_ttl) ≡ pos n)
effective_ttl (pos n) h = elim (Bool-cases (ltb_ℤ (pos 0) (pos n))) [
  | inl positive ↦ (n, ground arith, h, rw positive)
  | inr other ↦ (300_000_000_000, omega arith, omega arith, rw other)
]
effective_ttl (negsuc n) h = (300_000_000_000, omega arith, omega arith, ground arith)

ttl_pos :
    (cfg : OauthConfig)
    → TtlFits cfg
    → (0 < ttl cfg) × (ttl cfg ≤ 2 ^ 62) × (jwks_cache_ttl cfg ≡ pos (ttl cfg))
unfolding jwks_cache_ttl
ttl_pos cfg h =
    let (n, positive, fits, e) = effective_ttl cfg.jwks_cache_ttl h in
    rw (jwks_cache_ttl, e) (positive, fits, refl)

-- The cache answers only if it is not empty, was filled from the same URI and has not expired.
pub is_cached_parts :
    {Key : Type 0} (v : Verifier Key) (uri : String) (now : ℕ)
    → is_cached v uri now ≡ true
    → (v.jwks_cache ≢ []) × (v.jwks_cache_url ≡ uri) × (now < v.jwks_cache_expires_at)
unfolding is_cached
is_cached_parts v uri now h = ground (arith, eq_iff v.jwks_cache_url uri)

module _ {Key Token : Type 0} (env : Env Key Token) (cfg : OauthConfig) where
  -- `keys` came in the reply of a GET of `uri` before call `limit`, and the clock, read just before
  -- that GET, stood at most eleven tenths of the time to live before `time`.
  pub record Downloaded (uri : String) (keys : List Key) (time limit : ℕ) : Type 0 where
    pub call : ℕ
    pub before : call + 1 < limit
    pub reply : decode_reply (env.get_jwks (call + 1) uri) ≡ ok keys
    pub recent : 10 * time ≤ 10 * env.clock call + 11 * ttl cfg

  pub record IsCoherent (s : System Key) : Type 0 where
    pub configured : s.verifier.cfg ≡ cfg
    pub origin :
        s.verifier.jwks_cache ≢ []
        → Downloaded s.verifier.jwks_cache_url s.verifier.jwks_cache
            s.verifier.jwks_cache_expires_at s.calls

  pub IsCoherent-initial : IsCoherent (initial cfg)
  unfolding new_verifier
  IsCoherent-initial = record { configured = refl; origin = λ h. absurd (h refl) }

  -- Later calls do not spoil it, nor does an earlier deadline.
  pub relax-Downloaded :
      {uri : String} {keys : List Key} {time limit : ℕ} (time' limit' : ℕ)
      → time' ≤ time
      → limit ≤ limit'
      → Downloaded uri keys time limit
      → Downloaded uri keys time' limit'
  relax-Downloaded time' limit' earlier later d = record {
    call = d.call;
    before = omega (arith, d.before);
    reply = d.reply;
    recent = omega (arith, d.recent);
  }

  pub IsCoherent-ticked : (s : System Key) → IsCoherent s → IsCoherent (ticked env s)
  IsCoherent-ticked s h = record {
    configured = h.configured;
    origin = λ present. relax-Downloaded _ _ (omega arith) (omega arith) (h.origin present);
  }

  pub log-IsCoherent :
      (level : Level) (fields : List LogField) (message : String)
      → Keeps IsCoherent (log level fields message)
  unfolding log
  log-IsCoherent level fields message = record {
    at = λ s h. record { configured = h.configured; origin = h.origin };
  }

  pub invalidate-IsCoherent : Keeps IsCoherent invalidate_jwks_cache
  unfolding invalidate_jwks_cache
  invalidate-IsCoherent = record {
    at = λ s h. record {
      configured = h.configured;
      origin = λ present. relax-Downloaded _ _ (omega arith) (omega arith) (h.origin present);
    };
  }

  cached-Downloaded :
      (uri : String) (keys : List Key) (s : System Key)
      → IsCoherent s
      → is_cached s.verifier uri (env.clock s.calls) ≡ true
      → s.verifier.jwks_cache ≡ keys
      → Downloaded uri keys (env.clock s.calls) (s.calls + 1)
  cached-Downloaded uri keys s h hit same =
      let (present, url, soon) = is_cached_parts s.verifier uri (env.clock s.calls) hit in
      subst (λ u. Downloaded u keys (env.clock s.calls) (s.calls + 1)) url
        (subst (λ ks. Downloaded s.verifier.jwks_cache_url ks (env.clock s.calls) (s.calls + 1))
          same (relax-Downloaded _ _ (omega arith) (omega arith) (h.origin present)))

  module _ (random : IsRandom env) (fits : TtlFits cfg) where
    pub deadline_recent :
        (call now : ℕ)
        → 10 * jittered_expiry (env.random call) now (jwks_cache_ttl cfg) ≤ 10 * now + 11 * ttl cfg
    deadline_recent call now =
        let (positive, bound, e) = ttl_pos cfg fits in
        let bounds =
          jittered_expiry_bounds (env.random call) now (ttl cfg) (random.below call (ttl cfg / 5))
            positive bound in
        rw e (bounds.1)

    after_download-IsCoherent :
        (uri : String) (keys : List Key) (s : System Key)
        → IsCoherent s
        → decode_reply (env.get_jwks (s.calls + 1) uri) ≡ ok keys
        → IsCoherent (after_download env uri (env.clock s.calls) keys (ticked env s))
    after_download-IsCoherent uri keys s h reply = record {
      configured = h.configured;
      origin = λ _. record {
        call = s.calls;
        before = omega arith;
        reply = reply;
        recent = rw h.configured (deadline_recent (s.calls + 1 + 1) (env.clock s.calls));
      };
    }

    -- A download, a failed download and an answer from the cache each leave a coherent cache
    -- coherent. The random numbers are below their bound, and the time to live fits.
    pub fetch-IsCoherent : (uri : String) → Keeps IsCoherent (fetch_jwk_set env uri)
    fetch-IsCoherent uri = record {
      at = λ s h. elim (ending env uri s) [
        | from_cache _ e ↦ rw e (IsCoherent-ticked s h)
        | downloaded keys _ reply e ↦ rw e (after_download-IsCoherent uri keys s h reply)
        | failed x _ _ e ↦ rw e (record {
          configured = h.configured;
          origin = λ present. relax-Downloaded _ _ (omega arith) (omega arith) (h.origin present);
        })
      ];
    }

    -- From a coherent cache, the keys that `fetchJWKSet` returns for a URI came in a successful
    -- reply of that very URI, and the clock stood, just before that download, at most eleven
    -- tenths of the time to live before its reading now. The random numbers are below their bound,
    -- and the time to live fits.
    pub fetch-Downloaded :
        (uri : String) (keys : List Key) (s : System Key)
        → IsCoherent s
        → (fetch_jwk_set env uri s).0 ≡ ok keys
        → Downloaded uri keys (env.clock s.calls) (fetch_jwk_set env uri s).1.calls
    fetch-Downloaded uri keys s h got = elim (ending env uri s) [
      | from_cache hit e ↦ rw e (cached-Downloaded uri keys s h hit (ground (arith, e)))
      | downloaded keys' _ reply e ↦ rw e (record {
        call = s.calls;
        before = omega arith;
        reply = reply ∙ ground (arith, e);
        recent = omega arith;
      })
      | failed x _ _ e ↦ ground (arith, e)
    ]

  -- The metadata cache has fields of its own: what writes there keeps the key cache coherent.
  next_call-IsCoherent : Keeps IsCoherent next_call
  unfolding next_call
  next_call-IsCoherent = record { at = λ s h. IsCoherent-ticked s h }

  pub time_now-IsCoherent : Keeps IsCoherent (time_now env)
  unfolding time_now
  time_now-IsCoherent = search (keeps_rules, next_call-IsCoherent)

  store_meta-IsCoherent :
      (issuer : String) (now : ℕ) (meta : AuthServerMeta)
      → Keeps IsCoherent (store_meta env issuer now meta)
  unfolding store_meta
  store_meta-IsCoherent issuer now meta = record {
    at = λ s h. record {
      configured = h.configured;
      origin = λ present. relax-Downloaded _ _ (omega arith) (omega arith) (h.origin present);
    };
  }

  discover-IsCoherent : (issuer : String) → Keeps IsCoherent (discover env issuer)
  unfolding discover
  discover-IsCoherent issuer =
      search (keeps_rules, next_call-IsCoherent, time_now-IsCoherent, store_meta-IsCoherent)

  cached_or_discover-IsCoherent :
      (issuer : String) (v : Verifier Key) → Keeps IsCoherent (cached_or_discover env issuer v)
  unfolding cached_or_discover
  cached_or_discover-IsCoherent issuer v =
      search (keeps_rules, time_now-IsCoherent, discover-IsCoherent)

  pub fetch_auth_server_meta-IsCoherent :
      (issuer : String) → Keeps IsCoherent (fetch_auth_server_meta env issuer)
  unfolding fetch_auth_server_meta
  fetch_auth_server_meta-IsCoherent issuer =
      search (keeps_rules, cached_or_discover-IsCoherent, discover-IsCoherent)

  pub resolve-IsCoherent : Keeps IsCoherent (resolve_jwks_url env)
  unfolding resolve_jwks_url
  resolve-IsCoherent = search (keeps_rules, fetch_auth_server_meta-IsCoherent)
