-- ===== src/Parallel/Origins.antt =====
-- What every section of a call keeps of the shared state: where the cached keys and the cached
-- metadata come from.
use go_mcp_oauth_sdk.Prelude.{ℕ, ◌+◌, ◌*◌, ◌≤◌, ◌<◌, String, ◌≡◌, ◌≢◌, refl, arith}
use go_mcp_oauth_sdk.Errors.{ok}
use go_mcp_oauth_sdk.Config.{OauthConfig}
use go_mcp_oauth_sdk.Env.{AuthServerMeta, Env}
use go_mcp_oauth_sdk.Verifier.{System, initial, new_verifier}
use go_mcp_oauth_sdk.Jwks.{decode_discovery}
use go_mcp_oauth_sdk.Jwks.Cache.{ttl}
use go_mcp_oauth_sdk.Concurrent.Origins.{HasOrigin, HasOrigin-later}
use go_mcp_oauth_sdk.Program.Safe.{Kept}

module _ {Key Token : Type 0} (env : Env Key Token) (cfg : OauthConfig) where
  -- `meta` was discovered for `issuer`, and a later call before `limit` read the clock, at most eleven
  -- tenths of the time to live before `time`.
  pub record Learned (issuer : String) (meta : AuthServerMeta) (time limit : ℕ) : Type 0 where
    pub get_call : ℕ
    pub clock_call : ℕ
    pub order : get_call < clock_call
    pub before : clock_call < limit
    pub reply : decode_discovery env issuer (env.get_metadata get_call issuer) ≡ ok meta
    pub recent : 10 * time ≤ 10 * env.clock clock_call + 11 * ttl cfg

  pub relax-Learned :
      {issuer : String} {meta : AuthServerMeta} {time limit : ℕ} (time' limit' : ℕ)
      → time' ≤ time
      → limit ≤ limit'
      → Learned issuer meta time limit
      → Learned issuer meta time' limit'
  relax-Learned time' limit' earlier later d = record {
    get_call = d.get_call;
    clock_call = d.clock_call;
    order = d.order;
    before = omega (arith, d.before);
    reply = d.reply;
    recent = omega (arith, d.recent);
  }

  -- The cached keys have their origin, and the cached metadata, if there are any, too.
  pub record IsIntact (s : System Key) : Type 0 where
    pub keys : HasOrigin env cfg s
    pub meta :
        s.verifier.as_meta_cache.issuer ≢ ""
        → Learned s.verifier.as_meta_cache_url s.verifier.as_meta_cache
            s.verifier.as_meta_expires_at s.calls

  pub IsIntact-initial : IsIntact (initial cfg)
  unfolding new_verifier
  IsIntact-initial = record {
    keys = record { configured = refl; origin = λ h. absurd (h refl) };
    meta = λ h. absurd (h refl);
  }

  -- The metadata are the same in both states.
  abbrev pub SameMeta : System Key → System Key → Type 0
  SameMeta s t =
      (t.verifier.as_meta_cache ≡ s.verifier.as_meta_cache)
      × (t.verifier.as_meta_cache_url ≡ s.verifier.as_meta_cache_url)
      × (t.verifier.as_meta_expires_at ≡ s.verifier.as_meta_expires_at)

  -- Keys with an origin beside the old metadata.
  pub IsIntact-keys :
      (s t : System Key)
      → IsIntact s
      → HasOrigin env cfg t
      → SameMeta s t
      → s.calls ≤ t.calls
      → Kept IsIntact s t
  IsIntact-keys s t h keys (cache, url, deadline) later = record {
    keeps = record {
      keys = keys;
      meta = λ present.
          rw (cache, url, deadline)
            (relax-Learned _ _ (omega arith) later (h.meta (rw (← cache) present)));
    };
    later = later;
  }

  -- Both caches stay as they are, but for an earlier deadline of the keys.
  abbrev pub Untouched : System Key → System Key → Type 0
  Untouched s t =
      (t.verifier.cfg ≡ s.verifier.cfg)
      × (t.verifier.jwks_cache ≡ s.verifier.jwks_cache)
      × (t.verifier.jwks_cache_url ≡ s.verifier.jwks_cache_url)
      × (t.verifier.jwks_cache_expires_at ≤ s.verifier.jwks_cache_expires_at)
      × SameMeta s t
      × (s.calls ≤ t.calls)

  pub IsIntact-later : (s t : System Key) → IsIntact s → Untouched s t → Kept IsIntact s t
  IsIntact-later s t h (a, b, c, d, same, later) =
      IsIntact-keys s t h (HasOrigin-later env cfg s t h.keys a b c d later) same later
