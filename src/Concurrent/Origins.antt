-- ===== src/Concurrent/Origins.antt =====
-- Where keys come from, and what holds of a goroutine in each phase of a call.
use mathlib.Core.Path.{subst}
use go_mcp_oauth_sdk.Prelude.{ℕ, ◌+◌, ◌*◌, ◌≤◌, ◌<◌, String, ◌≡◌, ◌≢◌, ◌∙◌, true, List, [], arith}
use go_mcp_oauth_sdk.Errors.{ok, err}
use go_mcp_oauth_sdk.Config.{OauthConfig}
use go_mcp_oauth_sdk.Env.{Env}
use go_mcp_oauth_sdk.Verifier.{System}
use go_mcp_oauth_sdk.Jwks.{decode_reply, is_cached}
use go_mcp_oauth_sdk.Jwks.Cache.{ttl, is_cached_parts}
use go_mcp_oauth_sdk.Concurrent.{
  Phase, idle, asked, timed, missed, noted, answered, stored, rejected, returned,
}

module _ {Key Token : Type 0} (env : Env Key Token) (cfg : OauthConfig) where
  -- `keys` came in the reply of a GET of `uri`, one of the calls before `limit`, and an earlier call
  -- read the clock, at most eleven tenths of the time to live before `time`.
  pub record Fetched (uri : String) (keys : List Key) (time limit : ℕ) : Type 0 where
    pub clock_call : ℕ
    pub get_call : ℕ
    pub order : clock_call < get_call
    pub before : get_call < limit
    pub reply : decode_reply (env.get_jwks get_call uri) ≡ ok keys
    pub recent : 10 * time ≤ 10 * env.clock clock_call + 11 * ttl cfg

  -- The clock gave `now` in a call before `limit`.
  abbrev pub WasRead : ℕ → ℕ → Type 0
  WasRead limit now = (call : ℕ) × (call < limit) × (env.clock call ≡ now)

  -- `keys` are the reply to a GET of `uri` after the clock gave `now`.
  pub record WasAnswered (limit : ℕ) (uri : String) (now : ℕ) (keys : List Key) : Type 0 where
    pub clock_call : ℕ
    pub get_call : ℕ
    pub order : clock_call < get_call
    pub before : get_call < limit
    pub read : env.clock clock_call ≡ now
    pub reply : decode_reply (env.get_jwks get_call uri) ≡ ok keys

  -- What holds of a goroutine in each phase, once `limit` calls were made.
  abbrev pub IsSound : ℕ → Phase Key → Type 0
  IsSound limit (timed uri now) = WasRead limit now
  IsSound limit (missed uri now) = WasRead limit now
  IsSound limit (noted uri now) = WasRead limit now
  IsSound limit (answered uri now keys) = WasAnswered limit uri now keys
  IsSound limit (stored uri now keys) = WasAnswered limit uri now keys
  IsSound limit (returned uri now (ok keys)) = Fetched uri keys now limit
  IsSound limit p = Unit

  pub record HasOrigin (s : System Key) : Type 0 where
    pub configured : s.verifier.cfg ≡ cfg
    pub origin :
        s.verifier.jwks_cache ≢ []
        → Fetched s.verifier.jwks_cache_url s.verifier.jwks_cache s.verifier.jwks_cache_expires_at
            s.calls

  pub relax-Fetched :
      {uri : String} {keys : List Key} {time limit : ℕ} (time' limit' : ℕ)
      → time' ≤ time
      → limit ≤ limit'
      → Fetched uri keys time limit
      → Fetched uri keys time' limit'
  relax-Fetched time' limit' earlier later d = record {
    clock_call = d.clock_call;
    get_call = d.get_call;
    order = d.order;
    before = omega (arith, d.before);
    reply = d.reply;
    recent = omega (arith, d.recent);
  }

  pub relax-WasRead :
      {limit now : ℕ} (limit' : ℕ) → limit ≤ limit' → WasRead limit now → WasRead limit' now
  relax-WasRead limit' later (call, b, e) = (call, omega arith, e)

  pub relax-WasAnswered :
      {limit now : ℕ} {uri : String} {keys : List Key} (limit' : ℕ)
      → limit ≤ limit'
      → WasAnswered limit uri now keys
      → WasAnswered limit' uri now keys
  relax-WasAnswered limit' later a = record {
    clock_call = a.clock_call;
    get_call = a.get_call;
    order = a.order;
    before = omega (arith, a.before);
    read = a.read;
    reply = a.reply;
  }

  pub relax-IsSound :
      (limit limit' : ℕ) (p : Phase Key) → limit ≤ limit' → IsSound limit p → IsSound limit' p
  relax-IsSound limit limit' idle later h = tt
  relax-IsSound limit limit' (asked uri) later h = tt
  relax-IsSound limit limit' (timed uri now) later h = relax-WasRead limit' later h
  relax-IsSound limit limit' (missed uri now) later h = relax-WasRead limit' later h
  relax-IsSound limit limit' (noted uri now) later h = relax-WasRead limit' later h
  relax-IsSound limit limit' (answered uri now keys) later h = relax-WasAnswered limit' later h
  relax-IsSound limit limit' (stored uri now keys) later h = relax-WasAnswered limit' later h
  relax-IsSound limit limit' (rejected uri now e) later h = tt
  relax-IsSound limit limit' (returned uri now (ok keys)) later h =
      relax-Fetched now limit' (omega arith) later h
  relax-IsSound limit limit' (returned uri now (err e)) later h = tt

  -- An answer is fetched at the time that was read, and at any deadline that follows from it.
  pub Fetched-of_answer :
      {limit now : ℕ} {uri : String} {keys : List Key} (time : ℕ)
      → 10 * time ≤ 10 * now + 11 * ttl cfg
      → WasAnswered limit uri now keys
      → Fetched uri keys time limit
  Fetched-of_answer time bound a = record {
    clock_call = a.clock_call;
    get_call = a.get_call;
    order = a.order;
    before = a.before;
    reply = a.reply;
    recent = omega (arith, a.read, bound);
  }

  -- More calls, and other health, keep the origin of the cache.
  pub HasOrigin-later :
      (s t : System Key)
      → HasOrigin s
      → t.verifier.cfg ≡ s.verifier.cfg
      → t.verifier.jwks_cache ≡ s.verifier.jwks_cache
      → t.verifier.jwks_cache_url ≡ s.verifier.jwks_cache_url
      → t.verifier.jwks_cache_expires_at ≤ s.verifier.jwks_cache_expires_at
      → s.calls ≤ t.calls
      → HasOrigin t
  HasOrigin-later s t h same_cfg same_keys same_url sooner later = record {
    configured = same_cfg ∙ h.configured;
    origin = λ present.
        rw (same_keys, same_url)
          (relax-Fetched _ _ sooner later (h.origin (rw (← same_keys) present)));
  }

  -- What the cache serves for a URI has its origin there, and its deadline is still to come.
  pub cached-Fetched :
      (s : System Key) (uri : String) (now : ℕ)
      → HasOrigin s
      → is_cached s.verifier uri now ≡ true
      → Fetched uri s.verifier.jwks_cache now s.calls
  cached-Fetched s uri now h hit =
      let (present, url, soon) = is_cached_parts s.verifier uri now hit in
      subst (λ u. Fetched u s.verifier.jwks_cache now s.calls) url
        (relax-Fetched _ _ (omega arith) (omega arith) (h.origin present))
