-- ===== src/Jwks/Metadata.antt =====
-- The metadata cache: whatever it serves for an issuer was discovered for that issuer, not long before.
use go_mcp_oauth_sdk.Prelude.{
  ℕ, ◌+◌, ◌*◌, ◌≤◌, ◌<◌, String, ◌≡◌, ◌≢◌, refl, sym, ◌∙◌, Bool, true, not, ◌&&◌, inl, inr, arith,
  ◌==◌, eq_iff, ltb, Bool-cases, eq-cases,
}
use mathlib.Core.Path.{subst}
use go_mcp_oauth_sdk.Text.{trim_space, trim_slashes}
use go_mcp_oauth_sdk.Errors.{Failure, plain, Result, ok, err}
use go_mcp_oauth_sdk.Errors.Laws.{Result-cases}
use go_mcp_oauth_sdk.Config.{OauthConfig}
use go_mcp_oauth_sdk.Env.{AuthServerMeta, Env, IsRandom}
use go_mcp_oauth_sdk.Verifier.{System, Verifier, initial, new_verifier}
use go_mcp_oauth_sdk.Verifier.Keeps.{Keeps}
use go_mcp_oauth_sdk.Jwks.{
  jwks_cache_ttl, jittered_expiry, decode_discovery, store_meta, discover, cached_or_discover,
  fetch_auth_server_meta, time_now,
}
use go_mcp_oauth_sdk.Jwks.Steps.{ticked}
use go_mcp_oauth_sdk.Jwks.Cache.{TtlFits, ttl, deadline_recent}

-- The issuer as `fetchAuthServerMeta` looks it up.
abbrev pub issuer_key : String → String
issuer_key raw = trim_slashes (trim_space raw)

module _ {Key Token : Type 0} (env : Env Key Token) where
  -- the state after a discovery that gave metadata
  abbrev after_discovery : String → AuthServerMeta → System Key → System Key
  after_discovery issuer meta s = record s {
    calls = s.calls + 1 + 1 + 1;
    verifier = record s.verifier {
      as_meta_cache = meta;
      as_meta_cache_url = issuer;
      as_meta_expires_at =
          jittered_expiry (env.random (s.calls + 1 + 1)) (env.clock (s.calls + 1))
            (jwks_cache_ttl s.verifier.cfg);
    };
  }

  -- The test of the cached metadata.
  abbrev is_fresh : Verifier Key → ℕ → Bool
  is_fresh v now = ltb now v.as_meta_expires_at && not (v.as_meta_cache.issuer == "")

  -- The ways in which `discover` ends from a state `t`, to which a run of `r` led.
  data Discovers (issuer : String) (r : Result AuthServerMeta × System Key) (t : System Key)
      : Type 0 where
    gave :
        (meta : AuthServerMeta)
        → decode_discovery env issuer (env.get_metadata t.calls issuer) ≡ ok meta
        → r ≡ (ok meta, after_discovery issuer meta t)
        → Discovers issuer r t
    refused : (e : Failure) → r ≡ (err e, ticked env t) → Discovers issuer r t

  discovers : (issuer : String) (t : System Key) → Discovers issuer (discover env issuer t) t
  unfolding discover store_meta time_now
  discovers issuer t =
      elim (Result-cases (decode_discovery env issuer (env.get_metadata t.calls issuer))) [
        | inl (meta, e) ↦ gave meta e (rw (discover, e) refl)
        | inr (x, e) ↦ refused x (rw (discover, e) refl)
      ]

  module _ (raw : String) (s : System Key) where
    data MetaEnding : Type 0 where
      no_issuer :
          fetch_auth_server_meta env raw s ≡ (err (plain "issuer is required"), s) → MetaEnding
      from_cache :
          s.verifier.as_meta_cache_url ≡ issuer_key raw
          → is_fresh s.verifier (env.clock s.calls) ≡ true
          → fetch_auth_server_meta env raw s ≡ (ok s.verifier.as_meta_cache, ticked env s)
          → MetaEnding
      after_clock :
          Discovers (issuer_key raw) (fetch_auth_server_meta env raw s) (ticked env s) → MetaEnding
      at_once : Discovers (issuer_key raw) (fetch_auth_server_meta env raw s) s → MetaEnding

    meta_ending : MetaEnding
    unfolding fetch_auth_server_meta cached_or_discover time_now
    meta_ending = elim (Bool-cases (issuer_key raw == "")) [
      | inl none_given ↦ no_issuer (rw (none_given, fetch_auth_server_meta) refl)
      | inr given ↦ elim (eq-cases s.verifier.as_meta_cache_url (issuer_key raw)) [
        | inl (t, same) ↦ elim (Bool-cases (is_fresh s.verifier (env.clock s.calls))) [
          | inl fresh ↦ from_cache same fresh (rw (given, t, fresh, fetch_auth_server_meta) refl)
          | inr stale ↦ after_clock (
              subst (λ r. Discovers (issuer_key raw) r (ticked env s))
                (sym (rw (given, t, stale, fetch_auth_server_meta) refl))
                (discovers (issuer_key raw) (ticked env s)))
        ]
        | inr (t, other) ↦ at_once (
            subst (λ r. Discovers (issuer_key raw) r s)
              (sym (rw (given, t, fetch_auth_server_meta) refl)) (discovers (issuer_key raw) s))
      ]
    ]

module _ {Key Token : Type 0} (env : Env Key Token) (cfg : OauthConfig) where
  -- `meta` was discovered for `issuer` in one of the calls before `limit`, and the clock, read right
  -- after that, stood at most eleven tenths of the time to live before `time`.
  pub record Discovered (issuer : String) (meta : AuthServerMeta) (time limit : ℕ) : Type 0 where
    pub call : ℕ
    pub before : call + 1 < limit
    pub reply : decode_discovery env issuer (env.get_metadata call issuer) ≡ ok meta
    pub recent : 10 * time ≤ 10 * env.clock (call + 1) + 11 * ttl cfg

  pub record HasMeta (s : System Key) : Type 0 where
    pub configured : s.verifier.cfg ≡ cfg
    pub origin :
        s.verifier.as_meta_cache.issuer ≢ ""
        → Discovered s.verifier.as_meta_cache_url s.verifier.as_meta_cache
            s.verifier.as_meta_expires_at s.calls

  -- What a run from `s` to `t` serves: metadata that it discovered itself, or what was cached.
  pub data Obtained (issuer : String) (meta : AuthServerMeta) (s t : System Key) : Type 0 where
    new :
        (call : ℕ)
        → s.calls ≤ call
        → call < t.calls
        → decode_discovery env issuer (env.get_metadata call issuer) ≡ ok meta
        → Obtained issuer meta s t
    cached : Discovered issuer meta (env.clock s.calls) s.calls → Obtained issuer meta s t

  pub HasMeta-initial : HasMeta (initial cfg)
  unfolding new_verifier
  HasMeta-initial = record { configured = refl; origin = λ h. absurd (h refl) }

  pub relax-Discovered :
      {issuer : String} {meta : AuthServerMeta} {time limit : ℕ} (time' limit' : ℕ)
      → time' ≤ time
      → limit ≤ limit'
      → Discovered issuer meta time limit
      → Discovered issuer meta time' limit'
  relax-Discovered time' limit' earlier later d = record {
    call = d.call;
    before = omega (arith, d.before);
    reply = d.reply;
    recent = omega (arith, d.recent);
  }

  pub HasMeta-ticked : (s : System Key) → HasMeta s → HasMeta (ticked env s)
  HasMeta-ticked s h = record {
    configured = h.configured;
    origin = λ present. relax-Discovered _ _ (omega arith) (omega arith) (h.origin present);
  }

  is_fresh_parts :
      (v : Verifier Key) (now : ℕ)
      → is_fresh env v now ≡ true
      → (now < v.as_meta_expires_at) × (v.as_meta_cache.issuer ≢ "")
  is_fresh_parts v now h = ground (arith, eq_iff v.as_meta_cache.issuer "")

  module _ (random : IsRandom env) (fits : TtlFits cfg) where
    after_discovery-HasMeta :
        (issuer : String) (meta : AuthServerMeta) (s : System Key)
        → HasMeta s
        → decode_discovery env issuer (env.get_metadata s.calls issuer) ≡ ok meta
        → HasMeta (after_discovery env issuer meta s)
    after_discovery-HasMeta issuer meta s h e = record {
      configured = h.configured;
      origin = λ _. record {
        call = s.calls;
        before = omega arith;
        reply = e;
        recent =
            rw h.configured
              (deadline_recent env cfg random fits (s.calls + 1 + 1) (env.clock (s.calls + 1)));
      };
    }

    Discovers-HasMeta :
        (issuer : String) (r : Result AuthServerMeta × System Key) (t : System Key)
        → HasMeta t
        → Discovers env issuer r t
        → HasMeta r.1
    Discovers-HasMeta issuer r t h (gave meta e run) =
        rw run (after_discovery-HasMeta issuer meta t h e)
    Discovers-HasMeta issuer r t h (refused e run) = rw run (HasMeta-ticked t h)

    Discovers-Obtained :
        (issuer : String) (r : Result AuthServerMeta × System Key) (s t : System Key)
        (meta : AuthServerMeta)
        → s.calls ≤ t.calls
        → Discovers env issuer r t
        → r.0 ≡ ok meta
        → Obtained issuer meta s r.1
    Discovers-Obtained issuer r s t meta later (gave m e run) got =
        new t.calls later (rw run (omega arith)) (e ∙ ground (arith, run))
    Discovers-Obtained issuer r s t meta later (refused e run) got = ground (arith, run)

    -- A run of `fetchAuthServerMeta`, failed ones included, keeps the origin of the cached metadata.
    pub fetch_auth_server_meta-HasMeta :
        (raw : String) → Keeps HasMeta (fetch_auth_server_meta env raw)
    fetch_auth_server_meta-HasMeta raw = record {
      at = λ s h. elim (meta_ending env raw s) [
        | no_issuer run ↦ rw run h
        | from_cache url fresh run ↦ rw run (HasMeta-ticked s h)
        | after_clock d ↦ Discovers-HasMeta _ _ _ (HasMeta-ticked s h) d
        | at_once d ↦ Discovers-HasMeta _ _ _ h d
      ];
    }

    -- Where the cached metadata, if there are any, were discovered for the issuer they are cached
    -- for, `fetchAuthServerMeta` returns metadata only if it discovered them in this run for the
    -- issuer, without white space and trailing slashes, or if they are cached for that issuer and the
    -- clock saw their discovery at most eleven tenths of the time to live before its reading now.
    pub fetch_auth_server_meta-Obtained :
        (raw : String) (s : System Key) (meta : AuthServerMeta)
        → HasMeta s
        → (fetch_auth_server_meta env raw s).0 ≡ ok meta
        → Obtained (issuer_key raw) meta s (fetch_auth_server_meta env raw s).1
    fetch_auth_server_meta-Obtained raw s meta h got = elim (meta_ending env raw s) [
      | no_issuer run ↦ ground (arith, run)
      | from_cache url fresh run ↦
          let (soon, present) = is_fresh_parts s.verifier (env.clock s.calls) fresh in
          let same : s.verifier.as_meta_cache ≡ meta = ground (arith, run) in
          cached (
            subst (λ m. Discovered (issuer_key raw) m (env.clock s.calls) s.calls) same
              (subst (λ u. Discovered u s.verifier.as_meta_cache (env.clock s.calls) s.calls) url
                (relax-Discovered _ _ (omega arith) (omega arith) (h.origin present))))
      | after_clock d ↦ Discovers-Obtained _ _ s (ticked env s) meta (omega arith) d got
      | at_once d ↦ Discovers-Obtained _ _ s s meta (omega arith) d got
    ]
