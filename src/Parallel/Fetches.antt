-- ===== src/Parallel/Fetches.antt =====
-- Fetching keys while other goroutines run: the keys are those of the URI, and recent.
use go_mcp_oauth_sdk.Prelude.{
  ℕ, ◌+◌, ◌≤◌, ◌<◌, String, ◌≡◌, refl, sym, Option, none, some, List, inl, inr, arith, Bool-cases,
}
use mathlib.Core.Path.{subst}
use go_mcp_oauth_sdk.Errors.{Result, ok, err}
use go_mcp_oauth_sdk.Errors.Laws.{Result-cases}
use go_mcp_oauth_sdk.Config.{OauthConfig}
use go_mcp_oauth_sdk.Env.{Env, IsRandom}
use go_mcp_oauth_sdk.Verifier.{next_call, ◌>>=◌}
use go_mcp_oauth_sdk.Jwks.{
  time_now, is_cached, decode_reply, record_attempt, store_keys, with_outcome,
}
use go_mcp_oauth_sdk.Jwks.Cache.{TtlFits, deadline_recent}
use go_mcp_oauth_sdk.Concurrent.Origins.{
  Fetched, relax-Fetched, WasAnswered, relax-WasAnswered, Fetched-of_answer, cached-Fetched,
}
use go_mcp_oauth_sdk.Program.{Program, atomic}
use go_mcp_oauth_sdk.Program.Safe.{Yields, OnSuccess, Safe-after, Safe-bind}
use go_mcp_oauth_sdk.Parallel.{
  lookup_keys, get_keys, with_outcome_after, use_cached_keys, fetch_keys_program,
}
use go_mcp_oauth_sdk.Parallel.Origins.{IsIntact, IsIntact-keys, IsIntact-later}

module _ {Key Token : Type 0} (env : Env Key Token) (cfg : OauthConfig) where
  -- The clock gave `now` in a call since `first`, before `limit`.
  abbrev pub ReadSince : ℕ → ℕ → ℕ → Type 0
  ReadSince first limit now = (call : ℕ) × (first ≤ call) × (call < limit) × (env.clock call ≡ now)

  -- `keys` came in a reply to a GET of `uri`, and the clock stood, in a reading before that, at most
  -- eleven tenths of the time to live before a reading of it since `first`.
  pub record Fresh (first : ℕ) (uri : String) (limit : ℕ) (keys : List Key) : Type 0 where
    pub now_call : ℕ
    pub since : first ≤ now_call
    pub until : now_call < limit
    pub fetched : Fetched env cfg uri keys (env.clock now_call) limit

  pub relax-Fresh :
      {first : ℕ} {uri : String} {limit : ℕ} {keys : List Key} (first' limit' : ℕ)
      → first' ≤ first
      → limit ≤ limit'
      → Fresh first uri limit keys
      → Fresh first' uri limit' keys
  relax-Fresh first' limit' earlier later f = record {
    now_call = f.now_call;
    since = omega (arith, f.since);
    until = omega (arith, f.until);
    fetched = relax-Fetched env cfg (env.clock f.now_call) limit' (omega arith) later f.fetched;
  }

  Fresh-of_Fetched :
      (first n : ℕ) (uri : String) (now : ℕ) (keys : List Key)
      → ReadSince first n now
      → Fetched env cfg uri keys now n
      → Fresh first uri n keys
  Fresh-of_Fetched first n uri now keys (call, since, until, read) f = record {
    now_call = call;
    since = since;
    until = until;
    fetched = subst (λ t. Fetched env cfg uri keys t n) (sym read) f;
  }

  abbrev Cached : String → ℕ → ℕ → Option (List Key) → Type 0
  Cached uri now limit none = Unit {0}
  Cached uri now limit (some keys) = Fetched env cfg uri keys now limit

  pub clock-Safe : (n : ℕ) → Yields (IsIntact env cfg) (ReadSince n) n (atomic (time_now env))
  unfolding atomic time_now next_call ◌>>=◌
  clock-Safe n =
      λ s i le. (IsIntact-later env cfg s _ i (ground arith), (s.calls, le, omega arith, refl))

  lookup_keys-Safe :
      (n : ℕ) (uri : String) (now : ℕ)
      → Yields (IsIntact env cfg) (Cached uri now) n (atomic (lookup_keys uri now))
  unfolding atomic lookup_keys
  lookup_keys-Safe n uri now = λ s i le. (
    IsIntact-later env cfg s _ i (ground arith),
    elim (Bool-cases (is_cached s.verifier uri now)) [
      | inl hit ↦ rw hit (cached-Fetched env cfg s uri now i.keys hit)
      | inr stale ↦ rw stale tt
    ],
  )

  record_attempt-Safe :
      (n now : ℕ) → Yields (IsIntact env cfg) (λ m _. Unit {0}) n (atomic (record_attempt env now))
  unfolding atomic record_attempt
  record_attempt-Safe n now = λ s i le. (IsIntact-later env cfg s _ i (ground arith), tt)

  get_keys-Safe :
      (first n : ℕ) (uri : String) (now : ℕ)
      → ReadSince first n now
      → Yields
          (IsIntact env cfg)
          (λ m keys. WasAnswered env cfg m uri now keys)
          n
          (atomic (get_keys env uri))
  unfolding atomic get_keys
  get_keys-Safe first n uri now (call, since, until, read) = λ s i le. (
    IsIntact-later env cfg s _ i (ground arith),
    elim (Result-cases (decode_reply (env.get_jwks s.calls uri))) [
      | inl (keys, e) ↦ rw e (record {
        clock_call = call;
        get_call = s.calls;
        order = omega arith;
        before = omega arith;
        read = read;
        reply = e;
      })
      | inr (x, e) ↦ rw e tt
    ],
  )

  module _ (random : IsRandom env) (fits : TtlFits cfg) where
    store_keys-Safe :
        (n : ℕ) (uri : String) (now : ℕ) (keys : List Key)
        → WasAnswered env cfg n uri now keys
        → Yields
            (IsIntact env cfg)
            (λ m _. WasAnswered env cfg m uri now keys)
            n
            (atomic (store_keys env uri now keys))
    unfolding atomic store_keys
    store_keys-Safe n uri now keys answer = λ s i le.
        let later = relax-WasAnswered env cfg (s.calls + 1) (omega arith) answer in
        (
          IsIntact-keys env cfg s _ i
              (record {
                configured = i.keys.configured;
                origin = λ _. rw i.keys.configured (
                    Fetched-of_answer env cfg _ (deadline_recent env cfg random fits s.calls now)
                      later);
              })
              (refl, refl, refl) (omega arith),
          later,
        )

    -- The deferred function changes the health record only.
    outcome-Safe :
        (Q : ℕ → List Key → Type 0)
        → ((m m' : ℕ) (keys : List Key) → m ≤ m' → Q m keys → Q m' keys)
        → (m : ℕ) (r : Result (List Key)) → OnSuccess (IsIntact env cfg) Q m r
        → Yields (IsIntact env cfg) Q m (atomic (λ s. with_outcome env (r, s)))
    unfolding atomic with_outcome
    outcome-Safe Q mono m (ok keys) q = λ s i le.
        (IsIntact-later env cfg s _ i (ground arith), mono m (s.calls + 1) keys (omega arith) q)
    outcome-Safe Q mono m (err e) q = λ s i le. (IsIntact-later env cfg s _ i (ground arith), tt)

    with_outcome-Safe :
        (Q : ℕ → List Key → Type 0) (n : ℕ) (p : Program Key (List Key))
        → ((m m' : ℕ) (keys : List Key) → m ≤ m' → Q m keys → Q m' keys)
        → Yields (IsIntact env cfg) Q n p
        → Yields (IsIntact env cfg) Q n (with_outcome_after env p)
    unfolding with_outcome_after
    with_outcome-Safe Q n p mono h =
        Safe-after (IsIntact env cfg) (OnSuccess (IsIntact env cfg) Q)
          (OnSuccess (IsIntact env cfg) Q) n p _ h (λ m r le q. outcome-Safe Q mono m r q)

    relax-ReadSince :
        {first n now : ℕ} (m : ℕ) → n ≤ m → ReadSince first n now → ReadSince first m now
    relax-ReadSince m le (call, since, until, read) = (call, since, omega arith, read)

    -- A download gives keys that were fetched since the clock gave `now`.
    download-Safe :
        (first n : ℕ) (uri : String) (now : ℕ)
        → ReadSince first n now
        → Yields (IsIntact env cfg) (Fresh first uri) n (use_cached_keys env uri now none)
    unfolding use_cached_keys
    download-Safe first n uri now read =
        let I = IsIntact env cfg in
        Safe-bind I (λ m _. Unit {0}) (Fresh first uri) n _ _ (record_attempt-Safe n now)
          (λ m _ le _.
            let read_m = relax-ReadSince m le read in
            with_outcome-Safe (Fresh first uri) m _
              (λ k k' keys later f. relax-Fresh first k' (omega arith) later f)
              (Safe-bind I (λ k keys. WasAnswered env cfg k uri now keys) (Fresh first uri) m _ _
                (get_keys-Safe first m uri now read_m)
                (λ k keys le' answer.
                  Safe-bind I (λ k _. WasAnswered env cfg k uri now keys) (Fresh first uri) k _ _
                    (store_keys-Safe k uri now keys answer)
                    (λ l _ le'' stored.
                      Fresh-of_Fetched first l uri now keys (relax-ReadSince l (omega arith) read_m)
                        (Fetched-of_answer env cfg now (omega arith) stored)))))

    use_cached_keys-Safe :
        (first n : ℕ) (uri : String) (now : ℕ) (cached : Option (List Key))
        → ReadSince first n now
        → Cached uri now n cached
        → Yields (IsIntact env cfg) (Fresh first uri) n (use_cached_keys env uri now cached)
    unfolding use_cached_keys
    use_cached_keys-Safe first n uri now (some keys) read f =
        Fresh-of_Fetched first n uri now keys read f
    use_cached_keys-Safe first n uri now none read _ = download-Safe first n uri now read

    -- Keys that `fetchJWKSet` returns were fetched from that URI, and are recent as of a reading of
    -- the clock in this call.
    pub fetch_keys-Safe :
        (n : ℕ) (uri : String)
        → Yields (IsIntact env cfg) (Fresh n uri) n (fetch_keys_program env uri)
    unfolding fetch_keys_program
    fetch_keys-Safe n uri =
        let I = IsIntact env cfg in
        Safe-bind I (ReadSince n) (Fresh n uri) n _ _ (clock-Safe n) (λ m now le read.
          Safe-bind I (Cached uri now) (Fresh n uri) m _ _ (lookup_keys-Safe m uri now)
            (λ k cached le' f.
              use_cached_keys-Safe n k uri now cached (relax-ReadSince k le' read) f))
