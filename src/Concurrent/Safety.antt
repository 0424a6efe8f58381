-- ===== src/Concurrent/Safety.antt =====
-- However the calls interleave, the keys that a call returns are those of its URI, and recent.
use mathlib.Core.Path.{subst}
use go_mcp_oauth_sdk.Prelude.{
  ℕ, ◌+◌, ◌≤◌, String, ◌≡◌, refl, List, [], ◌∷◌, inl, inr, arith, eqb, Bool-cases,
}
use go_mcp_oauth_sdk.Errors.{ok}
use go_mcp_oauth_sdk.Errors.Laws.{Result-cases}
use go_mcp_oauth_sdk.Config.{OauthConfig}
use go_mcp_oauth_sdk.Env.{Env, IsRandom}
use go_mcp_oauth_sdk.Verifier.{System, new_verifier}
use go_mcp_oauth_sdk.Jwks.{
  decode_reply, is_cached, invalidate_jwks_cache, record_attempt, store_keys, with_outcome,
}
use go_mcp_oauth_sdk.Jwks.Cache.{TtlFits, deadline_recent}
use go_mcp_oauth_sdk.Concurrent.{
  Phase, idle, asked, timed, missed, noted, answered, stored, rejected, returned, has_ended, World,
  update, Event, begin, move, invalidate, advance, perform, perform_all, start,
}
use go_mcp_oauth_sdk.Concurrent.Origins.{
  Fetched-of_answer, HasOrigin-later, cached-Fetched, relax-WasAnswered, relax-IsSound, IsSound,
  HasOrigin, Fetched,
}

module _ {Key Token : Type 0} (env : Env Key Token) (cfg : OauthConfig) where
  -- The cache and every goroutine are as they should be.
  record IsSafe (w : World Key) : Type 0 where
    shared : HasOrigin env cfg w.shared
    phases : (i : ℕ) → IsSound env cfg w.shared.calls (w.phase i)

  module _ (random : IsRandom env) (fits : TtlFits cfg) where
    -- A section of a call keeps what holds of the shared state and of the goroutine.
    record Advanced (s : System Key) (after : System Key × Phase Key) : Type 0 where
      shared : HasOrigin env cfg after.0
      sound : IsSound env cfg after.0.calls after.1
      later : s.calls ≤ after.0.calls

    advance-Advanced :
        (s : System Key) (p : Phase Key)
        → HasOrigin env cfg s
        → IsSound env cfg s.calls p
        → Advanced s (advance env s p)
    unfolding advance record_attempt store_keys with_outcome
    advance-Advanced s idle h k = record { shared = h; sound = tt; later = omega arith }
    advance-Advanced s (asked uri) h k = record {
      shared = HasOrigin-later env cfg s _ h refl refl refl (omega arith) (omega arith);
      sound = (s.calls, omega arith, refl);
      later = omega arith;
    }
    advance-Advanced s (timed uri now) h k = record {
      shared = h;
      sound = elim (Bool-cases (is_cached s.verifier uri now)) [
        | inl hit ↦ rw hit (cached-Fetched env cfg s uri now h hit)
        | inr stale ↦ rw stale k
      ];
      later = omega arith;
    }
    advance-Advanced s (missed uri now) h k = record {
      shared = HasOrigin-later env cfg s _ h refl refl refl (omega arith) (omega arith);
      sound = k;
      later = omega arith;
    }
    advance-Advanced s (noted uri now) h (call, before, read) = record {
      shared = HasOrigin-later env cfg s _ h refl refl refl (omega arith) (omega arith);
      sound = elim (Result-cases (decode_reply (env.get_jwks s.calls uri))) [
        | inl (keys, e) ↦ rw e (record {
          clock_call = call;
          get_call = s.calls;
          order = before;
          before = omega arith;
          read = read;
          reply = e;
        })
        | inr (x, e) ↦ rw e tt
      ];
      later = omega arith;
    }
    advance-Advanced s (answered uri now keys) h k =
        let answer = relax-WasAnswered env cfg (s.calls + 1) (omega arith) k in
        record {
          shared = record {
            configured = h.configured;
            origin = λ _. rw h.configured (
                Fetched-of_answer env cfg _ (deadline_recent env cfg random fits s.calls now)
                  answer);
          };
          sound = answer;
          later = omega arith;
        }
    advance-Advanced s (stored uri now keys) h k = record {
      shared = HasOrigin-later env cfg s _ h refl refl refl (omega arith) (omega arith);
      sound =
          Fetched-of_answer env cfg now (omega arith) (relax-WasAnswered env cfg _ (omega arith) k);
      later = omega arith;
    }
    advance-Advanced s (rejected uri now e) h k = record {
      shared = HasOrigin-later env cfg s _ h refl refl refl (omega arith) (omega arith);
      sound = tt;
      later = omega arith;
    }
    advance-Advanced s (returned uri now r) h k = record {
      shared = h;
      sound = k;
      later = omega arith;
    }

    update-IsSound :
        (f : ℕ → Phase Key) (i : ℕ) (p : Phase Key) (limit : ℕ)
        → ((j : ℕ) → IsSound env cfg limit (f j))
        → IsSound env cfg limit p
        → (j : ℕ) → IsSound env cfg limit (update f i p j)
    update-IsSound f i p limit all here j = elim (Bool-cases (eqb i j)) [
      | inl e ↦ rw e here
      | inr e ↦ rw e (all j)
    ]

    perform-IsSafe : (w : World Key) (e : Event) → IsSafe w → IsSafe (perform env w e)
    unfolding perform invalidate_jwks_cache
    perform-IsSafe w (begin i uri) h = elim (Bool-cases (has_ended (w.phase i))) [
      | inl ended ↦
          rw (ended, perform)
            (record {
              shared = h.shared;
              phases = update-IsSound w.phase i (asked uri) w.shared.calls h.phases tt;
            })
      | inr busy ↦ rw (busy, perform) h
    ]
    perform-IsSafe w (move i) h =
        let a = advance-Advanced w.shared (w.phase i) h.shared (h.phases i) in
        record {
          shared = a.shared;
          phases =
              update-IsSound w.phase i _ _
                (λ j. relax-IsSound env cfg _ _ (w.phase j) a.later (h.phases j)) a.sound;
        }
    perform-IsSafe w (invalidate i) h = elim (Bool-cases (has_ended (w.phase i))) [
      | inl ended ↦
          rw (ended, perform)
            (record {
              shared =
                  HasOrigin-later env cfg w.shared _ h.shared refl refl refl (omega arith)
                    (omega arith);
              phases = h.phases;
            })
      | inr busy ↦ rw (busy, perform) h
    ]

    perform_all-IsSafe :
        (w : World Key) (events : List Event) → IsSafe w → IsSafe (perform_all env w events)
    unfolding perform_all
    perform_all-IsSafe w [] h = h
    perform_all-IsSafe w (e ∷ events) h =
        perform_all-IsSafe (perform env w e) events (perform-IsSafe w e h)

    start-IsSafe : IsSafe (start cfg)
    unfolding new_verifier
    start-IsSafe = record {
      shared = record { configured = refl; origin = λ h. absurd (h refl) };
      phases = λ i. tt;
    }

    -- Whatever calls and invalidations goroutines make on a new verifier, and however these
    -- interleave: the keys that a call returns for a URI came in a successful reply of that very URI,
    -- and the clock, in a reading before that download, stood at most eleven tenths of the time to
    -- live before the reading of the call itself. The random numbers are below their bound, and the
    -- time to live fits.
    pub returned-Fetched :
        (events : List Event) (i : ℕ) (uri : String) (now : ℕ) (keys : List Key)
        → (perform_all env (start cfg) events).phase i ≡ returned uri now (ok keys)
        → Fetched env cfg uri keys now (perform_all env (start cfg) events).shared.calls
    returned-Fetched events i uri now keys e =
        let safe = (perform_all-IsSafe (start cfg) events start-IsSafe).phases i in
        subst (IsSound env cfg (perform_all env (start cfg) events).shared.calls) e safe
