-- ===== src/Concurrent/Alone.antt =====
-- A call without another one in between is the sequential `fetchJWKSet`.
use go_mcp_oauth_sdk.Prelude.{ℕ, zero, suc, String, ◌≡◌, ◌≢◌, refl, ap, ◌∙◌, List, [], ◌∷◌, arith}
use go_mcp_oauth_sdk.Env.{Env}
use go_mcp_oauth_sdk.Verifier.{System}
use go_mcp_oauth_sdk.Jwks.{fetch_jwk_set, record_attempt, store_keys, with_outcome}
use go_mcp_oauth_sdk.Jwks.Steps.{ending, from_cache, downloaded, failed}
use go_mcp_oauth_sdk.Concurrent.{
  Phase, asked, returned, World, update, Event, move, advance, perform, perform_all,
}

abbrev pub moves : ℕ → ℕ → List Event
moves zero i = []
moves (suc n) i = move i ∷ moves n i

module _ {Key Token : Type 0} (env : Env Key Token) where
  abbrev advance_all : ℕ → System Key × Phase Key → System Key × Phase Key
  advance_all zero x = x
  advance_all (suc n) x = advance_all n (advance env x.0 x.1)

  update-same : (f : ℕ → Phase Key) (i : ℕ) (p : Phase Key) → update f i p i ≡ p
  update-same f i p = ground arith

  update-other : (f : ℕ → Phase Key) (i j : ℕ) (p : Phase Key) → i ≢ j → update f i p j ≡ f j
  update-other f i j p ne = ground arith

  -- The moves of one goroutine change its phase and the shared state, and no other phase.
  perform_all-moves :
      (w : World Key) (n i : ℕ)
      → ((perform_all env w (moves n i)).shared ≡ (advance_all n (w.shared, w.phase i)).0)
        × ((perform_all env w (moves n i)).phase i ≡ (advance_all n (w.shared, w.phase i)).1)
        × ((j : ℕ) → i ≢ j → (perform_all env w (moves n i)).phase j ≡ w.phase j)
  unfolding perform_all perform
  perform_all-moves w zero i = (refl, refl, λ j ne. refl)
  perform_all-moves w (suc n) i =
      let w' = perform env w (move i) in
      let (a, b, c) = perform_all-moves w' n i in
      let same = update-same w.phase i (advance env w.shared (w.phase i)).1 in
      let swap = ap (λ p. advance_all n (w'.shared, p)) same in
      (
        a ∙ ap (λ x. x.0) swap,
        b ∙ ap (λ x. x.1) swap,
        λ j ne. c j ne ∙ update-other w.phase i j _ ne,
      )

  advance_all-fetch :
      (s : System Key) (uri : String)
      → advance_all 6 (s, asked uri) ≡ (
        (fetch_jwk_set env uri s).1,
        returned uri (env.clock s.calls) (fetch_jwk_set env uri s).0,
      )
  unfolding advance record_attempt store_keys with_outcome
  advance_all-fetch s uri = elim (ending env uri s) [
    | from_cache hit e ↦ rw (e, hit) refl
    | downloaded keys stale reply e ↦ rw (e, stale, reply) refl
    | failed x stale reply e ↦ rw (e, stale, reply) refl
  ]

  -- Six moves in a row of a goroutine that was asked for a URI are `fetchJWKSet`: they leave the
  -- state that it leaves, return what it returns, and change no other goroutine.
  pub perform_all-fetch :
      (w : World Key) (i : ℕ) (uri : String)
      → w.phase i ≡ asked uri
      → ((perform_all env w (moves 6 i)).shared ≡ (fetch_jwk_set env uri w.shared).1)
        × ((perform_all env w (moves 6 i)).phase i
            ≡ returned uri (env.clock w.shared.calls) (fetch_jwk_set env uri w.shared).0)
        × ((j : ℕ) → i ≢ j → (perform_all env w (moves 6 i)).phase j ≡ w.phase j)
  perform_all-fetch w i uri e =
      let (a, b, c) = perform_all-moves w 6 i in
      let run = ap (λ p. advance_all 6 (w.shared, p)) e ∙ advance_all-fetch w.shared uri in
      (a ∙ ap (λ x. x.0) run, b ∙ ap (λ x. x.1) run, c)
