-- ===== src/Concurrent/Progress.antt =====
-- A call ends after at most six moves of its own, whatever the other goroutines do meanwhile.
use go_mcp_oauth_sdk.Prelude.{
  ℕ, ◌+◌, ◌-◌, ◌≤◌, ◌≡◌, ◌≢◌, refl, true, false, List, [], ◌∷◌, inl, inr, arith, eqb, if◌then◌else◌,
  Bool-cases, All,
}
use go_mcp_oauth_sdk.Errors.Laws.{Result-cases}
use go_mcp_oauth_sdk.Env.{Env}
use go_mcp_oauth_sdk.Verifier.{System}
use go_mcp_oauth_sdk.Jwks.{decode_reply, is_cached}
use go_mcp_oauth_sdk.Concurrent.{
  Phase, idle, asked, timed, missed, noted, answered, stored, rejected, returned, has_ended, World,
  Event, begin, move, invalidate, advance, perform, perform_all,
}

-- The moves that a call has before it at most.
abbrev pub left : {Key : Type 0} → Phase Key → ℕ
left idle = 0
left (asked uri) = 6
left (timed uri now) = 5
left (missed uri now) = 4
left (noted uri now) = 3
left (answered uri now keys) = 2
left (stored uri now keys) = 1
left (rejected uri now e) = 1
left (returned uri now r) = 0

abbrev pub moves_of : ℕ → List Event → ℕ
moves_of i [] = 0
moves_of i (move j ∷ events) = (if eqb j i then 1 else 0) + moves_of i events
moves_of i (_ ∷ events) = moves_of i events

-- The event begins no call of the goroutine.
abbrev pub BeginsNone : ℕ → Event → Type 0
BeginsNone i (begin j uri) = j ≢ i
BeginsNone i _ = Unit

has_ended_of_left : {Key : Type 0} (p : Phase Key) → left p ≤ 0 → has_ended p ≡ true
has_ended_of_left idle h = refl
has_ended_of_left (asked uri) h = ground arith
has_ended_of_left (timed uri now) h = ground arith
has_ended_of_left (missed uri now) h = ground arith
has_ended_of_left (noted uri now) h = ground arith
has_ended_of_left (answered uri now keys) h = ground arith
has_ended_of_left (stored uri now keys) h = ground arith
has_ended_of_left (rejected uri now e) h = ground arith
has_ended_of_left (returned uri now r) h = refl

left-bound : {Key : Type 0} (p : Phase Key) → left p ≤ 6
left-bound idle = omega arith
left-bound (asked uri) = omega arith
left-bound (timed uri now) = omega arith
left-bound (missed uri now) = omega arith
left-bound (noted uri now) = omega arith
left-bound (answered uri now keys) = omega arith
left-bound (stored uri now keys) = omega arith
left-bound (rejected uri now e) = omega arith
left-bound (returned uri now r) = omega arith

module _ {Key Token : Type 0} (env : Env Key Token) where
  advance-left : (s : System Key) (p : Phase Key) → left (advance env s p).1 ≤ left p - 1
  unfolding advance
  advance-left s idle = omega arith
  advance-left s (asked uri) = omega arith
  advance-left s (timed uri now) = elim (Bool-cases (is_cached s.verifier uri now)) [
    | inl hit ↦ rw hit (omega arith)
    | inr stale ↦ rw stale (omega arith)
  ]
  advance-left s (missed uri now) = omega arith
  advance-left s (noted uri now) = elim (Result-cases (decode_reply (env.get_jwks s.calls uri))) [
    | inl (keys, e) ↦ rw e (omega arith)
    | inr (x, e) ↦ rw e (omega arith)
  ]
  advance-left s (answered uri now keys) = omega arith
  advance-left s (stored uri now keys) = omega arith
  advance-left s (rejected uri now e) = omega arith
  advance-left s (returned uri now r) = omega arith

  perform-left :
      (w : World Key) (e : Event) (i : ℕ)
      → BeginsNone i e
      → left ((perform env w e).phase i) ≤ left (w.phase i) - moves_of i (e ∷ [])
  unfolding perform
  perform-left w (begin j uri) i other = elim (Bool-cases (has_ended (w.phase j))) [
    | inl ended ↦
        let apart : eqb j i ≡ false = ground arith in rw (ended, perform, apart) (omega arith)
    | inr busy ↦ rw (busy, perform) (omega arith)
  ]
  perform-left w (move j) i h = elim (Bool-cases (eqb j i)) [
    | inl own ↦
        let same : j ≡ i = ground arith in
        rw (own, same) (omega (arith, advance-left w.shared (w.phase i)))
    | inr other ↦ rw other (omega arith)
  ]
  perform-left w (invalidate j) i h = elim (Bool-cases (has_ended (w.phase j))) [
    | inl ended ↦ rw (ended, perform) (omega arith)
    | inr busy ↦ rw (busy, perform) (omega arith)
  ]

  moves_of-cons :
      (i : ℕ) (e : Event) (events : List Event)
      → moves_of i (e ∷ events) ≡ moves_of i (e ∷ []) + moves_of i events
  moves_of-cons i (begin j uri) events = omega arith
  moves_of-cons i (move j) events = omega arith
  moves_of-cons i (invalidate j) events = omega arith

  left-perform_all :
      (w : World Key) (events : List Event) (i : ℕ)
      → All (BeginsNone i) events
      → left ((perform_all env w events).phase i) ≤ left (w.phase i) - moves_of i events
  unfolding perform_all
  left-perform_all w [] i h = omega arith
  left-perform_all w (e ∷ events) i (now, later) = omega (
    arith,
    left-perform_all (perform env w e) events i later,
    perform-left w e i now,
    moves_of-cons i e events,
  )

  -- In any run from any state in which a goroutine moves six times and begins no new call, its
  -- call has ended, whatever the other goroutines begin, do and invalidate in between.
  pub perform_all-has_ended :
      (w : World Key) (events : List Event) (i : ℕ)
      → All (BeginsNone i) events
      → 6 ≤ moves_of i events
      → has_ended ((perform_all env w events).phase i) ≡ true
  perform_all-has_ended w events i h enough =
      has_ended_of_left _ (omega (arith, left-perform_all w events i h, left-bound (w.phase i)))
