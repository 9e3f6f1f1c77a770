-- ===== src/Relay/Health/Probes.antt =====
-- src/relay/health.rs: the atomic probe.
use Prim.Native.String.{String}
use wotcrawler.Prelude.{
  ℕ, ◌+◌, ◌<◌, ◌≡◌, refl, inl, inr, true, false, List, [], ◌∷◌, some, Bool-cases, if◌then◌else◌,
  arith, All,
}
use wotcrawler.Prelude.Maps.{lookup, string_eq, lookup-insert, lookup-insert_self}
use wotcrawler.Relay.Health.{
  Float, probe_interval, RelayHealthRegistry, score, probe_due, route_allowed, mark_attempt,
  try_mark_attempt,
}

module _ (float : Float) where
  open float use {F, ge}

  -- The one operation routes exactly when the test does, and marks the attempt exactly when it
  -- routes.
  pub try_mark_attempt-eq :
      (h : RelayHealthRegistry float) (relay : String) (threshold : F) (now : ℕ)
      → try_mark_attempt float h relay threshold now ≡ (
          if route_allowed float h relay threshold now
          then (true, mark_attempt float h relay now)
          else (false, h))
  unfolding try_mark_attempt route_allowed mark_attempt
  try_mark_attempt-eq h relay threshold now =
      elim (Bool-cases (ge (score float h relay) threshold)) [
        | inl e ↦ rw (try_mark_attempt, route_allowed, e) refl
        | inr e ↦ elim (Bool-cases (probe_due float (lookup relay h.last_probe) now)) [
          | inl d ↦ rw (try_mark_attempt, route_allowed, e, d) refl
          | inr d ↦ rw (try_mark_attempt, route_allowed, e, d) refl
        ]
      ]

  -- Attempts on relays, in the order in which they take the lock.
  abbrev pub attempts :
      F → RelayHealthRegistry float → List (String × ℕ) → RelayHealthRegistry float
  attempts threshold h [] = h
  attempts threshold h ((relay, now) ∷ calls) =
      attempts threshold (try_mark_attempt float h relay threshold now).1 calls

  module _ (relay : String) (threshold : F) (t : ℕ) where
    -- The relay is degraded, and its last attempt was at `t`.
    abbrev IsClaimed : RelayHealthRegistry float → Type 0
    IsClaimed h =
        (ge (score float h relay) threshold ≡ false) × (lookup relay h.last_probe ≡ some t)

    refused :
        (h : RelayHealthRegistry float) (now : ℕ)
        → IsClaimed h
        → now < t + probe_interval
        → try_mark_attempt float h relay threshold now ≡ (false, h)
    unfolding try_mark_attempt
    refused h now (low, last) soon = rw (try_mark_attempt, low, last) (ground arith)

    mark_other :
        (h : RelayHealthRegistry float) (j : String) (now : ℕ)
        → IsClaimed h
        → string_eq.beq j relay ≡ false
        → IsClaimed (mark_attempt float h j now)
    unfolding mark_attempt score
    mark_other h j now c differ = (c.0, rw (lookup-insert, differ) c.1)

    mark_self :
        (h : RelayHealthRegistry float)
        → ge (score float h relay) threshold ≡ false
        → IsClaimed (mark_attempt float h relay t)
    unfolding mark_attempt score
    mark_self h low = (low, lookup-insert_self relay t h.last_probe)

    attempt-IsClaimed :
        (h : RelayHealthRegistry float) (j : String) (now : ℕ)
        → IsClaimed h
        → now < t + probe_interval
        → IsClaimed (try_mark_attempt float h j threshold now).1
    attempt-IsClaimed h j now c soon = elim (Bool-cases (string_eq.beq j relay)) [
      | inl same ↦
          let e : j ≡ relay = (string_eq.beq_iff j relay).0 same in rw (e, refused h now c soon) c
      | inr differ ↦ elim (Bool-cases (route_allowed float h j threshold now)) [
        | inl routed ↦
            rw (try_mark_attempt-eq h j threshold now, routed) (mark_other h j now c differ)
        | inr not_routed ↦ rw (try_mark_attempt-eq h j threshold now, not_routed) c
      ]
    ]

    attempts-IsClaimed :
        (h : RelayHealthRegistry float) (calls : List (String × ℕ))
        → IsClaimed h
        → All (λ call. call.1 < t + probe_interval) calls
        → IsClaimed (attempts threshold h calls)
    attempts-IsClaimed h [] c early = c
    attempts-IsClaimed h ((j, now) ∷ calls) c early =
        attempts-IsClaimed (try_mark_attempt float h j threshold now).1 calls
          (attempt-IsClaimed h j now c early.0) early.1

  claims :
      (h : RelayHealthRegistry float) (relay : String) (threshold : F) (t : ℕ)
      → ge (score float h relay) threshold ≡ false
      → (try_mark_attempt float h relay threshold t).0 ≡ true
      → IsClaimed relay threshold t (try_mark_attempt float h relay threshold t).1
  claims h relay threshold t low won = elim (Bool-cases (route_allowed float h relay threshold t)) [
    | inl routed ↦
        rw (try_mark_attempt-eq h relay threshold t, routed) (mark_self relay threshold t h low)
    | inr not_routed ↦
        absurd (lost (rw (try_mark_attempt-eq h relay threshold t, not_routed) at won))
  ]
    where
      lost : false ≡ true → ⊥
      lost q = cc

  -- Of the callers that find a relay below the threshold one claims the probe: once it did at `t`,
  -- then whatever relays are attempted before a minute has passed, every further attempt on this
  -- relay before then is refused, and changes nothing.
  pub try_mark_attempt_exclusive :
      (h : RelayHealthRegistry float) (relay : String) (threshold : F) (t : ℕ)
      (calls : List (String × ℕ)) (now : ℕ)
      → ge (score float h relay) threshold ≡ false
      → (try_mark_attempt float h relay threshold t).0 ≡ true
      → All (λ call. call.1 < t + probe_interval) calls
      → now < t + probe_interval
      → let later = attempts threshold (try_mark_attempt float h relay threshold t).1 calls in
        try_mark_attempt float later relay threshold now ≡ (false, later)
  try_mark_attempt_exclusive h relay threshold t calls now low won early soon =
      refused relay threshold t
        (attempts threshold (try_mark_attempt float h relay threshold t).1 calls) now
        (attempts-IsClaimed relay threshold t (try_mark_attempt float h relay threshold t).1 calls
          (claims h relay threshold t low won) early)
        soon
