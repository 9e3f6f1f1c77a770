-- ===== src/Daemon/Loop/Progress.antt =====
-- src/daemon/loop_.rs: the loop never gets stuck, and a shutdown ends it.
use wotcrawler.Prelude.{
  ℕ, suc, ◌+◌, ◌≤◌, ◌<◌, ◌≡◌, ◌∙◌, ◌⊎◌, inl, inr, refl, sym, ap, Bool, true, false, List, [], ◌∷◌,
  ◌++◌, some, arith, Bool-cases,
}
use native.Mathlib.Decide.{dec_lt}
use wotcrawler.Prelude.Results.{Result, ok, err}
use wotcrawler.External.{External}
use wotcrawler.Errors.{StoreError}
use wotcrawler.Relay.Health.{Float}
use wotcrawler.Store.{World}
use wotcrawler.Crawl.Frontier.{ClaimedAuthor, claim_batch}
use wotcrawler.Crawl.Workers.{
  Conditions, Handle, running, finished, permits_taken, Site, work, join_in_order, found_finished,
}
use wotcrawler.Daemon.Loop.{
  drain_all, Place, claiming, checked, holding, reaping, emptied, idling, closing, ended, Loop,
  Move, check, stop, claim_fails, claim_none, claim_some, spawn, reap, reap_fails, idle, idle_fails,
  wake, wake_cancelled, close, Background, Other, background, cancel, scan_stale, reclaim_leases,
}
use wotcrawler.Daemon.Loop.Drain.{drain_all-eq}
use wotcrawler.Daemon.Loop.Bounded.{has_ended}

-- How far the loop is from its end once the token is cancelled.
abbrev pub rank : Place → ℕ
rank checked = 5
rank (holding batch) = 4
rank emptied = 4
rank reaping = 3
rank idling = 3
rank claiming = 2
rank closing = 1
rank (ended r) = 0

-- Once the token is cancelled each step of the loop itself leads nearer to its end.
Move-descends :
    (batch_size concurrency : ℕ) {s t : Loop}
    → Move batch_size concurrency s t
    → s.is_cancelled ≡ true
    → (rank t.place < rank s.place) × (t.is_cancelled ≡ true)
Move-descends batch_size concurrency (check at go) off = absurd (cc)
Move-descends batch_size concurrency (stop at go) off = (rw at (omega arith), off)
Move-descends batch_size concurrency (claim_fails locked now left acts e v at claim) off =
    (rw at (omega arith), off)
Move-descends batch_size concurrency (claim_none locked now left acts v at claim) off =
    (rw at (omega arith), off)
Move-descends batch_size concurrency (claim_some locked now left acts c batch v at claim) off =
    (rw at (omega arith), off)
Move-descends batch_size concurrency (spawn batch at room) off = (rw at (omega arith), off)
Move-descends batch_size concurrency (reap seen at joined) off = (rw at (omega arith), off)
Move-descends batch_size concurrency (reap_fails seen e at joined) off = (rw at (omega arith), off)
Move-descends batch_size concurrency (idle at joined) off = (rw at (omega arith), off)
Move-descends batch_size concurrency (idle_fails e at joined) off = (rw at (omega arith), off)
Move-descends batch_size concurrency (wake at) off = (rw at (omega arith), off)
Move-descends batch_size concurrency (wake_cancelled at go) off = (rw at (omega arith), off)
Move-descends batch_size concurrency (close r at joined) off = (rw at (omega arith), off)

none_found : (hs : List Handle) → found_finished [] hs ≡ []
unfolding found_finished
none_found [] = refl
none_found (running batch ∷ hs) = none_found hs
none_found (finished batch ending ∷ hs) = none_found hs

join_none : join_in_order [] ≡ some (ok tt)
unfolding join_in_order
join_none = refl

-- A worker that runs stands somewhere among the handles.
some_running :
    (hs : List Handle)
    → 0 < permits_taken hs
    → (before : List Handle) × (batch : List ClaimedAuthor) × (after : List Handle) × (hs
        ≡ before ++ running batch ∷ after)
some_running [] h = absurd (omega arith)
some_running (running batch ∷ hs) h = ([], batch, hs, refl)
some_running (finished batch ending ∷ hs) h =
    let (before, b, after, e) = some_running hs h in
    (finished batch ending ∷ before, b, after, ap (◌∷◌ (finished batch ending)) e)

module _ (ext : External) (float : Float) (batch_size concurrency want_kind : ℕ)
    (future_clamp_secs follow_cap max_attempts : ℕ) (fallback_enabled : Bool)
    (nip65_max_write_relays : ℕ) where
  abbrev Others : Loop → Loop → Type 0
  Others =
      Other ext float batch_size concurrency want_kind future_clamp_secs follow_cap max_attempts
        fallback_enabled nip65_max_write_relays

  Others-stay :
      {s t : Loop}
      → Others s t
      → s.is_cancelled ≡ true
      → (t.place ≡ s.place) × (t.is_cancelled ≡ true)
  Others-stay (background w) off = (refl, off)
  Others-stay cancel off = (refl, refl)
  Others-stay (scan_stale ttl_secs now left acts) off = (refl, off)
  Others-stay (reclaim_leases age_secs now left acts) off = (refl, off)

  -- A run with `n` steps of the loop itself, among any number of others.
  pub data Run (s : Loop) : ℕ → Loop → Type 0 where
    here : Run s 0 s
    moves : {n : ℕ} {t u : Loop} → Run s n t → Move batch_size concurrency t u → Run s (suc n) u
    others : {n : ℕ} {t u : Loop} → Run s n t → Others t u → Run s n u

  Run-descends :
      {s : Loop} {n : ℕ} {t : Loop}
      → s.is_cancelled ≡ true
      → Run s n t
      → (n + rank t.place ≤ rank s.place) × (t.is_cancelled ≡ true)
  Run-descends off here = (omega arith, off)
  Run-descends off (moves run m) =
      let (far, still) = Run-descends off run in
      let (near, after) = Move-descends batch_size concurrency m still in (omega arith, after)
  Run-descends off (others run o) =
      let (far, still) = Run-descends off run in
      let (same, after) = Others-stay o still in (rw same far, after)

  rank-le : (p : Place) → rank p ≤ 5
  rank-le claiming = omega arith
  rank-le checked = omega arith
  rank-le (holding batch) = omega arith
  rank-le reaping = omega arith
  rank-le emptied = omega arith
  rank-le idling = omega arith
  rank-le closing = omega arith
  rank-le (ended r) = omega arith

  -- A shutdown ends the loop: once the token is cancelled, a run has at most five steps of the loop
  -- itself, whatever workers and timers do in between.
  pub Run-bounded : {s : Loop} {n : ℕ} {t : Loop} → s.is_cancelled ≡ true → Run s n t → n ≤ 5
  Run-bounded {s} off run =
      let far = (Run-descends off run).0 in let top = rank-le s.place in omega arith

  module _
      (c : Conditions ext float want_kind future_clamp_secs follow_cap max_attempts fallback_enabled
        nip65_max_write_relays) where
    -- The loop can go on, or a worker that it waits for can.
    abbrev pub Goes : Loop → Type 0
    Goes s =
        ((t : Loop) × Move batch_size concurrency s t)
        ⊎ ((0 < permits_taken s.site.workers)
            × (t : Site) × Background ext float batch_size concurrency want_kind future_clamp_secs
                follow_cap max_attempts fallback_enabled nip65_max_write_relays s.site t)

    worker-Goes : (s : Loop) → 0 < permits_taken s.site.workers → Goes s
    worker-Goes s busy =
        let (before, batch, after, at) = some_running s.site.workers busy in
        inr (busy, _, work before after batch c at)

    claim-Goes : (s : Loop) → s.place ≡ checked → Goes s
    claim-Goes s at = go (claim_batch [] batch_size 0 w) refl
      where
        w : World
        w = record { db = s.site.db; left = 2; acts = false }

        go :
            (r : Result StoreError (List ClaimedAuthor) × World)
            → claim_batch [] batch_size 0 w ≡ r
            → Goes s
        go (ok [], v) e = inl (_, claim_none [] 0 2 false v at e)
        go (ok (a ∷ batch), v) e = inl (_, claim_some [] 0 2 false a batch v at e)
        go (err x, v) e = inl (_, claim_fails [] 0 2 false x v at e)

    -- The join of all workers, once they have ended.
    drain-Goes :
        (s : Loop)
        → ((r : Result StoreError Unit)
            → drain_all s.site.workers ≡ some r
            → (t : Loop) × Move batch_size concurrency s t)
        → Goes s
    drain-Goes s next = elim (dec_lt 0 (permits_taken s.site.workers)) [
      | yes busy ↦ worker-Goes s busy
      | no free ↦ let (r, e) = (drain_all-eq s.site.workers).0.1 (omega arith) in inl (next r e)
    ]

    -- The loop never gets stuck: with at least one permit, wherever it stands before its end, it can
    -- take a step, or it waits for a worker that runs and that worker can take one.
    pub Loop-Goes : (s : Loop) → 0 < concurrency → has_ended s.place ≡ false → Goes s
    Loop-Goes s room going = go s.place refl
      where
        go : (p : Place) → s.place ≡ p → Goes s
        go claiming at = elim (Bool-cases s.is_cancelled) [
          | inl off ↦ inl (_, stop at off)
          | inr on ↦ inl (_, check at on)
        ]
        go checked at = claim-Goes s at
        go (holding batch) at = elim (dec_lt (permits_taken s.site.workers) concurrency) [
          | yes free ↦ inl (_, spawn batch at free)
          | no full ↦ worker-Goes s (omega arith)
        ]
        go reaping at =
            inl (_, reap [] at (ap join_in_order (none_found s.site.workers) ∙ join_none))
        go emptied at = drain-Goes s (λ r e. idle_or_fail r e)
          where
            idle_or_fail :
                (r : Result StoreError Unit)
                → drain_all s.site.workers ≡ some r
                → (t : Loop) × Move batch_size concurrency s t
            idle_or_fail (ok u) e = (_, idle at e)
            idle_or_fail (err x) e = (_, idle_fails x at e)
        go idling at = inl (_, wake at)
        go closing at = drain-Goes s (λ r e. (_, close r at e))
        go (ended r) at = absurd (not_going (ap has_ended (sym at) ∙ going))
          where
            not_going : true ≡ false → ⊥
            not_going q = cc
