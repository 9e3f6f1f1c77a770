-- ===== src/Daemon/Loop/Bounded.antt =====
-- src/daemon/loop_.rs: the permits that bound the workers, and the flag of the readiness.
use wotcrawler.Prelude.{
  ℕ, ◌+◌, ◌≤◌, ◌≡◌, ◌∙◌, refl, ap, Bool, true, false, not, List, [], ◌∷◌, ◌++◌, arith,
}
use wotcrawler.External.{External}
use wotcrawler.Relay.Health.{Float}
use wotcrawler.Store.{Db}
use wotcrawler.Crawl.Frontier.{ClaimedAuthor}
use wotcrawler.Crawl.Workers.{
  Ending, panicked, returned, applied, run_worker, Handle, running, finished, permits_taken, work,
  panic, still_running,
}
use wotcrawler.Daemon.Loop.{
  Place, claiming, checked, holding, reaping, emptied, idling, closing, ended, Loop, Move, check,
  stop, claim_fails, claim_none, claim_some, spawn, reap, reap_fails, idle, idle_fails, wake,
  wake_cancelled, close, Step, move, other, background, cancel, scan_stale, reclaim_leases,
  Reachable, start, step,
}

abbrev pub has_ended : Place → Bool
has_ended claiming = false
has_ended checked = false
has_ended (holding batch) = false
has_ended reaping = false
has_ended emptied = false
has_ended idling = false
has_ended closing = false
has_ended (ended r) = true

permits-append :
    (xs ys : List Handle) → permits_taken (xs ++ ys) ≡ permits_taken xs + permits_taken ys
permits-append [] ys = omega arith
permits-append (running batch ∷ hs) ys = omega (arith, permits-append hs ys)
permits-append (finished batch ending ∷ hs) ys = permits-append hs ys

permits-reap :
    (seen : List Bool) (hs : List Handle) → permits_taken (still_running seen hs) ≡ permits_taken hs
unfolding still_running
permits-reap seen [] = refl
permits-reap seen (running batch ∷ hs) = omega (arith, permits-reap seen hs)
permits-reap [] (finished batch ending ∷ hs) = permits-reap [] hs
permits-reap (true ∷ seen) (finished batch ending ∷ hs) = permits-reap seen hs
permits-reap (false ∷ seen) (finished batch ending ∷ hs) = permits-reap seen hs

-- A worker that ends gives its permit back.
permits_freed :
    (before after : List Handle) (batch : List ClaimedAuthor) (ending : Ending) (hs : List Handle)
    → hs ≡ before ++ running batch ∷ after
    → permits_taken (before ++ finished batch ending ∷ after) ≤ permits_taken hs
permits_freed before after batch ending hs e =
    let was = ap permits_taken e ∙ permits-append before (running batch ∷ after) in
    let now = permits-append before (finished batch ending ∷ after) in omega arith

-- No more workers than permits, and the flag of the readiness stands until the end.
pub record IsBounded (concurrency : ℕ) (s : Loop) : Type 0 where
  pub workers : permits_taken s.site.workers ≤ concurrency
  pub alive : s.loop_alive ≡ not (has_ended s.place)

Move-IsBounded :
    (batch_size concurrency : ℕ) {s t : Loop}
    → Move batch_size concurrency s t
    → IsBounded concurrency s
    → IsBounded concurrency t
Move-IsBounded batch_size concurrency {s} (check at go) h = record {
  workers = h.workers;
  alive = h.alive ∙ rw at refl;
}
Move-IsBounded batch_size concurrency {s} (stop at off) h = record {
  workers = h.workers;
  alive = h.alive ∙ rw at refl;
}
Move-IsBounded batch_size concurrency (claim_fails locked now left acts e v at claim) h = record {
  workers = h.workers;
  alive = refl;
}
Move-IsBounded batch_size concurrency (claim_none locked now left acts v at claim) h = record {
  workers = h.workers;
  alive = h.alive ∙ rw at refl;
}
Move-IsBounded batch_size concurrency (claim_some locked now left acts c batch v at claim) h =
    record { workers = h.workers; alive = h.alive ∙ rw at refl }
Move-IsBounded batch_size concurrency {s} (spawn batch at room) h = record {
  workers = let more = permits-append s.site.workers (running batch ∷ []) in omega arith;
  alive = h.alive ∙ rw at refl;
}
Move-IsBounded batch_size concurrency {s} (reap seen at joined) h = record {
  workers = let same = permits-reap seen s.site.workers in let b = h.workers in omega arith;
  alive = h.alive ∙ rw at refl;
}
Move-IsBounded batch_size concurrency (reap_fails seen e at joined) h = record {
  workers = h.workers;
  alive = refl;
}
Move-IsBounded batch_size concurrency (idle at joined) h = record {
  workers = omega arith;
  alive = h.alive ∙ rw at refl;
}
Move-IsBounded batch_size concurrency (idle_fails e at joined) h = record {
  workers = omega arith;
  alive = refl;
}
Move-IsBounded batch_size concurrency (wake at) h = record {
  workers = h.workers;
  alive = h.alive ∙ rw at refl;
}
Move-IsBounded batch_size concurrency (wake_cancelled at off) h = record {
  workers = h.workers;
  alive = h.alive ∙ rw at refl;
}
Move-IsBounded batch_size concurrency (close r at joined) h = record {
  workers = omega arith;
  alive = refl;
}

module _ (ext : External) (float : Float) (batch_size concurrency want_kind : ℕ)
    (future_clamp_secs follow_cap max_attempts : ℕ) (fallback_enabled : Bool)
    (nip65_max_write_relays : ℕ) where
  abbrev Steps : Loop → Loop → Type 0
  Steps =
      Step ext float batch_size concurrency want_kind future_clamp_secs follow_cap max_attempts
        fallback_enabled nip65_max_write_relays

  Step-IsBounded : {s t : Loop} → Steps s t → IsBounded concurrency s → IsBounded concurrency t
  Step-IsBounded (move m) h = Move-IsBounded batch_size concurrency m h
  Step-IsBounded {s} (other (background (work before after batch c at))) h = record {
    workers =
        let less =
          permits_freed before after batch
            (returned (
              applied
                (run_worker ext float want_kind future_clamp_secs follow_cap max_attempts
                  fallback_enabled nip65_max_write_relays c batch s.site.db).0))
            s.site.workers at in
        let most = h.workers in omega arith;
    alive = h.alive;
  }
  Step-IsBounded {s} (other (background (panic before after batch c at))) h = record {
    workers =
        let less = permits_freed before after batch panicked s.site.workers at in
        let most = h.workers in omega arith;
    alive = h.alive;
  }
  Step-IsBounded (other cancel) h = record { workers = h.workers; alive = h.alive }
  Step-IsBounded (other (scan_stale ttl_secs now left acts)) h = record {
    workers = h.workers;
    alive = h.alive;
  }
  Step-IsBounded (other (reclaim_leases age_secs now left acts)) h = record {
    workers = h.workers;
    alive = h.alive;
  }

  -- In every state that the loop can reach, no more workers run than there are permits, and the
  -- readiness flag is set exactly until the loop ends, in an error too.
  pub Reachable-IsBounded :
      (anchor_pubkey : List ℕ) (first : Db) {s : Loop}
      → Reachable ext float batch_size concurrency want_kind future_clamp_secs follow_cap
          max_attempts fallback_enabled nip65_max_write_relays anchor_pubkey first s
      → IsBounded concurrency s
  Reachable-IsBounded anchor_pubkey first (start left acts n v off begun) = record {
    workers = omega arith;
    alive = refl;
  }
  Reachable-IsBounded anchor_pubkey first (step r st) =
      Step-IsBounded st (Reachable-IsBounded anchor_pubkey first r)
