-- ===== src/Daemon/Loop/Tests.antt =====
-- Runs of the loop to a shutdown and to an error, and the theorems on them at concrete inputs.
use wotcrawler.Prelude.{ℕ, ◌≤◌, ◌≡◌, ◌↔◌, refl, true, false, List, [], ◌∷◌, some, Member, arith}
use wotcrawler.Prelude.Maps.{lookup, insert}
use wotcrawler.Prelude.Results.{Result, ok, err}
use wotcrawler.Errors.{client, StoreError, sqlx, invalid_pubkey}
use wotcrawler.Ingest.Gate.{ingest_events}
use wotcrawler.Relay.Client.{acquire_validated_lists}
use wotcrawler.Store.{Row}
use wotcrawler.Store.Pubkeys.{upsert_pubkey, set_fetch_status}
use wotcrawler.Crawl.Frontier.{
  is_in_progress, seed_anchor, claim_batch, reclaim_stale_on_startup, reclaim_stale_by_ttl,
  reclaim_in_progress_older_than, requeue_or_fail,
}
use wotcrawler.Crawl.Apply.{process_batch}
use wotcrawler.Crawl.Sample.{
  key, ext, ext-BindsId, round_trip, float, health, empty, empty-WellFormed,
}
use wotcrawler.Crawl.Workers.{
  CrawlStats, Conditions, Handle, running, finished, returned, panicked, join_in_order,
  still_running, found_finished, start_up, run_worker, permits_taken, work,
}
use wotcrawler.Daemon.Loop.{
  drain_all, checked, holding, ended, Loop, check, stop, claim_none, claim_some, spawn, reap, idle,
  wake_cancelled, close, move, other, background, cancel, reclaim_leases, Reachable, start, step,
}
use wotcrawler.Daemon.Loop.Drain.{drain_all-eq}
use wotcrawler.Daemon.Loop.Settled.{Reachable-settled}
use wotcrawler.Daemon.Loop.Bounded.{IsBounded, Reachable-IsBounded}
use wotcrawler.Daemon.Loop.Progress.{Run, here, moves, others, Run-bounded, Goes, Loop-Goes}

program : Unit {0}
unfolding run_worker start_up join_in_order still_running found_finished seed_anchor claim_batch
    reclaim_stale_on_startup reclaim_stale_by_ttl reclaim_in_progress_older_than process_batch
    acquire_validated_lists ingest_events upsert_pubkey set_fetch_status requeue_or_fail lookup
    insert drain_all
program = tt

-- The fetch fails, so that the author is to be retried.
abbrev unanswered : Conditions ext float 3 60 10 3 true 3
unanswered = record {
  health = health;
  now = 500;
  clock = 500_000_001;
  union_fetch = err client;
  fallback_fetch = λ author relays. err client;
  relay_list_fetch = λ author. err client;
  left = 30;
  acts = false;
}

abbrev stats : CrawlStats
stats = record { reclaimed_on_startup = 0; authors_claimed = 1; batches_processed = 1 }

-- The token is cancelled while a worker runs; the last join waits for it.
shut_down :
    (s : Loop) × Reachable ext float 64 1 3 60 10 3 true 3 (key 1) empty s
    × (s.place ≡ ended (ok stats))
unfolding program
shut_down = (
  _,
  step
      (step
        (step
          (step
            (step
              (step
                (step
                  (step (step (start 30 false 0 _ false refl) (move (check refl refl)))
                    (move (claim_some [] 400 30 false _ _ _ refl refl)))
                  (move (spawn _ refl (omega arith))))
                (other cancel))
              (move (reap (false ∷ []) refl refl)))
            (move (stop refl refl)))
          (other (background (work [] [] _ unanswered refl))))
        (other (reclaim_leases 300 900 30 false)))
      (move (close (ok tt) refl refl)),
  refl,
)

Reachable-settled_example :
    (shut_down.0.site.workers ≡ [])
    × ((r : Row) → Member r shut_down.0.site.db.pubkeys → is_in_progress r.status ≡ false)
Reachable-settled_example =
    Reachable-settled ext ext-BindsId round_trip float 64 1 3 60 10 3 true 3 (key 1) empty stats
      empty-WellFormed shut_down.1 shut_down.2

Reachable-IsBounded_example : IsBounded 1 shut_down.0
Reachable-IsBounded_example =
    Reachable-IsBounded ext float 64 1 3 60 10 3 true 3 (key 1) empty shut_down.1

-- Handles of a worker that succeeded, one that panicked and one that failed.
abbrev handles : List Handle
handles =
    finished [] (returned (ok tt))
    ∷ finished [] panicked
    ∷ finished [] (returned (err (invalid_pubkey 3)))
    ∷ []

drain_run : drain_all handles ≡ some (err sqlx)
unfolding program
drain_run = refl

drain_all-eq_example :
    (((r : Result StoreError Unit) × (drain_all handles ≡ some r)) ↔ (permits_taken handles ≡ 0))
    × ((r : Result StoreError Unit) → drain_all handles ≡ some r → join_in_order handles ≡ some r)
drain_all-eq_example = drain_all-eq handles

-- A loop that has checked its token just before the shutdown.
abbrev late : Loop
late = record {
  site = record { db = empty; workers = running [] ∷ [] };
  place = checked;
  stats = stats;
  is_cancelled = true;
  loop_alive = true;
}

late_run : (n : ℕ) × (t : Loop) × Run ext float 64 1 3 60 10 3 true 3 late n t
unfolding program
late_run = (
  4,
  _,
  moves
      (moves
        (moves
          (others (moves here (claim_none [] 400 30 false _ refl refl))
            (background (work [] [] _ unanswered refl)))
          (idle refl refl))
        (wake_cancelled refl refl))
      (close (ok tt) refl refl),
)

Run-bounded_example : late_run.0 ≤ 5
Run-bounded_example = Run-bounded ext float 64 1 3 60 10 3 true 3 refl late_run.2

abbrev waiting : Loop
waiting = record late { place = holding [] }

Loop-Goes_example : Goes ext float 64 1 3 60 10 3 true 3 unanswered waiting
Loop-Goes_example = Loop-Goes ext float 64 1 3 60 10 3 true 3 unanswered waiting (omega arith) refl
