-- ===== src/Crawl/Workers/Tests.antt =====
-- A crawl of one author without a list, and the theorem on it at concrete inputs.
use wotcrawler.Prelude.{◌≡◌, refl, true, false, [], ◌∷◌, Member, arith}
use wotcrawler.Prelude.Maps.{lookup, insert}
use wotcrawler.Prelude.Results.{ok}
use wotcrawler.Ingest.Gate.{ingest_events}
use wotcrawler.Relay.Client.{acquire_validated_lists}
use wotcrawler.Relay.Health.{default_nip65_max_write_relays}
use wotcrawler.Store.{Row}
use wotcrawler.Store.Pubkeys.{upsert_pubkey, set_fetch_status}
use wotcrawler.Crawl.Frontier.{is_terminal, seed_anchor, claim_batch, reclaim_stale_on_startup}
use wotcrawler.Crawl.Apply.{process_batch}
use wotcrawler.Crawl.Sample.{
  key, ext, ext-BindsId, round_trip, float, health, empty, empty-WellFormed,
}
use wotcrawler.Crawl.Workers.{
  CrawlStats, Conditions, join_in_order, still_running, found_finished, start_up, run_worker, work,
  ended, Crawl, background, claim_none, claim_some, spawn, reap, exhausted, Reachable, start, step,
}
use wotcrawler.Crawl.Workers.Exhausted.{Reachable-exhausted}

program : Unit {0}
unfolding run_worker start_up join_in_order still_running found_finished seed_anchor claim_batch
    reclaim_stale_on_startup process_batch acquire_validated_lists ingest_events upsert_pubkey
    set_fetch_status lookup insert
program = tt

-- The relays answer, and have nothing.
abbrev pub answered : Conditions ext float 3 60 10 3 false default_nip65_max_write_relays
answered = record {
  health = health;
  now = 500;
  clock = 500_000_001;
  union_fetch = ok [];
  fallback_fetch = λ author relays. ok [];
  relay_list_fetch = λ author. ok [];
  left = 30;
  acts = false;
}

abbrev stats : CrawlStats
stats = record { reclaimed_on_startup = 0; authors_claimed = 1; batches_processed = 1 }

-- The anchor is claimed, fetched and reaped; then a claim finds nothing.
drained_run :
    (s : Crawl) × Reachable ext float 64 8 3 60 10 3 (key 1) empty s × (s.place ≡ ended (ok stats))
unfolding program
drained_run = (
  _,
  step
      (step
        (step
          (step
            (step (step (start 30 false 0 _ refl) (claim_some [] 400 30 false _ _ _ refl refl))
              (spawn _ refl (omega arith)))
            (background (work [] [] _ answered refl)))
          (reap (true ∷ []) refl refl))
        (claim_none [] 600 30 false _ refl (λ _. refl) refl))
      (exhausted refl refl),
  refl,
)

Reachable-exhausted_example :
    (drained_run.0.site.workers ≡ [])
    × ((r : Row) → Member r drained_run.0.site.db.pubkeys → is_terminal r.status ≡ true)
Reachable-exhausted_example =
    Reachable-exhausted ext ext-BindsId round_trip float 64 8 3 60 10 3 (omega arith) (key 1) empty
      stats empty-WellFormed drained_run.1 drained_run.2
