-- ===== src/Daemon/Sampler/Tests.antt =====
-- Counts of a table, and the theorem on them at a concrete input.
use wotcrawler.Prelude.{ℕ, ◌≡◌, refl, false, [], ◌∷◌, none}
use wotcrawler.Prelude.Results.{ok}
use wotcrawler.Prelude.Maps.{lookup, insert}
use wotcrawler.Relay.RateLimit.{new_registry}
use wotcrawler.Store.{Status, discovered, fetched, not_found, Row, Db, World}
use wotcrawler.Daemon.Sampler.{FrontierCounts, frontier_counts, max_failures}
use wotcrawler.Daemon.Sampler.Counts.{AreCounted, frontier_counts-AreCounted}

abbrev row : ℕ → Status → Row
row id status = record {
  id = id;
  pubkey = id ∷ [];
  status = status;
  last_fetched_at = none;
  last_confirmed_at = none;
  last_changed_at = none;
  fetch_count = 0;
  change_count = 0;
  applied_event_id = none;
  applied_created_at = none;
  claimed_at = none;
  fetch_attempts = 0;
}

abbrev db : Db
db = record {
  pubkeys = row 1 fetched ∷ row 2 discovered ∷ row 3 fetched ∷ row 4 not_found ∷ [];
  follows = [];
  pubkey_relays = [];
  next_id = 5;
}

abbrev w : World
w = record { db = db; left = 1; acts = false }

abbrev counts : FrontierCounts
counts = record {
  discovered = 1;
  in_progress = 0;
  fetched = 2;
  not_found = 1;
  failed = 0;
  total = 4;
}

counts_run : frontier_counts w ≡ (ok counts, record { db = db; left = 0; acts = false })
unfolding frontier_counts lookup insert
counts_run = refl

frontier_counts-AreCounted_example : AreCounted db.pubkeys counts × (db ≡ db)
frontier_counts-AreCounted_example =
    frontier_counts-AreCounted w (record { db = db; left = 0; acts = false }) counts counts_run

max_failures_run :
    max_failures
      (record new_registry { failures = ("wss://a", 2) ∷ ("wss://x", 9) ∷ ("wss://b", 5) ∷ [] })
      ("wss://a" ∷ "wss://b" ∷ "wss://c" ∷ [])
    ≡ 5
unfolding max_failures lookup new_registry
max_failures_run = refl
