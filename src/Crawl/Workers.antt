-- ===== src/Crawl/Workers.antt =====
-- src/crawl/mod.rs: the workers of a crawl and its driver, as the steps that they can take. A worker
-- runs its batch between two steps of the others, and one that panics has got through any number of
-- its statements. Each batch has the times of its own start.
use Prim.Native.String.{String}
use wotcrawler.Prelude.{
  ℕ, ◌+◌, ◌<◌, ◌≡◌, Bool, true, false, ◌&&◌, List, [], ◌∷◌, ◌++◌, Option, none, some, length,
}
use wotcrawler.Prelude.Results.{Result, ok, err}
use wotcrawler.External.{External}
use wotcrawler.Errors.{StoreError, sqlx, RelayError}
use wotcrawler.Relay.Health.{Float, RelayHealthRegistry, default_nip65_max_write_relays}
use wotcrawler.Store.{Db, World, Sql, ◌>>◌}
use wotcrawler.Crawl.Frontier.{ClaimedAuthor, seed_anchor, claim_batch, reclaim_stale_on_startup}
use wotcrawler.Crawl.Apply.{Settings, process_batch}
pub mod Leases
pub mod Exhausted
pub mod Tests

abbrev pub default_batch_size : ℕ
default_batch_size = 64

abbrev pub default_concurrency : ℕ
default_concurrency = 8

abbrev pub default_max_attempts : ℕ
default_max_attempts = 3

pub record CrawlStats : Type 0 where
  pub reclaimed_on_startup : ℕ
  pub authors_claimed : ℕ
  pub batches_processed : ℕ

-- How the task of a worker ends: it returns, or it panics.
pub data Ending : Type 0 where
  returned : Result StoreError Unit → Ending
  panicked : Ending

unfoldable pub join_worker : Ending → Result StoreError Unit
join_worker (returned inner) = inner
join_worker panicked = err sqlx

-- The handle of a worker, with the batch that it works on.
pub data Handle : Type 0 where
  running : (batch : List ClaimedAuthor) → Handle
  finished : (batch : List ClaimedAuthor) → (ending : Ending) → Handle

abbrev pub is_running : Handle → Bool
is_running (running batch) = true
is_running (finished batch ending) = false

-- The permits that are taken: a worker has one until it ends.
abbrev pub permits_taken : List Handle → ℕ
permits_taken [] = 0
permits_taken (running batch ∷ hs) = permits_taken hs + 1
permits_taken (finished batch ending ∷ hs) = permits_taken hs

-- The join of all handles in order, up to the first error; `none` while it waits for a worker.
unfoldable pub join_in_order : List Handle → Option (Result StoreError Unit)
unfolding join_worker
join_in_order [] = some (ok tt)
join_in_order (running batch ∷ hs) = none
join_in_order (finished batch ending ∷ hs) = elim (join_worker ending) [
  | ok _ ↦ join_in_order hs
  | err e ↦ some (err e)
]

-- The handles that the reaping keeps: `seen` tells of each in turn whether it was found finished,
-- which one that ends later is not.
unfoldable pub still_running : List Bool → List Handle → List Handle
still_running seen [] = []
still_running seen (running batch ∷ hs) = running batch ∷ still_running seen hs
still_running [] (finished batch ending ∷ hs) = finished batch ending ∷ still_running [] hs
still_running (true ∷ seen) (finished batch ending ∷ hs) = still_running seen hs
still_running (false ∷ seen) (finished batch ending ∷ hs) =
    finished batch ending ∷ still_running seen hs

unfoldable pub found_finished : List Bool → List Handle → List Handle
found_finished seen [] = []
found_finished seen (running batch ∷ hs) = found_finished seen hs
found_finished [] (finished batch ending ∷ hs) = found_finished [] hs
found_finished (true ∷ seen) (finished batch ending ∷ hs) =
    finished batch ending ∷ found_finished seen hs
found_finished (false ∷ seen) (finished batch ending ∷ hs) = found_finished seen hs

-- The tables, and the handles in the order in which their workers were spawned.
pub record Site : Type 0 where
  pub db : Db
  pub workers : List Handle

abbrev pub applied : Result StoreError ℕ → Result StoreError Unit
applied (ok n) = ok tt
applied (err e) = err e

-- The start of a crawl, with the number of leases that it took back.
unfoldable pub start_up : List ℕ → Sql ℕ
start_up anchor_pubkey = seed_anchor anchor_pubkey >> reclaim_stale_on_startup

module _ (ext : External) (float : Float) (want_kind future_clamp_secs follow_cap max_attempts : ℕ)
    (fallback_enabled : Bool) (nip65_max_write_relays : ℕ) where
  open ext use {Event}

  -- What a batch meets: the health scores, its times, the answers of the relays, and the fate of its
  -- connection.
  pub record Conditions : Type 0 where
    pub health : RelayHealthRegistry float
    pub now : ℕ
    pub clock : ℕ
    pub union_fetch : Result RelayError (List Event)
    pub fallback_fetch : ℕ → List String → Result RelayError (List Event)
    pub relay_list_fetch : ℕ → Result RelayError (List Event)
    pub left : ℕ
    pub acts : Bool

  abbrev pub settings : (c : Conditions) → Settings ext float c.health
  settings c = record {
    want_kind = want_kind;
    now = c.now;
    future_clamp_secs = future_clamp_secs;
    follow_cap = follow_cap;
    max_attempts = max_attempts;
    fallback_enabled = fallback_enabled;
    nip65_max_write_relays = nip65_max_write_relays;
    clock = c.clock;
  }

  unfoldable pub run_worker : Conditions → List ClaimedAuthor → Db → Result StoreError ℕ × World
  run_worker c batch db =
      process_batch ext float c.health (settings c) c.fallback_fetch c.relay_list_fetch batch
        c.union_fetch (record { db = db; left = c.left; acts = c.acts })

  -- A worker runs its batch, and returns or panics.
  pub data Work : Site → Site → Type 0 where
    work :
        {s : Site}
        → (before after : List Handle) → (batch : List ClaimedAuthor) → (c : Conditions)
        → s.workers ≡ before ++ running batch ∷ after
        → Work s (record {
          db = (run_worker c batch s.db).1.db;
          workers =
              before ++ finished batch (returned (applied (run_worker c batch s.db).0)) ∷ after;
        })
    panic :
        {s : Site}
        → (before after : List Handle) → (batch : List ClaimedAuthor) → (c : Conditions)
        → s.workers ≡ before ++ running batch ∷ after
        → Work s (record {
          db = (run_worker c batch s.db).1.db;
          workers = before ++ finished batch panicked ∷ after;
        })

-- Where the driver stands: before a claim, with a batch that waits for a permit, after a spawn, at
-- the join after an empty claim, and at its end.
pub data Place : Type 0 where
  claiming : Place
  holding : (batch : List ClaimedAuthor) → Place
  reaping : Place
  emptied : Place
  ended : Result StoreError CrawlStats → Place

pub record Crawl : Type 0 where
  pub site : Site
  pub place : Place
  pub stats : CrawlStats

abbrev pub count_batch : CrawlStats → List ClaimedAuthor → CrawlStats
count_batch stats batch = record stats {
  authors_claimed = stats.authors_claimed + length batch;
  batches_processed = stats.batches_processed + 1;
}

abbrev pub fresh_stats : ℕ → CrawlStats
fresh_stats reclaimed = record {
  reclaimed_on_startup = reclaimed;
  authors_claimed = 0;
  batches_processed = 0;
}

-- Without a worker in flight no row is locked: no other process works on the tables.
abbrev pub IsAlone : List ℕ → List Handle → Type 0
IsAlone locked workers = permits_taken workers ≡ 0 → locked ≡ []

module _ (ext : External) (float : Float) (batch_size concurrency want_kind : ℕ)
    (future_clamp_secs follow_cap max_attempts : ℕ) where
  -- The fallback is off, so its settings and its closures do not matter.
  abbrev pub Background : Site → Site → Type 0
  Background =
      Work ext float want_kind future_clamp_secs follow_cap max_attempts false
        default_nip65_max_write_relays

  -- A step of the driver, or of its workers while it waits.
  pub data Step : Crawl → Crawl → Type 0 where
    background : {s : Crawl} {t : Site} → Background s.site t → Step s (record s { site = t })
    claim_fails :
        {s : Crawl}
        → (locked : List ℕ) → (now left : ℕ) → (acts : Bool) → (e : StoreError) → (v : World)
        → s.place ≡ claiming
        → claim_batch locked batch_size now (record { db = s.site.db; left = left; acts = acts })
          ≡ (err e, v)
        → Step s (record s { site = record s.site { db = v.db }; place = ended (err e) })
    claim_none :
        {s : Crawl}
        → (locked : List ℕ) → (now left : ℕ) → (acts : Bool) → (v : World) → s.place ≡ claiming
        → IsAlone locked s.site.workers
        → claim_batch locked batch_size now (record { db = s.site.db; left = left; acts = acts })
          ≡ (ok [], v)
        → Step s (record s { site = record s.site { db = v.db }; place = emptied })
    claim_some :
        {s : Crawl}
        → (locked : List ℕ) → (now left : ℕ) → (acts : Bool) → (c : ClaimedAuthor)
        → (batch : List ClaimedAuthor) → (v : World) → s.place ≡ claiming
        → claim_batch locked batch_size now (record { db = s.site.db; left = left; acts = acts })
          ≡ (ok (c ∷ batch), v)
        → Step s (record s {
          site = record s.site { db = v.db };
          place = holding (c ∷ batch);
          stats = count_batch s.stats (c ∷ batch);
        })
    spawn :
        {s : Crawl}
        → (batch : List ClaimedAuthor) → s.place ≡ holding batch
        → permits_taken s.site.workers < concurrency
        → Step s (record s {
          site = record s.site { workers = s.site.workers ++ running batch ∷ [] };
          place = reaping;
        })
    reap :
        {s : Crawl}
        → (seen : List Bool) → s.place ≡ reaping
        → join_in_order (found_finished seen s.site.workers) ≡ some (ok tt)
        → Step s (record s {
          site = record s.site { workers = still_running seen s.site.workers };
          place = claiming;
        })
    reap_fails :
        {s : Crawl}
        → (seen : List Bool) → (e : StoreError) → s.place ≡ reaping
        → join_in_order (found_finished seen s.site.workers) ≡ some (err e)
        → Step s (record s { place = ended (err e) })
    exhausted :
        {s : Crawl}
        → s.place ≡ emptied
        → s.site.workers ≡ []
        → Step s (record s { place = ended (ok s.stats) })
    join_all :
        {s : Crawl}
        → (h : Handle) → (hs : List Handle) → s.place ≡ emptied
        → s.site.workers ≡ h ∷ hs
        → join_in_order (h ∷ hs) ≡ some (ok tt)
        → Step s (record s { site = record s.site { workers = [] }; place = claiming })
    join_fails :
        {s : Crawl}
        → (h : Handle) → (hs : List Handle) → (e : StoreError) → s.place ≡ emptied
        → s.site.workers ≡ h ∷ hs
        → join_in_order (h ∷ hs) ≡ some (err e)
        → Step s (record s { place = ended (err e) })

  module _ (anchor_pubkey : List ℕ) (first : Db) where
    -- The states that a run from the tables `first` can reach.
    pub data Reachable : Crawl → Type 0 where
      start :
          (left : ℕ)
          → (acts : Bool) → (n : ℕ) → (v : World)
          → start_up anchor_pubkey (record { db = first; left = left; acts = acts }) ≡ (ok n, v)
          → Reachable (record {
            site = record { db = v.db; workers = [] };
            place = claiming;
            stats = fresh_stats n;
          })
      step : {s t : Crawl} → Reachable s → Step s t → Reachable t
