-- ===== src/Daemon/Loop.antt =====
-- src/daemon/loop_.rs: the continuous crawl loop, as the steps that it, its workers and the rest of
-- the daemon can take.
use Prim.Native.String.{String}
use wotcrawler.Prelude.{
  ℕ, ◌+◌, ◌<◌, ◌≡◌, Bool, true, false, List, [], ◌∷◌, ◌++◌, Option, none, some,
}
use wotcrawler.Prelude.Results.{Result, ok, err}
use wotcrawler.External.{External}
use wotcrawler.Errors.{StoreError}
use wotcrawler.Relay.Health.{Float}
use wotcrawler.Store.{Db, World}
use wotcrawler.Crawl.Frontier.{
  ClaimedAuthor, claim_batch, reclaim_stale_by_ttl, reclaim_in_progress_older_than,
}
use wotcrawler.Crawl.Workers.{
  CrawlStats, Ending, join_worker, Handle, running, finished, permits_taken, join_in_order,
  still_running, found_finished, Site, Work, start_up, count_batch, fresh_stats,
}
pub mod Drain
pub mod Settled
pub mod Bounded
pub mod Progress
pub mod Tests

abbrev pub first_error : Option StoreError → Result StoreError Unit → Option StoreError
first_error (some e) r = some e
first_error none (ok _) = none
first_error none (err e) = some e

abbrev pub drained : Option StoreError → Result StoreError Unit
drained (some e) = err e
drained none = ok tt

-- The join of all handles; `none` while it waits for a worker.
unfoldable pub drain_from : Option StoreError → List Handle → Option (Result StoreError Unit)
drain_from first_err [] = some (drained first_err)
drain_from first_err (running batch ∷ hs) = none
drain_from first_err (finished batch ending ∷ hs) =
    drain_from (first_error first_err (join_worker ending)) hs

unfoldable pub drain_all : List Handle → Option (Result StoreError Unit)
unfolding drain_from
drain_all hs = drain_from none hs

-- Where the loop stands: before the check of the token, before a claim, with a batch that waits for a
-- permit, after a spawn, at the join after an empty claim, in the sleep after it, at the last join,
-- and at its end.
pub data Place : Type 0 where
  claiming checked : Place
  holding : (batch : List ClaimedAuthor) → Place
  reaping emptied idling closing : Place
  ended : Result StoreError CrawlStats → Place

-- The loop, with the token of the daemon and the flag that its readiness reads.
pub record Loop : Type 0 where
  pub site : Site
  pub place : Place
  pub stats : CrawlStats
  pub is_cancelled : Bool
  pub loop_alive : Bool

abbrev pub result_of : CrawlStats → Result StoreError Unit → Result StoreError CrawlStats
result_of stats (ok _) = ok stats
result_of stats (err e) = err e

-- The end of the loop: readiness is taken back before it returns.
abbrev pub finish : Loop → Site → Result StoreError CrawlStats → Loop
finish s site result = record s { site = site; place = ended result; loop_alive = false }

module _ (batch_size concurrency : ℕ) where
  -- A step of the loop itself. A claim meets row locks, a time, and the fate of its connection.
  pub data Move : Loop → Loop → Type 0 where
    check :
        {s : Loop}
        → s.place ≡ claiming
        → s.is_cancelled ≡ false
        → Move s (record s { place = checked })
    stop :
        {s : Loop}
        → s.place ≡ claiming
        → s.is_cancelled ≡ true
        → Move s (record s { place = closing })
    claim_fails :
        {s : Loop}
        → (locked : List ℕ) → (now left : ℕ) → (acts : Bool) → (e : StoreError) → (v : World)
        → s.place ≡ checked
        → claim_batch locked batch_size now (record { db = s.site.db; left = left; acts = acts })
          ≡ (err e, v)
        → Move s (finish s (record s.site { db = v.db }) (err e))
    claim_none :
        {s : Loop}
        → (locked : List ℕ) → (now left : ℕ) → (acts : Bool) → (v : World) → s.place ≡ checked
        → claim_batch locked batch_size now (record { db = s.site.db; left = left; acts = acts })
          ≡ (ok [], v)
        → Move s (record s { site = record s.site { db = v.db }; place = emptied })
    claim_some :
        {s : Loop}
        → (locked : List ℕ) → (now left : ℕ) → (acts : Bool) → (c : ClaimedAuthor)
        → (batch : List ClaimedAuthor) → (v : World) → s.place ≡ checked
        → claim_batch locked batch_size now (record { db = s.site.db; left = left; acts = acts })
          ≡ (ok (c ∷ batch), v)
        → Move s (record s {
          site = record s.site { db = v.db };
          place = holding (c ∷ batch);
          stats = count_batch s.stats (c ∷ batch);
        })
    spawn :
        {s : Loop}
        → (batch : List ClaimedAuthor) → s.place ≡ holding batch
        → permits_taken s.site.workers < concurrency
        → Move s (record s {
          site = record s.site { workers = s.site.workers ++ running batch ∷ [] };
          place = reaping;
        })
    reap :
        {s : Loop}
        → (seen : List Bool) → s.place ≡ reaping
        → join_in_order (found_finished seen s.site.workers) ≡ some (ok tt)
        → Move s (record s {
          site = record s.site { workers = still_running seen s.site.workers };
          place = claiming;
        })
    reap_fails :
        {s : Loop}
        → (seen : List Bool) → (e : StoreError) → s.place ≡ reaping
        → join_in_order (found_finished seen s.site.workers) ≡ some (err e)
        → Move s (finish s s.site (err e))
    idle :
        {s : Loop}
        → s.place ≡ emptied
        → drain_all s.site.workers ≡ some (ok tt)
        → Move s (record s { site = record s.site { workers = [] }; place = idling })
    idle_fails :
        {s : Loop}
        → (e : StoreError) → s.place ≡ emptied
        → drain_all s.site.workers ≡ some (err e)
        → Move s (finish s (record s.site { workers = [] }) (err e))
    wake : {s : Loop} → s.place ≡ idling → Move s (record s { place = claiming })
    wake_cancelled :
        {s : Loop}
        → s.place ≡ idling
        → s.is_cancelled ≡ true
        → Move s (record s { place = closing })
    close :
        {s : Loop}
        → (r : Result StoreError Unit) → s.place ≡ closing
        → drain_all s.site.workers ≡ some r
        → Move s (finish s (record s.site { workers = [] }) (result_of s.stats r))

module _ (ext : External) (float : Float) (batch_size concurrency want_kind : ℕ)
    (future_clamp_secs follow_cap max_attempts : ℕ) (fallback_enabled : Bool)
    (nip65_max_write_relays : ℕ) where
  abbrev pub Background : Site → Site → Type 0
  Background =
      Work ext float want_kind future_clamp_secs follow_cap max_attempts fallback_enabled
        nip65_max_write_relays

  -- A step of a worker, of the signal handler, or of one of the timers that take leases and stale rows
  -- back.
  pub data Other : Loop → Loop → Type 0 where
    background : {s : Loop} {t : Site} → Background s.site t → Other s (record s { site = t })
    cancel : {s : Loop} → Other s (record s { is_cancelled = true })
    scan_stale :
        {s : Loop}
        → (ttl_secs now left : ℕ) → (acts : Bool)
        → Other s (record s {
          site = record s.site {
            db =
                (reclaim_stale_by_ttl ttl_secs now
                  (record { db = s.site.db; left = left; acts = acts })).1.db;
          };
        })
    reclaim_leases :
        {s : Loop}
        → (age_secs now left : ℕ) → (acts : Bool)
        → Other s (record s {
          site = record s.site {
            db =
                (reclaim_in_progress_older_than age_secs now
                  (record { db = s.site.db; left = left; acts = acts })).1.db;
          };
        })

  pub data Step : Loop → Loop → Type 0 where
    move : {s t : Loop} → Move batch_size concurrency s t → Step s t
    other : {s t : Loop} → Other s t → Step s t

  module _ (anchor_pubkey : List ℕ) (first : Db) where
    -- The states that a run from the tables `first` can reach.
    pub data Reachable : Loop → Type 0 where
      start :
          (left : ℕ)
          → (acts : Bool) → (n : ℕ) → (v : World) → (is_cancelled : Bool)
          → start_up anchor_pubkey (record { db = first; left = left; acts = acts }) ≡ (ok n, v)
          → Reachable (record {
            site = record { db = v.db; workers = [] };
            place = claiming;
            stats = fresh_stats n;
            is_cancelled = is_cancelled;
            loop_alive = true;
          })
      step : {s t : Loop} → Reachable s → Step s t → Reachable t
