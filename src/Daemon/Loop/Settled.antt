-- ===== src/Daemon/Loop/Settled.antt =====
-- src/daemon/loop_.rs: a loop that ends well leaves no lease behind.
use wotcrawler.Prelude.{
  ℕ, ◌≡◌, ◌∙◌, refl, sym, ap, subst, Bool, false, ◌&&◌, List, [], ◌∷◌, ◌++◌, some, Member,
}
use wotcrawler.Prelude.Results.{ok, err}
use wotcrawler.External.{External, BindsId}
use wotcrawler.Relay.Health.{Float}
use wotcrawler.Store.{Row, Db, World}
use wotcrawler.Store.WellFormed.{WellFormed}
use wotcrawler.Crawl.Frontier.{
  ClaimedAuthor, is_in_progress, is_terminal, is_older, reclaim_stale_by_ttl,
  reclaim_in_progress_older_than,
}
use wotcrawler.Crawl.Workers.{CrawlStats, Handle, Site}
use wotcrawler.Crawl.Workers.Leases.{
  IsHeld, IsHeld-none, claim-IsHeld, start_up-IsHeld, release-IsHeld,
}
use wotcrawler.Crawl.Workers.Leases.Work.{
  owed, Work-IsHeld, was_busy, join_in_order-owed, reap-owed,
}
use wotcrawler.Crawl.Workers.Exhausted.{nothing, spawned}
use wotcrawler.Daemon.Loop.{
  drain_all, Place, claiming, checked, holding, reaping, emptied, idling, closing, ended, Loop,
  Move, check, stop, claim_fails, claim_none, claim_some, spawn, reap, reap_fails, idle, idle_fails,
  wake, wake_cancelled, close, Background, Step, move, other, background, cancel, scan_stale,
  reclaim_leases, Reachable, start, step,
}
use wotcrawler.Daemon.Loop.Drain.{drain_all-eq}

-- What holds at a place.
abbrev pub IsStanding : Place → Site → Type 0
IsStanding claiming s = IsHeld (owed s.workers) s.db
IsStanding checked s = IsHeld (owed s.workers) s.db
IsStanding (holding batch) s = IsHeld (batch ++ owed s.workers) s.db
IsStanding reaping s = IsHeld (owed s.workers) s.db
IsStanding emptied s = IsHeld (owed s.workers) s.db
IsStanding idling s = IsHeld (owed s.workers) s.db
IsStanding closing s = IsHeld (owed s.workers) s.db
IsStanding (ended (ok stats)) s = IsHeld (owed s.workers) s.db × (s.workers ≡ [])
IsStanding (ended (err e)) s = Unit

-- Handles that drain well owe nothing.
drained-owed : (hs : List Handle) → drain_all hs ≡ some (ok tt) → owed hs ≡ owed []
drained-owed hs h = join_in_order-owed hs ((drain_all-eq hs).1 (ok tt) h) ∙ sym nothing

module _ (batch_size concurrency : ℕ) where
  Move-IsStanding :
      {s t : Loop}
      → Move batch_size concurrency s t
      → IsStanding s.place s.site
      → IsStanding t.place t.site
  Move-IsStanding {s} (check at go) h = subst (λ p. IsStanding p s.site) at h
  Move-IsStanding {s} (stop at off) h = subst (λ p. IsStanding p s.site) at h
  Move-IsStanding (claim_fails locked now left acts e v at claim) h = tt
  Move-IsStanding {s} (claim_none locked now left acts v at claim) h =
      claim-IsHeld (owed s.site.workers) locked batch_size now
        (record { db = s.site.db; left = left; acts = acts }) v [] claim
        (subst (λ p. IsStanding p s.site) at h)
  Move-IsStanding {s} (claim_some locked now left acts c batch v at claim) h =
      claim-IsHeld (owed s.site.workers) locked batch_size now
        (record { db = s.site.db; left = left; acts = acts }) v (c ∷ batch) claim
        (subst (λ p. IsStanding p s.site) at h)
  Move-IsStanding {s} (spawn batch at room) h =
      spawned batch s.site (subst (λ p. IsStanding p s.site) at h)
  Move-IsStanding {s} (reap seen at joined) h =
      subst (λ o. IsHeld o s.site.db) (reap-owed seen s.site.workers joined)
        (subst (λ p. IsStanding p s.site) at h)
  Move-IsStanding (reap_fails seen e at joined) h = tt
  Move-IsStanding {s} (idle at joined) h =
      subst (λ o. IsHeld o s.site.db) (drained-owed s.site.workers joined)
        (subst (λ p. IsStanding p s.site) at h)
  Move-IsStanding (idle_fails e at joined) h = tt
  Move-IsStanding {s} (wake at) h = subst (λ p. IsStanding p s.site) at h
  Move-IsStanding {s} (wake_cancelled at off) h = subst (λ p. IsStanding p s.site) at h
  Move-IsStanding (close (err e) at joined) h = tt
  Move-IsStanding {s} (close (ok u) at joined) h = (
    subst (λ o. IsHeld o s.site.db) (drained-owed s.site.workers joined)
        (subst (λ p. IsStanding p s.site) at h),
    refl,
  )

module _ (ext : External) (bound : BindsId ext)
    (round_trip : (b : List ℕ) (k : ℕ) → ext.from_slice b ≡ some k → ext.to_bytes k ≡ b)
    (float : Float) (batch_size concurrency want_kind : ℕ)
    (future_clamp_secs follow_cap max_attempts : ℕ) (fallback_enabled : Bool)
    (nip65_max_write_relays : ℕ) where
  abbrev Works : Site → Site → Type 0
  Works =
      Background ext float batch_size concurrency want_kind future_clamp_secs follow_cap
        max_attempts fallback_enabled nip65_max_write_relays

  kept :
      (held : List ClaimedAuthor) {s t : Site}
      → Works s t
      → IsHeld (held ++ owed s.workers) s.db
      → IsHeld (held ++ owed t.workers) t.db
  kept =
      Work-IsHeld ext bound round_trip float want_kind future_clamp_secs follow_cap max_attempts
        fallback_enabled nip65_max_write_relays

  work-IsStanding : (p : Place) {s t : Site} → Works s t → IsStanding p s → IsStanding p t
  work-IsStanding claiming w h = kept [] w h
  work-IsStanding checked w h = kept [] w h
  work-IsStanding (holding batch) w h = kept batch w h
  work-IsStanding reaping w h = kept [] w h
  work-IsStanding emptied w h = kept [] w h
  work-IsStanding idling w h = kept [] w h
  work-IsStanding closing w h = kept [] w h
  work-IsStanding (ended (ok stats)) w h = absurd (
      was_busy ext float want_kind future_clamp_secs follow_cap max_attempts fallback_enabled
        nip65_max_write_relays w h.1)
  work-IsStanding (ended (err e)) w h = tt

  -- A sweep of the tables.
  sweep-IsStanding :
      (p : Place) (s : Site) (db : Db)
      → ((held : List ClaimedAuthor) → IsHeld held s.db → IsHeld held db)
      → IsStanding p s
      → IsStanding p (record s { db = db })
  sweep-IsStanding claiming s db f h = f (owed s.workers) h
  sweep-IsStanding checked s db f h = f (owed s.workers) h
  sweep-IsStanding (holding batch) s db f h = f (batch ++ owed s.workers) h
  sweep-IsStanding reaping s db f h = f (owed s.workers) h
  sweep-IsStanding emptied s db f h = f (owed s.workers) h
  sweep-IsStanding idling s db f h = f (owed s.workers) h
  sweep-IsStanding closing s db f h = f (owed s.workers) h
  sweep-IsStanding (ended (ok stats)) s db f h = (f (owed s.workers) h.0, h.1)
  sweep-IsStanding (ended (err e)) s db f h = tt

  Step-IsStanding :
      {s t : Loop}
      → Step ext float batch_size concurrency want_kind future_clamp_secs follow_cap max_attempts
          fallback_enabled nip65_max_write_relays s t
      → IsStanding s.place s.site
      → IsStanding t.place t.site
  unfolding reclaim_stale_by_ttl reclaim_in_progress_older_than
  Step-IsStanding (move m) h = Move-IsStanding batch_size concurrency m h
  Step-IsStanding {s} (other (background w)) h = work-IsStanding s.place w h
  Step-IsStanding (other cancel) h = h
  Step-IsStanding {s} (other (scan_stale ttl_secs now left acts)) h =
      let w : World = record { db = s.site.db; left = left; acts = acts } in
      sweep-IsStanding s.place s.site (reclaim_stale_by_ttl ttl_secs now w).1.db
        (λ held k.
          release-IsHeld held (λ r. is_terminal r.status && is_older r.last_fetched_at ttl_secs now)
            w k)
        h
  Step-IsStanding {s} (other (reclaim_leases age_secs now left acts)) h =
      let w : World = record { db = s.site.db; left = left; acts = acts } in
      sweep-IsStanding s.place s.site (reclaim_in_progress_older_than age_secs now w).1.db
        (λ held k.
          release-IsHeld held (λ r. is_in_progress r.status && is_older r.claimed_at age_secs now) w
            k)
        h

  module _ (anchor_pubkey : List ℕ) (first : Db) where
    Reachable-IsStanding :
        {s : Loop}
        → WellFormed first
        → Reachable ext float batch_size concurrency want_kind future_clamp_secs follow_cap
            max_attempts fallback_enabled nip65_max_write_relays anchor_pubkey first s
        → IsStanding s.place s.site
    Reachable-IsStanding p (start left acts n v off begun) =
        subst (λ o. IsHeld o v.db) (sym nothing)
          (start_up-IsHeld anchor_pubkey (record { db = first; left = left; acts = acts }) v n begun
            p)
    Reachable-IsStanding p (step r st) = Step-IsStanding st (Reachable-IsStanding p r)

    -- A loop that ends well leaves no orphan: no worker is left and no row is leased, however claims,
    -- workers, the timers of the daemon and the shutdown interleaved and whatever the relays
    -- answered. (It starts from well-formed tables; ids of verified events bind their author and
    -- time, and a key that parses is its own byte form.)
    pub Reachable-settled :
        {s : Loop} (stats : CrawlStats)
        → WellFormed first
        → Reachable ext float batch_size concurrency want_kind future_clamp_secs follow_cap
            max_attempts fallback_enabled nip65_max_write_relays anchor_pubkey first s
        → s.place ≡ ended (ok stats)
        → (s.site.workers ≡ [])
          × ((r : Row) → Member r s.site.db.pubkeys → is_in_progress r.status ≡ false)
    Reachable-settled {s} stats p reached at =
        let (held, none_left) =
          subst (λ q. IsStanding q s.site) at (Reachable-IsStanding p reached) in
        let free : IsHeld [] s.site.db =
          subst (λ o. IsHeld o s.site.db) (ap owed none_left ∙ nothing) held in
        (none_left, λ r m. IsHeld-none s.site.db r free m)
