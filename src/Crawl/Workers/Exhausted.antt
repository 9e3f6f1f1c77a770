-- ===== src/Crawl/Workers/Exhausted.antt =====
-- src/crawl/mod.rs: a crawl that ends well has drained the frontier.
use wotcrawler.Prelude.{
  ℕ, ◌<◌, ◌≡◌, ◌∙◌, inl, inr, refl, sym, ap, subst, true, false, List, [], ◌∷◌, ◌++◌, some, Member,
  Member-append, Member-append_left, Member-append_right, length, min, filter, contains, arith,
  Member-filter_of, Bool-cases,
}
use wotcrawler.Prelude.Results.{ok, err}
use wotcrawler.External.{External, BindsId}
use wotcrawler.Relay.Health.{Float, default_nip65_max_write_relays}
use wotcrawler.Store.{Status, discovered, in_progress, fetched, not_found, failed, Row, Db, World}
use wotcrawler.Store.WellFormed.{WellFormed}
use wotcrawler.Crawl.Frontier.{
  ClaimedAuthor, claim_batch, is_discovered, is_in_progress, is_terminal, lease,
}
use wotcrawler.Crawl.Frontier.Claims.{claim_batch-IsClaim, eligible, Member-update}
use wotcrawler.Crawl.Workers.{
  CrawlStats, running, permits_taken, Site, Place, claiming, holding, reaping, emptied, ended,
  Crawl, Background, Step, background, claim_fails, claim_none, claim_some, spawn, reap, reap_fails,
  exhausted, join_all, join_fails, Reachable, start, step,
}
use wotcrawler.Crawl.Workers.Leases.{
  IsHeld, IsHeld-same, IsHeld-none, claim-IsHeld, start_up-IsHeld,
}
use wotcrawler.Crawl.Workers.Leases.Work.{
  owes, owed, owed-append, Work-IsHeld, was_busy, is_busy, join_in_order-owed, reap-owed,
}

-- No row waits for a fetch.
abbrev pub IsDrained : Db → Type 0
IsDrained db = (r : Row) → Member r db.pubkeys → is_discovered r.status ≡ false

-- What holds at a place.
abbrev pub IsStanding : Place → Site → Type 0
IsStanding claiming s = IsHeld (owed s.workers) s.db
IsStanding (holding batch) s = IsHeld (batch ++ owed s.workers) s.db
IsStanding reaping s = IsHeld (owed s.workers) s.db
IsStanding emptied s = IsHeld (owed s.workers) s.db × (s.workers ≡ [] → IsDrained s.db)
IsStanding (ended (ok stats)) s = IsHeld [] s.db × (s.workers ≡ []) × IsDrained s.db
IsStanding (ended (err e)) s = Unit

-- A claim that takes nothing of rows that nobody locks has found none.
claim_none-IsDrained :
    (limit now : ℕ) (w v : World)
    → 0 < limit
    → claim_batch [] limit now w ≡ (ok [], v)
    → IsDrained v.db
claim_none-IsDrained limit now w v positive e r m =
    let claim = claim_batch-IsClaim [] limit now w v [] e in
    let few : filter (eligible []) w.db.pubkeys ≡ [] =
      no_rows (filter (eligible []) w.db.pubkeys) limit positive claim.many in
    let (s, ms, is) =
      Member-update (λ r. contains [] r.id) (lease now) w.db.pubkeys r
        (subst (Member r) claim.leased m) in
    elim (Bool-cases (is_discovered r.status)) [
      | inr waits ↦ waits
      | inl waits ↦
          let passes : eligible [] r ≡ true = rw waits refl in
          absurd (
            subst (Member r) few (
              Member-filter_of (eligible []) r w.db.pubkeys
                (subst (λ x. Member x w.db.pubkeys) (sym is) ms) passes))
    ]
  where
    no_rows : (rows : List Row) (limit : ℕ) → 0 < limit → 0 ≡ min limit (length rows) → rows ≡ []
    no_rows [] limit p q = refl
    no_rows (x ∷ xs) limit p q = absurd (omega arith)

pub nothing : owed [] ≡ []
unfolding owed
nothing = refl

-- A batch passes from the driver to a worker.
pub spawned :
    (batch : List ClaimedAuthor) (s : Site)
    → IsHeld (batch ++ owed s.workers) s.db
    → IsHeld (owed (s.workers ++ running batch ∷ [])) s.db
unfolding owed owes
spawned batch s h =
    let now : owed (s.workers ++ running batch ∷ []) ≡ owed s.workers ++ (batch ++ []) =
      owed-append s.workers (running batch ∷ []) in
    subst (λ o. IsHeld o s.db) (sym now ∙ refl)
      (IsHeld-same (batch ++ owed s.workers) (owed s.workers ++ (batch ++ [])) s.db
        (λ c m. elim (Member-append c batch (owed s.workers) m) [
          | inl k ↦
              Member-append_right c (owed s.workers) (batch ++ []) (Member-append_left c batch [] k)
          | inr k ↦ Member-append_left c (owed s.workers) (batch ++ []) k
        ])
        (λ c m. elim (Member-append c (owed s.workers) (batch ++ []) m) [
          | inl k ↦ Member-append_right c batch (owed s.workers) k
          | inr k ↦ elim (Member-append c batch [] k) [
            | inl l ↦ Member-append_left c batch (owed s.workers) l
            | inr l ↦ absurd l
          ]
        ])
        h)

module _ (ext : External) (bound : BindsId ext)
    (round_trip : (b : List ℕ) (k : ℕ) → ext.from_slice b ≡ some k → ext.to_bytes k ≡ b)
    (float : Float) (batch_size concurrency want_kind : ℕ)
    (future_clamp_secs follow_cap max_attempts : ℕ) (positive : 0 < batch_size) where
  abbrev Works : Site → Site → Type 0
  Works =
      Background ext float batch_size concurrency want_kind future_clamp_secs follow_cap
        max_attempts

  kept :
      (pending : List ClaimedAuthor) {s t : Site}
      → Works s t
      → IsHeld (pending ++ owed s.workers) s.db
      → IsHeld (pending ++ owed t.workers) t.db
  kept =
      Work-IsHeld ext bound round_trip float want_kind future_clamp_secs follow_cap max_attempts
        false default_nip65_max_write_relays

  background-IsStanding : (p : Place) {s t : Site} → Works s t → IsStanding p s → IsStanding p t
  background-IsStanding claiming w h = kept [] w h
  background-IsStanding (holding batch) w h = kept batch w h
  background-IsStanding reaping w h = kept [] w h
  background-IsStanding emptied w h = (
    kept [] w h.0,
    λ q. absurd (
        is_busy ext float want_kind future_clamp_secs follow_cap max_attempts false
          default_nip65_max_write_relays w q),
  )
  background-IsStanding (ended (ok stats)) w h = absurd (
      was_busy ext float want_kind future_clamp_secs follow_cap max_attempts false
        default_nip65_max_write_relays w h.1)
  background-IsStanding (ended (err e)) w h = tt

  Step-IsStanding :
      {s t : Crawl}
      → Step ext float batch_size concurrency want_kind future_clamp_secs follow_cap max_attempts s
          t
      → IsStanding s.place s.site
      → IsStanding t.place t.site
  Step-IsStanding {s} (background w) h = background-IsStanding s.place w h
  Step-IsStanding (claim_fails locked now left acts e v at claim) h = tt
  Step-IsStanding {s} (claim_none locked now left acts v at alone claim) h =
      let w : World = record { db = s.site.db; left = left; acts = acts } in
      let before : IsHeld (owed s.site.workers) s.site.db = subst (λ p. IsStanding p s.site) at h in
      (
        claim-IsHeld (owed s.site.workers) locked batch_size now w v [] claim before,
        λ idle.
            let open_rows : locked ≡ [] = alone (ap permits_taken idle) in
            claim_none-IsDrained batch_size now w v positive
              (subst (λ l. claim_batch l batch_size now w ≡ (ok [], v)) open_rows claim),
      )
  Step-IsStanding {s} (claim_some locked now left acts c batch v at claim) h =
      claim-IsHeld (owed s.site.workers) locked batch_size now
        (record { db = s.site.db; left = left; acts = acts }) v (c ∷ batch) claim
        (subst (λ p. IsStanding p s.site) at h)
  Step-IsStanding {s} (spawn batch at room) h =
      spawned batch s.site (subst (λ p. IsStanding p s.site) at h)
  Step-IsStanding {s} (reap seen at joined) h =
      subst (λ o. IsHeld o s.site.db) (reap-owed seen s.site.workers joined)
        (subst (λ p. IsStanding p s.site) at h)
  Step-IsStanding (reap_fails seen e at joined) h = tt
  Step-IsStanding {s} (exhausted at none_left) h =
      let (held, drained) = subst (λ p. IsStanding p s.site) at h in
      (
        subst (λ o. IsHeld o s.site.db) (ap owed none_left ∙ nothing) held,
        none_left,
        drained none_left,
      )
  Step-IsStanding {s} (join_all x xs at those joined) h =
      let (held, _) = subst (λ p. IsStanding p s.site) at h in
      subst (λ o. IsHeld o s.site.db)
        (ap owed those ∙ (join_in_order-owed (x ∷ xs) joined ∙ sym nothing)) held
  Step-IsStanding (join_fails x xs e at those joined) h = tt

  module _ (anchor_pubkey : List ℕ) (first : Db) where
    Reachable-IsStanding :
        {s : Crawl}
        → WellFormed first
        → Reachable ext float batch_size concurrency want_kind future_clamp_secs follow_cap
            max_attempts anchor_pubkey first s
        → IsStanding s.place s.site
    Reachable-IsStanding p (start left acts n v begun) =
        subst (λ o. IsHeld o v.db) (sym nothing)
          (start_up-IsHeld anchor_pubkey (record { db = first; left = left; acts = acts }) v n begun
            p)
    Reachable-IsStanding p (step r st) = Step-IsStanding st (Reachable-IsStanding p r)

    -- A crawl that ends well has exhausted the component: no worker is left, and every row is fetched,
    -- not found or failed, whatever the relays answered and however workers and claims interleaved.
    -- (It is alone on well-formed tables and claims at least one row at a time; ids of verified
    -- events bind their author and time, and a key that parses is its own byte form.)
    pub Reachable-exhausted :
        {s : Crawl} (stats : CrawlStats)
        → WellFormed first
        → Reachable ext float batch_size concurrency want_kind future_clamp_secs follow_cap
            max_attempts anchor_pubkey first s
        → s.place ≡ ended (ok stats)
        → (s.site.workers ≡ [])
          × ((r : Row) → Member r s.site.db.pubkeys → is_terminal r.status ≡ true)
    Reachable-exhausted {s} stats p reached at =
        let (held, none_left, drained) =
          subst (λ q. IsStanding q s.site) at (Reachable-IsStanding p reached) in
        (none_left, λ r m. terminal r.status (drained r m) (IsHeld-none s.site.db r held m))
      where
        terminal :
            (s : Status) → is_discovered s ≡ false → is_in_progress s ≡ false → is_terminal s ≡ true
        terminal discovered d i = cc
        terminal in_progress d i = cc
        terminal fetched d i = refl
        terminal not_found d i = refl
        terminal failed d i = refl
