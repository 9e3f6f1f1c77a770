-- ===== src/Daemon/FanOut.antt =====
-- src/daemon/mod.rs: the fetches that the daemon hands to the crawl: the fan-out of a batch over the
-- curated relays, and the two fetches of the fallback. The registries are shared with the daemon's
-- other tasks, so what those do while a fetch waits is part of a run.
use Prim.Native.String.{String}
use wotcrawler.Prelude.{
  ℕ, ◌+◌, List, [], ◌∷◌, ◌++◌, Bool, Option, none, some, filter_map, is_empty, if◌then◌else◌,
}
use wotcrawler.Prelude.Maps.{lookup, insert, string_eq}
use wotcrawler.Prelude.Results.{Result, ok, err}
use wotcrawler.External.{External}
use wotcrawler.Errors.{RelayError}
use wotcrawler.Relay.RateLimit.{RateLimiterRegistry, acquire, reset}
use wotcrawler.Relay.Nip11.{
  LimitCache, FromJson, Response, RelayLimits, get_or_fetch, default_max_limit,
}
use wotcrawler.Relay.Health.{Float, RelayHealthRegistry, try_mark_attempt, incr_in_use, decr_in_use}
use wotcrawler.Relay.Fetch.Chunks.{Pool, fetch_complete_with_timeout, record_fetch_health}
use wotcrawler.Crawl.Frontier.{ClaimedAuthor}
pub mod Turns
pub mod Union
pub mod Reached
pub mod Newest
pub mod Pooled
pub mod Tests

-- `Kind::ContactList`, and `Kind::RelayList`.
abbrev pub want_kind : ℕ
want_kind = 3

abbrev pub relay_list_kind : ℕ
relay_list_kind = 10_002

abbrev pub future_clamp_secs : ℕ
future_clamp_secs = 3_600

abbrev pub follow_cap : ℕ
follow_cap = 10_000

abbrev pub max_authors_per_req : ℕ
max_authors_per_req = default_max_limit

module _ (ext : External) (float : Float) (from_json : FromJson) where
  open ext use {Event, from_slice}
  open float use {F}

  -- What the tasks share. Of a semaphore only its size is kept; those of the curated relays are made
  -- once, from the list of the relays, so that the look-up of such a relay finds one.
  pub record Shared : Type 0 where
    pub health : RelayHealthRegistry float
    pub registry : RateLimiterRegistry
    pub limit_cache : LimitCache
    pub fallback_sems : List (String × ℕ)

  -- What the turn of one relay meets: the time of its routing, the answer to a request for the
  -- relay's limits, what the other tasks do before the turn is admitted and during its fetch, the
  -- pool as it answers a kind of events, the text of the relay's url and the pool's, the time that
  -- each chunk reads, and the time that the turn took.
  pub record Visit : Type 0 where
    pub now : ℕ
    pub response : Response
    pub before : Shared → Shared
    pub during : Shared → Shared
    pub pool : ℕ → Pool ext
    pub label : String → String
    pub clock : ℕ → ℕ
    pub latency : ℕ

  -- The keys of a batch that are keys.
  abbrev pub authors_of : List ClaimedAuthor → List ℕ
  authors_of batch = filter_map (λ c. from_slice c.pubkey) batch

  module _ (fetch_timeout : ℕ) where
    -- The fetch of a turn. The client asks its whole pool: the url of the relay is not an argument of
    -- `fetch_events`.
    abbrev pub fetch_of : ℕ → List ℕ → RelayLimits → String → Visit → Result RelayError (List Event)
    fetch_of kind authors limits relay_url v =
        fetch_complete_with_timeout ext (v.pool kind) (v.label relay_url) authors limits.max_limit
          max_authors_per_req fetch_timeout v.clock

    abbrev pub limits_of : String → Visit → Shared → RelayLimits × LimitCache × Bool
    limits_of relay_url v s = get_or_fetch from_json s.limit_cache relay_url v.response

    -- The slot is counted and the limiter made before the fetch, and the slot given back after it,
    -- whatever its outcome.
    abbrev pub enter : String → Shared → Shared
    enter relay_url s = record s {
      health = incr_in_use float s.health relay_url;
      registry = acquire s.registry relay_url;
    }

    abbrev pub leave : String → Shared → Shared
    leave relay_url s = record s { health = decr_in_use float s.health relay_url }

    -- `admit_per_relay` around a fetch, once it is admitted.
    unfoldable pub admitted : String → Visit → Shared → Shared
    unfolding incr_in_use decr_in_use acquire
    admitted relay_url v s = leave relay_url (v.during (enter relay_url (v.before s)))

    module _ (relays : List String) (relay_health_threshold : F) (visits : ℕ → Visit) where
      -- Health is recorded before an error is passed on; a success clears the backoff.
      unfoldable pub observed : String → ℕ → Result RelayError (List Event) → Shared → Shared
      unfolding record_fetch_health reset
      observed relay_url latency (err e) s = record s {
        health = record_fetch_health {A = List Event} float s.health relay_url latency (err e);
      }
      observed relay_url latency (ok events) s = record s {
        health = record_fetch_health float s.health relay_url latency (ok events);
        registry = reset s.registry relay_url;
      }

      unfoldable pub attempt :
          List ℕ → String → Visit → Shared → Result RelayError (List Event) × Shared
      unfolding get_or_fetch admitted observed fetch_complete_with_timeout
      attempt authors relay_url v s =
          let (limits, cache, asked) = limits_of relay_url v s in
          let outcome = fetch_of want_kind authors limits relay_url v in
          (
            outcome,
            observed relay_url v.latency outcome
                (admitted relay_url v (record s { limit_cache = cache })),
          )

      -- The turn of a relay: `none` if it is skipped.
      unfoldable pub turn :
          List ℕ → ℕ → String → Shared → Option (Result RelayError (List Event)) × Shared
      unfolding try_mark_attempt attempt
      turn authors index relay_url s =
          let v = visits index in
          let (allowed, health) =
            try_mark_attempt float s.health relay_url relay_health_threshold v.now in
          let (outcome, t) = attempt authors relay_url v (record s { health = health }) in
          if allowed then (some outcome, t) else (none, record s { health = health })

      unfoldable pub fan_out :
          List ℕ → ℕ → List String → List Event → Shared → Result RelayError (List Event) × Shared
      unfolding turn
      fan_out authors index [] union s = (ok union, s)
      fan_out authors index (relay_url ∷ rest) union s =
          let (outcome, t) = turn authors index relay_url s in
          elim outcome [
            | none ↦ fan_out authors (index + 1) rest union t
            | some result ↦ elim result [
              | err e ↦ (err e, t)
              | ok events ↦ fan_out authors (index + 1) rest (union ++ events) t
            ]
          ]

      unfoldable pub fetch_union :
          List ClaimedAuthor → Shared → Result RelayError (List Event) × Shared
      unfolding fan_out
      fetch_union batch s =
          let authors = authors_of batch in
          if is_empty authors then (ok [], s) else fan_out authors 0 relays [] s

    module _ (per_relay_concurrency : ℕ) where
      -- The semaphore of a relay: a curated one has its own, another is made on first use.
      unfoldable pub semaphore_for : List (String × ℕ) → String → Shared → Shared
      semaphore_for curated relay_url s = elim (lookup relay_url curated) [
        | some size ↦ s
        | none ↦ elim (lookup relay_url s.fallback_sems) [
          | some size ↦ s
          | none ↦ record s {
            fallback_sems = insert relay_url per_relay_concurrency s.fallback_sems;
          }
        ]
      ]

      -- The loop of both fetches: each relay is admitted, and the first error ends it.
      unfoldable pub fetch_each :
          List (String × ℕ)
          → ℕ
          → ℕ
          → (ℕ → Visit)
          → ℕ
          → List String
          → List Event
          → Shared
          → Result RelayError (List Event) × Shared
      unfolding get_or_fetch admitted semaphore_for fetch_complete_with_timeout
      fetch_each curated kind author visits index [] union s = (ok union, s)
      fetch_each curated kind author visits index (relay_url ∷ rest) union s =
          let v = visits index in
          let (limits, cache, asked) = limits_of relay_url v s in
          let t =
            admitted relay_url v
              (semaphore_for curated relay_url (record s { limit_cache = cache })) in
          elim (fetch_of kind (author ∷ []) limits relay_url v) [
            | err e ↦ (err e, t)
            | ok events ↦ fetch_each curated kind author visits (index + 1) rest (union ++ events) t
          ]

      unfoldable pub fallback_fetch :
          (ℕ → Visit) → ℕ → List String → Shared → Result RelayError (List Event) × Shared
      unfolding fetch_each
      fallback_fetch visits author write_relays s =
          fetch_each [] want_kind author visits 0 write_relays [] s

      unfoldable pub per_relay_sems : List String → List (String × ℕ)
      per_relay_sems [] = []
      per_relay_sems (r ∷ relays) = insert r per_relay_concurrency (per_relay_sems relays)

      unfoldable pub relay_list_fetch :
          List String → (ℕ → Visit) → ℕ → Shared → Result RelayError (List Event) × Shared
      unfolding fetch_each per_relay_sems
      relay_list_fetch relays visits author s =
          fetch_each (per_relay_sems relays) relay_list_kind author visits 0 relays [] s
