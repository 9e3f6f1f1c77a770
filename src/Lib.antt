-- ===== src/Lib.antt =====
-- nostrocket/wotcrawler: a crawler that builds the follow graph of nostr. This library models its
-- core.
--
-- The parts of the program and their interaction. Workers claim batches of authors from the
-- frontier (src/crawl/frontier.rs), ask the curated relays for their follow lists
-- (src/relay/fetch.rs, within the limits that src/relay/nip11.rs learns, the pace of
-- src/relay/rate_limit.rs and the slots of src/relay/health.rs), pass all that comes back through
-- one gate (src/ingest), and write the edges of the lists that pass into Postgres (src/store).
-- Writing an edge discovers its followee, which is then claimed in turn. An author without a list
-- is looked for once more, for its own write relays (src/crawl/apply.rs). Two loops drive the
-- workers: a crawl of what there is (src/crawl/mod.rs), and the daemon's, which goes on until it
-- is told to stop (src/daemon/loop_.rs), with timers that take old leases and stale rows back.
-- The daemon makes the fetches that its loop is given (src/daemon/mod.rs).
--
-- Where each part is modelled:
--   Prelude, Errors    helpers; the variants of src/error.rs
--   External           nostr events and keys: the parameters of the model
--   Ingest             src/ingest: Verify (accept), Replaceable (pick_winner), FollowList
--                      (followee_pubkeys), Gate (ingest_events), RelayList (resolve_relay_list)
--   Relay.Fetch        src/relay/fetch.rs: paginate_chunk; Fetch.Chunks: fetch_complete, the deadline
--                      of a window and the outcome as a signal of health (proofs in Fetch.Window,
--                      Complete, Sound and Authors)
--   Relay.RateLimit    src/relay/rate_limit.rs: notices, the backoff, the registry of limiters
--   Relay.Nip11        src/relay/nip11.rs: the limits of a relay and their cache
--   Relay.Health       src/relay/health.rs: the scores, and the admission of calls as a step relation
--   Relay.Client       src/relay/mod.rs: acquire_validated_lists, and the routing of notices
--   Store              src/store: rows, statements and transactions; Pubkeys, Follows, Relays (in
--                      Store.Follows.Graph, the tables as a graph; in Store.Succeeds, what a connection
--                      that lasts completes)
--   Crawl.Frontier     src/crawl/frontier.rs: claims, sweeps and retries
--   Crawl.Apply        src/crawl/apply.rs: process_batch and fallback_recover (in Crawl.Apply.Kept and
--                      Settled, what no batch changes; in Effects and Batches, what a batch does)
--   Crawl.Workers      src/crawl/mod.rs: run_crawl as a step relation, with its workers (proofs in
--                      Crawl.Workers.Leases and Exhausted)
--   Daemon.Loop        src/daemon/loop_.rs: run_daemon_loop as a step relation, and drain_all (proofs in
--                      Daemon.Loop.Settled, Bounded, Progress and Drain)
--   Daemon.FanOut      src/daemon/mod.rs: fetch_union, fallback_fetch and relay_list_fetch (proofs in
--                      Daemon.FanOut.Union, Reached, Newest and Pooled)
--   Daemon.Config      src/daemon/config.rs: the settings, their defaults and validate
--   Daemon.Sampler     src/daemon/sampler.rs: frontier_counts and the failures of the worst relay
--   Daemon.Observe     src/daemon/observe.rs: the status of the routes
--
-- State and operations. The database is a record of its tables (Store.Db). An operation of the
-- store is a function on the world of a connection: the tables, the number of statements that
-- succeed before the connection is lost, and whether a statement acts although its outcome is
-- lost. A theorem for every such world is one for a failure at every statement. A transaction
-- that is not committed leaves the tables as they were. The SQL statements are functions on rows,
-- with the constraints of the migrations written out. Other connections appear as the row locks
-- that a claim skips. The registries of limiters and of health are association lists. Calls of
-- admit_per_relay interleave in a relation whose steps are those between two awaits. The loops
-- are step relations too: a state holds the tables, the handles of the workers and the place
-- where the loop waits, and a step is one of the loop, of a worker or of a task beside them. A
-- batch of a worker runs as a whole between two other steps; a panic is a batch that ends after
-- any number of its statements. run_crawl is taken to be alone on its tables (IsAlone). In the
-- fan-out, what the other tasks do to the shared registries while a turn waits is an argument of
-- the run.
--
-- Parameters. External holds what the nostr crate gives: the fields of an event, the check of its
-- id and its signature, its tags, and the conversion of keys. Where a theorem needs that an id
-- determines the event, it takes that as a hypothesis (BindsId). The floating-point operations of
-- the health scores, the random draw of a jitter, the HTTP client, the JSON parser and the
-- relay's answers to a window are arguments of the definitions that use them.
--
-- Bounds and fuel. paginate_chunk runs at most 10,000 windows, which is the bound of the source
-- (MAX_PAGES_PER_CHUNK); past that bound the model fails with the error of the source. The chunks
-- of authors are cut with as many steps as there are authors; each cut takes at least one. All
-- other loops are recursions on a list. Times of events are whole seconds, durations and clocks
-- whole nanoseconds, and the times in the database whole microseconds. Integers of a fixed width
-- are natural numbers with the wrap or the saturation of the source written out.
--
-- Not modelled: the start-up of the daemon, its signal handler, its HTTP server and the order in
-- which it joins its tasks (src/daemon/mod.rs, src/main.rs), the connection pool and the
-- migrations (src/store/mod.rs), the calls of the SDK that connect, the metrics and the logs.
-- They are I/O, or parts for which there are no definitions yet. The debug print of the settings,
-- which leaves out the database's url, is text.
pub mod Prelude
pub mod External
pub mod Errors
pub mod Ingest
pub mod Relay
pub mod Store
pub mod Crawl
pub mod Daemon
