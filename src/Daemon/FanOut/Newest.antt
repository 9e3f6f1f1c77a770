-- ===== src/Daemon/FanOut/Newest.antt =====
-- src/daemon/mod.rs and src/ingest/mod.rs: the one pass over the union of a batch finds the newest list
-- that any relay has which was asked.
use Prim.Native.String.{String}
use wotcrawler.Prelude.{ℕ, List}
use wotcrawler.External.{External, BindsId}
use wotcrawler.Relay.Nip11.{FromJson}
use wotcrawler.Relay.Health.{Float}
use wotcrawler.Crawl.Frontier.{ClaimedAuthor}
use wotcrawler.Daemon.FanOut.{Shared, Visit, authors_of}
use wotcrawler.Daemon.FanOut.Reached.{index}

module _ (ext : External) (bound : BindsId ext) (float : Float) (from_json : FromJson)
    (fetch_timeout : ℕ) (before : List String) (r : String) (after : List String)
    (threshold : float.F) (visits : ℕ → Visit ext float from_json) (batch : List ClaimedAuthor)
    (s : Shared ext float from_json) where
  open ext use {Event, id, pubkey, created_at, kind, verify}

  abbrev authors : List ℕ
  authors = authors_of ext float from_json batch

  -- What the turn of `r` meets.
  abbrev visit : Visit ext float from_json
  visit = visits (index ext float from_json fetch_timeout before r after threshold visits batch s)
