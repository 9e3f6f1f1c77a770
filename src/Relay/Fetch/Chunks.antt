-- ===== src/Relay/Fetch/Chunks.antt =====
-- src/relay/fetch.rs: the deadline of a window, the gate of the rate limit, the chunks of authors, and
-- the outcome as a signal of health.
use Prim.Native.String.{String}
use wotcrawler.Prelude.{
  ℕ, zero, suc, ◌+◌, ◌*◌, max, List, [], ◌∷◌, ◌++◌, leb, if◌then◌else◌, take, drop, length,
}
use wotcrawler.Prelude.Results.{Result, ok, err, ◌>>=◌}
use wotcrawler.External.{External}
use wotcrawler.Errors.{RelayError, fetch_timeout, deadline, client, relay_not_found, nip11_fetch}
use wotcrawler.Relay.RateLimit.{second}
use wotcrawler.Relay.Health.{
  Float, RelayHealthRegistry, record_success, record_timeout, record_connect_failure,
}
use wotcrawler.Relay.Fetch.{paginate_chunk}

abbrev pub default_fetch_timeout : ℕ
default_fetch_timeout = 30 * second

-- `elapsed` is the time that the fetch took, and `events` its outcome: the pool gives what it has got
-- by then as a success.
unfoldable pub fetch_window_with_deadline :
    {A : Type 0} → ℕ → String → ℕ → Result RelayError A → Result RelayError A
fetch_window_with_deadline timeout relay_url elapsed (err e) = err e
fetch_window_with_deadline timeout relay_url elapsed (ok events) =
    if leb timeout elapsed then err (fetch_timeout (deadline relay_url)) else ok events

unfoldable pub record_fetch_health :
    {A : Type 0}
    → (float : Float) → RelayHealthRegistry float
    → String
    → ℕ
    → Result RelayError A
    → RelayHealthRegistry float
record_fetch_health float health relay_url latency (ok _) =
    record_success float health relay_url latency
record_fetch_health float health relay_url latency (err (fetch_timeout _)) =
    record_timeout float health relay_url
record_fetch_health float health relay_url latency (err client) =
    record_connect_failure float health relay_url
record_fetch_health float health relay_url latency (err (relay_not_found _)) =
    record_connect_failure float health relay_url
record_fetch_health float health relay_url latency (err (nip11_fetch _)) =
    record_connect_failure float health relay_url

-- `chunks(size)`, for a size that is not zero, with as many steps as there are elements.
unfoldable pub chunks_within : {A : Type 0} → ℕ → ℕ → List A → List (List A)
chunks_within zero size xs = []
chunks_within (suc n) size [] = []
chunks_within (suc n) size (x ∷ xs) = take size (x ∷ xs) ∷ chunks_within n size (drop size (x ∷ xs))

unfoldable pub chunks : {A : Type 0} → ℕ → List A → List (List A)
unfolding chunks_within
chunks size xs = chunks_within (length xs) size xs

module _ (ext : External) where
  open ext use {Event}

  -- A window of the pool for a chunk of authors: the time it took, and its outcome.
  abbrev pub Pool : Type 0
  Pool = List ℕ → ℕ → ℕ → ℕ × Result RelayError (List Event)

  -- The fetch of a window in the loop: the gate admits it first, which does not fail, and then the
  -- deadline judges it.
  unfoldable pub window_of : Pool → ℕ → String → List ℕ → ℕ → ℕ → Result RelayError (List Event)
  unfolding fetch_window_with_deadline
  window_of pool timeout label chunk index until =
      let (elapsed, events) = pool chunk index until in
      fetch_window_with_deadline timeout label elapsed events

  -- `clock` is the time that each chunk reads at its start.
  unfoldable pub fetch_chunks :
      Pool
      → ℕ
      → ℕ
      → String
      → (ℕ → ℕ)
      → ℕ
      → List (List ℕ)
      → List Event
      → Result RelayError (List Event)
  unfolding window_of
  fetch_chunks pool cap timeout label clock index [] all = ok all
  fetch_chunks pool cap timeout label clock index (chunk ∷ rest) all =
      paginate_chunk ext cap (window_of pool timeout label chunk) (clock index) >>= λ events.
      fetch_chunks pool cap timeout label clock (index + 1) rest (all ++ events)

  -- `label` is the text of the relay's url and of the pool's.
  unfoldable pub fetch_complete_with_timeout :
      Pool → String → List ℕ → ℕ → ℕ → ℕ → (ℕ → ℕ) → Result RelayError (List Event)
  unfolding chunks fetch_chunks
  fetch_complete_with_timeout pool label authors max_limit max_authors timeout clock =
      fetch_chunks pool (max max_limit 1) timeout label clock 0 (chunks (max max_authors 1) authors)
        []

  unfoldable pub fetch_complete :
      Pool → String → List ℕ → ℕ → ℕ → (ℕ → ℕ) → Result RelayError (List Event)
  unfolding fetch_complete_with_timeout
  fetch_complete pool label authors max_limit max_authors clock =
      fetch_complete_with_timeout pool label authors max_limit max_authors default_fetch_timeout
        clock
