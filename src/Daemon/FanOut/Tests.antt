-- ===== src/Daemon/FanOut/Tests.antt =====
-- Runs of the fan-out and of the fallback's fetch, and the theorems on them at concrete inputs.
use Prim.Native.String.{String}
use wotcrawler.Prelude.{
  ℕ, ◌+◌, ◌*◌, ◌-◌, ◌/◌, ◌≡◌, refl, true, List, [], ◌∷◌, none, some, Member, contains,
  if◌then◌else◌, leb,
}
use wotcrawler.Prelude.Results.{Result, ok, err}
use wotcrawler.Prelude.Maps.{lookup, insert}
use wotcrawler.External.{External}
use wotcrawler.Errors.{RelayError, client}
use wotcrawler.Relay.RateLimit.{new_registry}
use wotcrawler.Relay.Nip11.{FromJson, unreachable_host}
use wotcrawler.Relay.Health.{Float, RelayHealthRegistry, record_success, record_connect_failure}
use wotcrawler.Relay.Fetch.Chunks.{Pool, record_fetch_health}
use wotcrawler.Relay.Fetch.{paginate_chunk}
use wotcrawler.Crawl.Frontier.{ClaimedAuthor}
use wotcrawler.Daemon.FanOut.{Shared, Visit, fetch_union, fallback_fetch}
use wotcrawler.Daemon.FanOut.Turns.{IsCollected, FailsFirst, after_turns}
use wotcrawler.Daemon.FanOut.Union.{fetch_union-IsCollected, fetch_union-FailsFirst}
use wotcrawler.Daemon.FanOut.Pooled.{limits_met, fallback_fetch-Pooled}

-- An event is its time, and so is its id.
abbrev ext : External
ext = record {
  Event = ℕ;
  id = λ e. e;
  pubkey = λ e. 1;
  created_at = λ e. e;
  kind = λ e. 3;
  verify = λ e. true;
  public_keys = λ e. [];
  extract_relay_list = λ e. [];
  from_slice = λ b. if contains b 1 then some 1 else none;
  to_bytes = λ k. [];
  in_range = λ t. true;
}

abbrev float : Float
float = record {
  F = ℕ;
  of_nat = λ n. 1000 * n;
  add = λ a b. a + b;
  sub = λ a b. a - b;
  mul = λ a b. a * b / 1000;
  div = λ a b. a * 1000 / b;
  ge = λ a b. leb b a;
  round_usize = λ a. (a + 500) / 1000;
  as_secs_f64 = λ n. n / 1_000_000;
}

abbrev from_json : FromJson
from_json body = none

abbrev first : Shared ext float from_json
first = record {
  health = record {
    alpha = 300;
    scores = ("wss://b", 100) ∷ [];
    in_use = [];
    last_probe = ("wss://b", 40) ∷ [];
  };
  registry = new_registry;
  limit_cache = [];
  fallback_sems = [];
}

abbrev pool : ℕ → Pool ext
pool kind chunk index until =
    (5, ok (if contains chunk 1 then (if leb 20 until then 20 ∷ [] else []) else []))

abbrev broken_pool : ℕ → Pool ext
broken_pool kind chunk index until = (5, err client)

abbrev visit : (ℕ → Pool ext) → Visit ext float from_json
visit answers = record {
  now = 50;
  response = unreachable_host;
  before = λ s. s;
  during = λ s. s;
  pool = answers;
  label = λ r. r;
  clock = λ i. 45 + i;
  latency = 5;
}

abbrev batch : List ClaimedAuthor
batch = record { id = 1; pubkey = 1 ∷ [] } ∷ record { id = 2; pubkey = 7 ∷ [] } ∷ []

abbrev relays : List String
relays = "wss://a" ∷ "wss://b" ∷ "wss://c" ∷ []

abbrev visits : ℕ → Visit ext float from_json
visits i = visit pool

abbrev run :
    (ℕ → Visit ext float from_json) → Result RelayError (List ℕ) × Shared ext float from_json
run vs = fetch_union ext float from_json 30 relays 500 vs batch first

program : Unit {0}
unfolding fetch_union fallback_fetch limits_met lookup insert paginate_chunk record_success
    after_turns
program = tt

-- The degraded relay was probed a moment ago, so it is skipped.
union : (run visits).0 ≡ ok (20 ∷ 20 ∷ [])
unfolding program
union = refl

pair_eta :
    (vs : ℕ → Visit ext float from_json) {r : Result RelayError (List ℕ)}
    → (run vs).0 ≡ r
    → run vs ≡ (r, (run vs).1)
pair_eta vs q = cc

returned : run visits ≡ (ok (20 ∷ 20 ∷ []), (run visits).1)
returned = pair_eta visits union

fetch_union-IsCollected_example :
    IsCollected ext float from_json 30 relays 500 visits
      (1 ∷ [])
      0
      relays
      []
      first
      (20 ∷ 20 ∷ [])
      (run visits).1
fetch_union-IsCollected_example =
    fetch_union-IsCollected ext float from_json 30 relays 500 visits batch first (run visits).1
      (20 ∷ 20 ∷ []) refl returned

-- The last relay fails.
abbrev failing : ℕ → Visit ext float from_json
failing i = if leb 2 i then visit broken_pool else visit pool

failure : (run failing).0 ≡ err client
unfolding program record_connect_failure
failure = refl

fetch_union-FailsFirst_example :
    FailsFirst ext float from_json 30 relays 500 failing
      (1 ∷ [])
      client
      (run failing).1
      0
      relays
      first
    × ((r : String) × Member r relays
        × (latency : ℕ) × (h : RelayHealthRegistry float) × ((run failing).1.health
            ≡ record_fetch_health {A = List ℕ} float h r latency (err client)))
fetch_union-FailsFirst_example =
    fetch_union-FailsFirst ext float from_json 30 relays 500 failing batch first (run failing).1
      client (pair_eta failing failure)

abbrev store : List ℕ
store = 20 ∷ []

same_limits :
    limits_met ext float from_json 30 4 visits 1 0 ("wss://x" ∷ []) first
    ≡ limits_met ext float from_json 30 4 visits 1 0 ("wss://y" ∷ []) first
unfolding program
same_limits = refl

fallback_run :
    (fallback_fetch ext float from_json 30 4 visits 1 ("wss://x" ∷ []) first).0 ≡ ok (20 ∷ [])
unfolding program
fallback_run = refl

fallback_fetch-Pooled_example :
    (fallback_fetch ext float from_json 30 4 visits 1 ("wss://y" ∷ []) first).0 ≡ ok (20 ∷ [])
fallback_fetch-Pooled_example =
    fallback_fetch-Pooled ext float from_json 30 4 visits 1 ("wss://x" ∷ []) ("wss://y" ∷ [])
      (20 ∷ []) first first same_limits fallback_run
