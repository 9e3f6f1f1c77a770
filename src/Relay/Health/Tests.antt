-- ===== src/Relay/Health/Tests.antt =====
-- Runs of the health registry, and the theorems on it at concrete inputs.
use Prim.Native.String.{String}
use wotcrawler.Prelude.{ℕ, ◌+◌, ◌-◌, ◌*◌, ◌/◌, ◌≡◌, refl, false, List, [], ◌∷◌, leb, arith}
use wotcrawler.Prelude.Maps.{lookup, insert, string_eq}
use wotcrawler.Relay.RateLimit.{second}
use wotcrawler.Relay.Health.{
  Float, RelayHealthRegistry, new_health, update, record_success, record_timeout,
  record_connect_failure, record_rate_limited, score, permits, in_use_of, incr_in_use, decr_in_use,
  route_allowed, mark_attempt, try_mark_attempt,
}
use wotcrawler.Relay.Health.Probes.{attempts, try_mark_attempt_exclusive}
use wotcrawler.Relay.Health.Admission.{Calls, admits}

-- Decimals with three places stand for the floating-point numbers.
abbrev float : Float
float = record {
  F = ℕ;
  of_nat = λ n. 1000 * n;
  add = λ a b. a + b;
  sub = λ a b. a - b;
  mul = λ a b. a * b / 1000;
  div = λ a b. a * 1000 / b;
  ge = λ a b. leb b a;
  round_usize = λ a. (a + 500) / 1000;
  as_secs_f64 = λ n. n / 1_000_000;
}

program : Unit {0}
unfolding new_health update record_success record_timeout record_connect_failure record_rate_limited
    score permits in_use_of incr_in_use decr_in_use route_allowed mark_attempt try_mark_attempt
    admits lookup insert
program = tt

abbrev relay : String
relay = "wss://relay.example"

abbrev mirror : String
mirror = "wss://mirror.example"

abbrev fresh : RelayHealthRegistry float
unfolding program
fresh = new_health float 300

-- Four timeouts bring a relay from 1 to 0.24, with one permit of four.
abbrev degraded : RelayHealthRegistry float
unfolding program
degraded =
    record_timeout float
      (record_timeout float (record_timeout float (record_timeout float fresh relay) relay) relay)
      relay

degraded_run : (score float degraded relay ≡ 240) × (permits float degraded relay 4 ≡ 1)
unfolding program
degraded_run = (refl, refl)

recovery_run : score float (record_success float degraded relay (3 * second)) relay ≡ 318
unfolding program
recovery_run = refl

in_use_run :
    in_use_of float
      (decr_in_use float (incr_in_use float (incr_in_use float fresh relay) relay) relay)
      relay
    ≡ 1
unfolding program
in_use_run = refl

abbrev calls : List (String × ℕ)
calls = (mirror, 6 * second) ∷ (relay, 7 * second) ∷ []

abbrev later : RelayHealthRegistry float
unfolding program
later = attempts float 250 (try_mark_attempt float degraded relay 250 (5 * second)).1 calls

try_mark_attempt_exclusive_example :
    try_mark_attempt float later relay 250 (64 * second) ≡ (false, later)
unfolding program
try_mark_attempt_exclusive_example =
    try_mark_attempt_exclusive float degraded relay 250 (5 * second) calls (64 * second) refl refl
      (omega arith, (omega arith, tt)) (omega arith)

-- Two calls pass the gate before one of them takes its slot; the relay then degrades.
abbrev one : RelayHealthRegistry float → ℕ → ℕ → ℕ → ℕ → Calls float relay 4
one h waiting admitted holding fetching = record {
  health = h;
  waiting = waiting;
  admitted = admitted;
  holding = holding;
  fetching = fetching;
  closing = 0;
}
