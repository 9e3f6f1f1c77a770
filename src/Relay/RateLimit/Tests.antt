-- ===== src/Relay/RateLimit/Tests.antt =====
-- Runs of the backoff schedule and of the registry, and the theorems on them at concrete inputs.
use Prim.Native.String.{String}
use wotcrawler.Prelude.{ℕ, ◌*◌, ◌/◌, ◌^◌, ◌≤◌, ◌≡◌, min, refl, true, List, arith}
use wotcrawler.Prelude.Maps.{string_eq, lookup, insert, remove}
use wotcrawler.Relay.RateLimit.{
  second, codes, rate_limited, blocked, other, classify_notice, backoff_delay_unjittered,
  backoff_delay, new_registry, acquire, record_notice, reset, active_relay_count, has_limiter,
}
use wotcrawler.Relay.RateLimit.Backoff.{backoff_delay_unjittered-eq-min, backoff_delay_bounds}

program : Unit {0}
unfolding classify_notice backoff_delay new_registry acquire record_notice reset has_limiter
    active_relay_count lookup insert remove
program = tt

abbrev relay : String
relay = "wss://relay.example"

abbrev slow_down : List ℕ
slow_down = codes " rate-limited: slow down"

abbrev half_way : ℕ → ℕ
half_way n = n / 2

classify_rate_limited : classify_notice slow_down ≡ rate_limited
unfolding program
classify_rate_limited = refl

classify_restricted : classify_notice (codes "restricted : members only") ≡ blocked
unfolding program
classify_restricted = refl

classify_case : classify_notice (codes "Rate-limited: slow down") ≡ other
unfolding program
classify_case = refl

-- The fifth delay is 16 seconds, the tenth is capped.
unjittered_runs :
    (backoff_delay_unjittered 4 second (300 * second) ≡ 16 * second)
    × (backoff_delay_unjittered 9 second (300 * second) ≡ 300 * second)
unfolding program
unjittered_runs = (refl, refl)

has_limiter_run : has_limiter (acquire new_registry relay) relay ≡ true
unfolding program
has_limiter_run = refl

backoff_delay_unjittered-eq-min_example :
    backoff_delay_unjittered 70 second (300 * second) ≡ min (second * 2 ^ 70) (300 * second)
backoff_delay_unjittered-eq-min_example =
    backoff_delay_unjittered-eq-min 70 second (300 * second) (omega arith) (omega arith)
      (omega arith)

backoff_delay_bounds_example :
    (backoff_delay_unjittered 4 second (300 * second) / 2
      ≤ backoff_delay half_way 4 second (300 * second))
    × (backoff_delay half_way 4 second (300 * second)
        ≤ backoff_delay_unjittered 4 second (300 * second))
backoff_delay_bounds_example =
    backoff_delay_bounds half_way 4 second (300 * second) (λ n. omega arith)
