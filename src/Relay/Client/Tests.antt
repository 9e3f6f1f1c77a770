-- ===== src/Relay/Client/Tests.antt =====
-- A run of the consumer of notices, and the theorem on it at concrete inputs.
use wotcrawler.Prelude.{ℕ, ◌+◌, ◌*◌, ◌-◌, ◌/◌, ◌≡◌, refl, List, [], ◌∷◌, leb}
use wotcrawler.Prelude.Maps.{lookup, insert}
use wotcrawler.Relay.RateLimit.{codes, classify_notice, new_registry, failure_count, record_notice}
use wotcrawler.Relay.Health.{
  Float, RelayHealthRegistry, record_rate_limited, record_connect_failure,
}
use wotcrawler.Relay.Client.{Notification, text, other_message, shutdown, consume}
use wotcrawler.Relay.Client.Routing.{escalations}

abbrev float : Float
float = record {
  F = ℕ;
  of_nat = λ n. 1000 * n;
  add = λ a b. a + b;
  sub = λ a b. a - b;
  mul = λ a b. a * b / 1000;
  div = λ a b. a * 1000 / b;
  ge = λ a b. leb b a;
  round_usize = λ a. (a + 500) / 1000;
  as_secs_f64 = λ n. n / 1_000_000;
}

abbrev draw : ℕ → ℕ
draw n = n / 2

abbrev health : RelayHealthRegistry float
health = record { alpha = 300; scores = []; in_use = []; last_probe = [] }

abbrev arrived : List (Notification float draw)
arrived =
    text "wss://a" (codes "rate-limited: slow down")
    ∷ text "wss://b" (codes "rate-limited: slow down")
    ∷ other_message
    ∷ text "wss://a" (codes "blocked: go away")
    ∷ text "wss://a" (codes "rate-limited: still")
    ∷ shutdown
    ∷ text "wss://a" (codes "rate-limited: late")
    ∷ []

program : Unit {0}
unfolding consume classify_notice new_registry record_notice lookup insert record_rate_limited
    record_connect_failure
program = tt

escalations_run : escalations float draw "wss://a" arrived ≡ 2
unfolding program
escalations_run = refl

consume_run : failure_count (consume float draw new_registry health arrived).0 "wss://a" ≡ 2
unfolding program
consume_run = refl
