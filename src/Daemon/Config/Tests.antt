-- ===== src/Daemon/Config/Tests.antt =====
-- Checks of settings, and the theorem on them at concrete inputs.
use wotcrawler.Prelude.{
  ℕ, ◌+◌, ◌*◌, ◌-◌, ◌/◌, ◌≡◌, ◌↔◌, refl, List, [], ◌∷◌, Option, none, some, leb, pos,
}
use wotcrawler.Prelude.Results.{ok, err}
use wotcrawler.Relay.RateLimit.{codes, second}
use wotcrawler.Relay.Health.{Float}
use wotcrawler.Daemon.Config.{
  Config, Optional, validate, with_defaults, no_database_url, zero_batch_size,
}
use wotcrawler.Daemon.Config.Validated.{IsValid, validate-IsValid}

abbrev float : Float
float = record {
  F = ℕ;
  of_nat = λ n. 1000 * n;
  add = λ a b. a + b;
  sub = λ a b. a - b;
  mul = λ a b. a * b / 1000;
  div = λ a b. a * 1000 / b;
  ge = λ a b. leb b a;
  round_usize = λ a. (a + 500) / 1000;
  as_secs_f64 = λ n. n / 1_000_000;
}

abbrev parse : List ℕ → Option ℕ
parse [] = none
parse (c ∷ cs) = some c

abbrev unset : Optional float
unset = record {
  concurrency = none;
  batch_size = none;
  max_attempts = none;
  fetch_timeout = none;
  reqs_per_second = none;
  log_level = none;
  log_format = none;
  progress_interval = none;
  staleness_scan_interval = none;
  reclaim_interval = none;
  reclaim_age = none;
  idle_poll_interval = none;
  nip65_fallback_enabled = none;
  nip65_max_write_relays = none;
  relay_health_threshold = none;
  per_relay_concurrency = none;
  health_alpha = none;
}

abbrev config : List ℕ → Optional float → Config float
config url optional =
    with_defaults float (codes "npub1") (codes "wss://a" ∷ []) url (60 * second) optional

-- The defaults pass, and a sub-second TTL does.
minimal : validate float parse (config (codes " postgres://db") unset) ≡ ok tt
unfolding validate with_defaults
minimal = refl

short_ttl : validate float parse (record (config (codes "postgres://db") unset) { ttl = 1 }) ≡ ok tt
unfolding validate with_defaults
short_ttl = refl

blank_url : validate float parse (config (codes "   ") unset) ≡ err no_database_url
unfolding validate with_defaults
blank_url = refl

empty_batch :
    validate float parse
      (config (codes "postgres://db") (record unset { batch_size = some (pos 0) }))
    ≡ err zero_batch_size
unfolding validate with_defaults
empty_batch = refl

validate-IsValid_example :
    (validate float parse (config (codes " postgres://db") unset) ≡ ok tt)
    ↔ IsValid float parse (config (codes " postgres://db") unset)
validate-IsValid_example = validate-IsValid float parse (config (codes " postgres://db") unset)
