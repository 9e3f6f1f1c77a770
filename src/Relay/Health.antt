-- ===== src/Relay/Health.antt =====
-- src/relay/health.rs: the health score of a relay, the probes of a degraded one, and the slots in
-- use. `f64` is a parameter: the theorems do not depend on its rounding. An instant is a number of
-- nanoseconds of the monotonic clock.
use Prim.Native.String.{String}
use wotcrawler.Prelude.{
  ℕ, ◌+◌, ◌-◌, ◌*◌, ◌^◌, min, max, Bool, true, false, List, [], ◌∷◌, Option, none, some, leb, ltb,
  if◌then◌else◌,
}
use mathlib.Core.Option.{get_or}
use wotcrawler.Prelude.Maps.{lookup, insert, string_eq}
use wotcrawler.Relay.RateLimit.{second}
pub mod Probes
pub mod Admission
pub mod Tests

-- The operations on `f64` that the registry uses; `round_usize x` is `x.round() as usize`.
pub record Float : Type 1 where
  pub F : Type 0
  pub of_nat : ℕ → F
  pub add : F → F → F
  pub sub : F → F → F
  pub mul : F → F → F
  pub div : F → F → F
  pub ge : F → F → Bool
  pub round_usize : F → ℕ
  pub as_secs_f64 : ℕ → F

abbrev pub default_per_relay_concurrency : ℕ
default_per_relay_concurrency = 4

abbrev pub default_nip65_max_write_relays : ℕ
default_nip65_max_write_relays = 3

abbrev pub default_nip65_fallback_enabled : Bool
default_nip65_fallback_enabled = true

abbrev pub probe_interval : ℕ
probe_interval = 60 * second

module _ (float : Float) where
  open float use {F, of_nat, add, sub, mul, div, ge, round_usize, as_secs_f64}

  pub record RelayHealthRegistry : Type 0 where
    pub alpha : F
    pub scores : List (String × F)
    pub in_use : List (String × ℕ)
    pub last_probe : List (String × ℕ)

  unfoldable pub new_health : F → RelayHealthRegistry
  new_health alpha = record { alpha = alpha; scores = []; in_use = []; last_probe = [] }

  unfoldable pub update : RelayHealthRegistry → String → F → RelayHealthRegistry
  update h relay sample =
      let prev = get_or (lookup relay h.scores) (of_nat 1) in
      let next = add (mul h.alpha sample) (mul (sub (of_nat 1) h.alpha) prev) in
      record h { scores = insert relay next h.scores }

  unfoldable pub record_success : RelayHealthRegistry → String → ℕ → RelayHealthRegistry
  unfolding update
  record_success h relay latency =
      let sample = div (of_nat 1) (add (of_nat 1) (div (as_secs_f64 latency) (of_nat 3))) in
      update h relay sample

  unfoldable pub record_timeout : RelayHealthRegistry → String → RelayHealthRegistry
  unfolding update
  record_timeout h relay = update h relay (of_nat 0)

  unfoldable pub record_connect_failure : RelayHealthRegistry → String → RelayHealthRegistry
  unfolding update
  record_connect_failure h relay = update h relay (of_nat 0)

  -- The sample is 0.2, the double next to a fifth.
  unfoldable pub record_rate_limited : RelayHealthRegistry → String → RelayHealthRegistry
  unfolding update
  record_rate_limited h relay = update h relay (div (of_nat 1) (of_nat 5))

  unfoldable pub score : RelayHealthRegistry → String → F
  score h relay = get_or (lookup relay h.scores) (of_nat 1)

  unfoldable pub permits : RelayHealthRegistry → String → ℕ → ℕ
  unfolding score
  permits h relay per_relay_concurrency =
      max (round_usize (mul (of_nat per_relay_concurrency) (score h relay))) 1

  unfoldable pub in_use_of : RelayHealthRegistry → String → ℕ
  in_use_of h relay = get_or (lookup relay h.in_use) 0

  unfoldable pub incr_in_use : RelayHealthRegistry → String → RelayHealthRegistry
  unfolding in_use_of
  incr_in_use h relay = record h {
    in_use = insert relay (min (in_use_of h relay + 1) (2 ^ 32 - 1)) h.in_use;
  }

  unfoldable pub decr_in_use : RelayHealthRegistry → String → RelayHealthRegistry
  decr_in_use h relay = elim (lookup relay h.in_use) [
    | some entry ↦ record h { in_use = insert relay (entry - 1) h.in_use }
    | none ↦ h
  ]

  -- A relay that was never attempted, or was long enough ago.
  abbrev pub probe_due : Option ℕ → ℕ → Bool
  probe_due none now = true
  probe_due (some t) now = leb probe_interval (now - t)

  unfoldable pub route_allowed : RelayHealthRegistry → String → F → ℕ → Bool
  unfolding score
  route_allowed h relay threshold now =
      if ge (score h relay) threshold then true else probe_due (lookup relay h.last_probe) now

  unfoldable pub mark_attempt : RelayHealthRegistry → String → ℕ → RelayHealthRegistry
  mark_attempt h relay now = record h { last_probe = insert relay now h.last_probe }

  unfoldable pub try_mark_attempt :
      RelayHealthRegistry → String → F → ℕ → Bool × RelayHealthRegistry
  unfolding score
  try_mark_attempt h relay threshold now =
      let healthy = ge (score h relay) threshold in
      if healthy
      then (true, record h { last_probe = insert relay now h.last_probe })
      else (let due = probe_due (lookup relay h.last_probe) now in
          if due then (due, record h { last_probe = insert relay now h.last_probe }) else (due, h))
