-- ===== src/Daemon/Config.antt =====
-- src/daemon/config.rs: the settings of the daemon, their defaults, and the check of them at startup.
-- The parsers of the file, of the environment and of a public key are third-party: the parse of a
-- key is an argument, and a file is the fields that it sets. A duration is a number of nanoseconds,
-- a text a list of code points; the bind address is left out.
use wotcrawler.Prelude.{
  ℕ, ◌*◌, Bool, true, false, not, ◌&&◌, ◌||◌, List, [], ◌∷◌, Option, none, some, ℤ, pos, negsuc,
  ltb, leb, ◌==◌, is_empty, if◌then◌else◌,
}
use mathlib.Core.Option.{get_or}
use wotcrawler.Prelude.Results.{Result, ok, err, ◌>>◌}
use wotcrawler.Relay.RateLimit.{codes, trim, second, default_reqs_per_second}
use wotcrawler.Relay.Fetch.Chunks.{default_fetch_timeout}
use wotcrawler.Relay.Health.{
  Float, default_per_relay_concurrency, default_nip65_max_write_relays,
  default_nip65_fallback_enabled,
}
use wotcrawler.Crawl.Workers.{default_concurrency, default_batch_size, default_max_attempts}
pub mod Texts
pub mod Validated
pub mod Tests

pub data LogFormat : Type 0 where
  human json : LogFormat

-- Why `validate` refuses the settings.
pub data Refusal : Type 0 where
  invalid_anchor_pubkey no_relays zero_ttl no_database_url not_a_url : Refusal
  zero_concurrency zero_batch_size zero_reqs_per_second : Refusal
  zero_nip65_max_write_relays zero_per_relay_concurrency : Refusal
  relay_health_threshold_range health_alpha_range : Refusal

abbrev pub default_log_level : List ℕ
default_log_level = codes "info"

abbrev pub default_progress_interval : ℕ
default_progress_interval = 60 * second

abbrev pub default_staleness_scan_interval : ℕ
default_staleness_scan_interval = 300 * second

abbrev pub default_reclaim_interval : ℕ
default_reclaim_interval = 60 * second

abbrev pub default_reclaim_age : ℕ
default_reclaim_age = 300 * second

abbrev pub default_idle_poll_interval : ℕ
default_idle_poll_interval = 5 * second

abbrev pub is_prefix : List ℕ → List ℕ → Bool
is_prefix [] text = true
is_prefix (p ∷ ps) [] = false
is_prefix (p ∷ ps) (c ∷ cs) = p == c && is_prefix ps cs

-- `str::contains`, for a pattern that is not empty.
abbrev pub contains_text : List ℕ → List ℕ → Bool
contains_text pattern [] = false
contains_text pattern (c ∷ cs) = is_prefix pattern (c ∷ cs) || contains_text pattern cs

abbrev pub is_positive : ℤ → Bool
is_positive (pos n) = ltb 0 n
is_positive (negsuc n) = false

abbrev pub ensure : Bool → Refusal → Result Refusal Unit
ensure b refusal = if b then ok tt else err refusal

module _ (float : Float) where
  open float use {F, of_nat, div, ge}

  pub record Config : Type 0 where
    pub anchor_pubkey : List ℕ
    pub relays : List (List ℕ)
    pub database_url : List ℕ
    pub ttl : ℕ
    pub concurrency : ℕ
    pub batch_size : ℤ
    pub max_attempts : ℤ
    pub fetch_timeout : ℕ
    pub reqs_per_second : ℕ
    pub log_level : List ℕ
    pub log_format : LogFormat
    pub progress_interval : ℕ
    pub staleness_scan_interval : ℕ
    pub reclaim_interval : ℕ
    pub reclaim_age : ℕ
    pub idle_poll_interval : ℕ
    pub nip65_fallback_enabled : Bool
    pub nip65_max_write_relays : ℕ
    pub relay_health_threshold : F
    pub per_relay_concurrency : ℕ
    pub health_alpha : F

  -- The fields of a file that have a default.
  pub record Optional : Type 0 where
    pub concurrency : Option ℕ
    pub batch_size : Option ℤ
    pub max_attempts : Option ℤ
    pub fetch_timeout : Option ℕ
    pub reqs_per_second : Option ℕ
    pub log_level : Option (List ℕ)
    pub log_format : Option LogFormat
    pub progress_interval : Option ℕ
    pub staleness_scan_interval : Option ℕ
    pub reclaim_interval : Option ℕ
    pub reclaim_age : Option ℕ
    pub idle_poll_interval : Option ℕ
    pub nip65_fallback_enabled : Option Bool
    pub nip65_max_write_relays : Option ℕ
    pub relay_health_threshold : Option F
    pub per_relay_concurrency : Option ℕ
    pub health_alpha : Option F

  -- 0.25, and the double next to 0.3.
  abbrev pub default_relay_health_threshold : F
  default_relay_health_threshold = div (of_nat 1) (of_nat 4)

  abbrev pub default_health_alpha : F
  default_health_alpha = div (of_nat 3) (of_nat 10)

  -- The settings of a file that sets the required fields.
  unfoldable pub with_defaults : List ℕ → List (List ℕ) → List ℕ → ℕ → Optional → Config
  with_defaults anchor_pubkey relays database_url ttl o = record {
    anchor_pubkey = anchor_pubkey;
    relays = relays;
    database_url = database_url;
    ttl = ttl;
    concurrency = get_or o.concurrency default_concurrency;
    batch_size = get_or o.batch_size (pos default_batch_size);
    max_attempts = get_or o.max_attempts (pos default_max_attempts);
    fetch_timeout = get_or o.fetch_timeout default_fetch_timeout;
    reqs_per_second = get_or o.reqs_per_second default_reqs_per_second;
    log_level = get_or o.log_level default_log_level;
    log_format = get_or o.log_format human;
    progress_interval = get_or o.progress_interval default_progress_interval;
    staleness_scan_interval = get_or o.staleness_scan_interval default_staleness_scan_interval;
    reclaim_interval = get_or o.reclaim_interval default_reclaim_interval;
    reclaim_age = get_or o.reclaim_age default_reclaim_age;
    idle_poll_interval = get_or o.idle_poll_interval default_idle_poll_interval;
    nip65_fallback_enabled = get_or o.nip65_fallback_enabled default_nip65_fallback_enabled;
    nip65_max_write_relays = get_or o.nip65_max_write_relays default_nip65_max_write_relays;
    relay_health_threshold = get_or o.relay_health_threshold default_relay_health_threshold;
    per_relay_concurrency = get_or o.per_relay_concurrency default_per_relay_concurrency;
    health_alpha = get_or o.health_alpha default_health_alpha;
  }

  -- `PublicKey::parse(..).is_ok()`.
  abbrev pub parses : Option ℕ → Bool
  parses (some key) = true
  parses none = false

  -- The tests on the two floating-point settings, which a NaN fails.
  abbrev pub is_threshold : F → Bool
  is_threshold x = ge x (of_nat 0) && ge (of_nat 1) x

  abbrev pub is_alpha : F → Bool
  is_alpha x = ge x (of_nat 0) && not (ge (of_nat 0) x) && ge (of_nat 1) x

  unfoldable pub validate : (List ℕ → Option ℕ) → Config → Result Refusal Unit
  unfolding trim
  validate parse c =
      ensure (parses (parse c.anchor_pubkey)) invalid_anchor_pubkey
      >> ensure (not (is_empty c.relays)) no_relays
      >> ensure (ltb 0 c.ttl) zero_ttl
      >> ensure (not (is_empty (trim c.database_url))) no_database_url
      >> ensure (contains_text (codes "://") c.database_url) not_a_url
      >> ensure (ltb 0 c.concurrency) zero_concurrency
      >> ensure (is_positive c.batch_size) zero_batch_size
      >> ensure (ltb 0 c.reqs_per_second) zero_reqs_per_second
      >> ensure (ltb 0 c.nip65_max_write_relays) zero_nip65_max_write_relays
      >> ensure (ltb 0 c.per_relay_concurrency) zero_per_relay_concurrency
      >> ensure (is_threshold c.relay_health_threshold) relay_health_threshold_range
      >> ensure (is_alpha c.health_alpha) health_alpha_range
