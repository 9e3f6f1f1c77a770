-- ===== src/Relay/Client.antt =====
-- src/relay/mod.rs: from the raw events of a fetch to validated lists, and the routing of notices.
use Prim.Native.String.{String}
use wotcrawler.Prelude.{ℕ, ◌*◌, Bool, true, List, [], ◌∷◌}
use wotcrawler.Prelude.Results.{Result, ok, err}
use wotcrawler.External.{External}
use wotcrawler.Errors.{RelayError}
use wotcrawler.Ingest.Gate.{ValidatedFollowList, ingest_events}
use wotcrawler.Relay.RateLimit.{
  second, RateLimiterRegistry, rate_limited, blocked, other, classify_notice, record_notice, reset,
}
use wotcrawler.Relay.Health.{
  Float, RelayHealthRegistry, record_rate_limited, record_connect_failure,
}
pub mod Routing
pub mod Tests

abbrev pub default_retry_interval : ℕ
default_retry_interval = 10 * second

pub record ReconnectPolicy : Type 0 where
  pub reconnect : Bool
  pub retry_interval : ℕ
  pub adjust_retry_interval : Bool

abbrev pub crawler_default : ReconnectPolicy
crawler_default = record {
  reconnect = true;
  retry_interval = default_retry_interval;
  adjust_retry_interval = true;
}

-- `fetched` is the outcome of the fetch.
unfoldable pub acquire_validated_lists :
    (ext : External)
    → List ℕ
    → ℕ
    → ℕ
    → ℕ
    → ℕ
    → Result RelayError (List ext.Event)
    → Result RelayError (List ValidatedFollowList)
acquire_validated_lists ext requested want_kind now future_clamp_secs follow_cap (err e) = err e
acquire_validated_lists ext requested want_kind now future_clamp_secs follow_cap (ok raw_events) =
    ok (ingest_events ext raw_events want_kind requested now future_clamp_secs follow_cap)

-- The state of the limiters after `acquire_validated_lists_client`, for the outcome of the fetch.
unfoldable pub after_acquire :
    {A : Type 0} → Result RelayError A → RateLimiterRegistry → String → RateLimiterRegistry
after_acquire (ok a) registry relay_url = reset registry relay_url
after_acquire (err e) registry relay_url = registry

module _ (float : Float) (draw : ℕ → ℕ) where
  -- Both registries after a message. The delay that `record_notice` returns is dropped.
  unfoldable pub handle_relay_message :
      RateLimiterRegistry
      → RelayHealthRegistry float
      → String
      → List ℕ
      → RateLimiterRegistry × RelayHealthRegistry float
  handle_relay_message registry health relay_url message = elim (classify_notice message) [
    | rate_limited ↦ (
      (record_notice draw registry relay_url message).0,
      record_rate_limited float health relay_url,
    )
    | blocked ↦ (
      (record_notice draw registry relay_url message).0,
      record_connect_failure float health relay_url,
    )
    | other ↦ (registry, health)
  ]

  -- What the notification channel delivers: a message with a text (`NOTICE`, `CLOSED`), another
  -- message, a shutdown, another notification, or the error of a lagged or closed channel.
  pub data Notification : Type 0 where
    text : (relay_url : String) → (message : List ℕ) → Notification
    other_message shutdown other_notification channel_error : Notification

  -- The loop of the consumer, over the notifications in the order of their arrival.
  unfoldable pub consume :
      RateLimiterRegistry
      → RelayHealthRegistry float
      → List Notification
      → RateLimiterRegistry × RelayHealthRegistry float
  unfolding handle_relay_message
  consume registry health [] = (registry, health)
  consume registry health (text relay_url message ∷ rest) =
      let (r, h) = handle_relay_message registry health relay_url message in consume r h rest
  consume registry health (other_message ∷ rest) = consume registry health rest
  consume registry health (shutdown ∷ rest) = (registry, health)
  consume registry health (other_notification ∷ rest) = consume registry health rest
  consume registry health (channel_error ∷ rest) = (registry, health)
