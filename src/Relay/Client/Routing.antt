-- ===== src/Relay/Client/Routing.antt =====
-- src/relay/mod.rs: which notices escalate the backoff of a relay.
use Prim.Native.String.{String}
use wotcrawler.Prelude.{ℕ, ◌+◌, Bool, true, false, ◌&&◌, List, [], ◌∷◌, if◌then◌else◌}
use wotcrawler.Prelude.Maps.{string_eq}
use wotcrawler.Relay.RateLimit.{NoticeKind, rate_limited, blocked, other, classify_notice}
use wotcrawler.Relay.Health.{Float}
use wotcrawler.Relay.Client.{
  Notification, text, other_message, shutdown, other_notification, channel_error,
}

abbrev pub is_escalating : NoticeKind → Bool
is_escalating rate_limited = true
is_escalating blocked = false
is_escalating other = false

module _ (float : Float) (draw : ℕ → ℕ) where
  -- The rate-limit notices of relay `j` that arrive before a shutdown or an error of the channel.
  abbrev pub escalations : String → List (Notification float draw) → ℕ
  escalations j [] = 0
  escalations j (text relay_url message ∷ rest) =
      let n = escalations j rest in
      if is_escalating (classify_notice message) && string_eq.beq relay_url j then n + 1 else n
  escalations j (other_message ∷ rest) = escalations j rest
  escalations j (shutdown ∷ rest) = 0
  escalations j (other_notification ∷ rest) = escalations j rest
  escalations j (channel_error ∷ rest) = 0
