-- ===== src/Daemon/Observe.antt =====
-- src/daemon/observe.rs: the routes of the server and their status. The text of the metrics is that of
-- their library.
use wotcrawler.Prelude.{ℕ, List, ◌≡◌, ◌↔◌, ◌∙◌, sym, ap, Bool, true, false, not}
use wotcrawler.External.{External}
use wotcrawler.Relay.Health.{Float}
use wotcrawler.Store.{Db}
use wotcrawler.Daemon.Loop.{Loop, Reachable}
use wotcrawler.Daemon.Loop.Bounded.{has_ended, Reachable-IsBounded}

pub data StatusCode : Type 0 where
  ok service_unavailable : StatusCode

-- What becomes of the ping of the database within its deadline.
pub data Ping : Type 0 where
  answered refused late : Ping

pub data Route : Type 0 where
  metrics health_live health_ready : Route

abbrev pub live_handler : StatusCode
live_handler = ok

abbrev pub ready_handler : Bool → Ping → StatusCode
ready_handler false ping = service_unavailable
ready_handler true answered = ok
ready_handler true refused = service_unavailable
ready_handler true late = service_unavailable

abbrev pub router : Route → Bool → Ping → StatusCode
router metrics loop_alive ping = ok
router health_live loop_alive ping = live_handler
router health_ready loop_alive ping = ready_handler loop_alive ping

abbrev pub is_answered : Ping → Bool
is_answered answered = true
is_answered refused = false
is_answered late = false

ready_iff :
    (loop_alive : Bool) (ping : Ping)
    → (ready_handler loop_alive ping ≡ ok) ↔ ((loop_alive ≡ true) × (is_answered ping ≡ true))
ready_iff false ping = (λ h. cc, λ h. absurd (clash h.0))
  where
    clash : Path Bool false true → ⊥
    clash q = cc
ready_iff true answered = (λ h. (cc, cc), λ h. cc)
ready_iff true refused = (λ h. cc, λ h. cc)
ready_iff true late = (λ h. cc, λ h. cc)

module _ (ext : External) (float : Float) (batch_size concurrency want_kind : ℕ)
    (future_clamp_secs follow_cap max_attempts : ℕ) (fallback_enabled : Bool)
    (nip65_max_write_relays : ℕ) (anchor_pubkey : List ℕ) (first : Db) where
  -- In every state that the loop can reach, the server says ready exactly if the loop has not ended
  -- and the database answers in time.
  pub router-Reachable :
      (s : Loop) (ping : Ping)
      → Reachable ext float batch_size concurrency want_kind future_clamp_secs follow_cap
          max_attempts fallback_enabled nip65_max_write_relays anchor_pubkey first s
      → (router health_ready s.loop_alive ping ≡ ok)
        ↔ ((has_ended s.place ≡ false) × (is_answered ping ≡ true))
  router-Reachable s ping reached =
      let bounded =
        Reachable-IsBounded ext float batch_size concurrency want_kind future_clamp_secs follow_cap
          max_attempts fallback_enabled nip65_max_write_relays anchor_pubkey first reached in
      let (to, from) = ready_iff s.loop_alive ping in
      (
        λ h. let (on, pinged) = to h in (going (sym bounded.alive ∙ on), pinged),
        λ (on, pinged). from (bounded.alive ∙ ap not on, pinged),
      )
    where
      going : {b : Bool} → not b ≡ true → b ≡ false
      going {b = true} q = cc
      going {b = false} q = cc
