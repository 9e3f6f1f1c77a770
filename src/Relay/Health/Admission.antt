-- ===== src/Relay/Health/Admission.antt =====
-- src/relay/health.rs: `admit_per_relay`, as the steps that its concurrent calls for one relay can
-- take, between those that other code takes on the registry.
use Prim.Native.String.{String}
use wotcrawler.Prelude.{ℕ, ◌+◌, ◌-◌, ◌*◌, ◌^◌, ◌%◌, ◌≤◌, ◌<◌, ◌≡◌, Bool, true, false, ltb}
use wotcrawler.Prelude.Maps.{string_eq}
use wotcrawler.Relay.Health.{
  Float, RelayHealthRegistry, update, permits, in_use_of, incr_in_use, decr_in_use, mark_attempt,
}

module _ (float : Float) (relay : String) (per_relay_concurrency : ℕ) where
  open float use {F}

  -- How many calls are in the loop of the admission gate; past it, and waiting for the semaphore;
  -- holding a permit of it, with the slot not counted yet; in the fetch; and past the drop of the
  -- slot, with the permit not returned yet.
  pub record Calls : Type 0 where
    pub health : RelayHealthRegistry float
    pub waiting : ℕ
    pub admitted : ℕ
    pub holding : ℕ
    pub fetching : ℕ
    pub closing : ℕ

  -- The test of the loop; `permits` is cut to 32 bits.
  unfoldable pub admits : RelayHealthRegistry float → Bool
  unfolding in_use_of permits
  admits h = ltb (in_use_of float h relay) (permits float h relay per_relay_concurrency % 2 ^ 32)

  -- The permits of the semaphore that are taken.
  abbrev pub held : Calls → ℕ
  held s = s.holding + s.fetching + s.closing

  -- A step of a call on its way through.
  pub data Advance : Calls → Calls → Type 0 where
    admit :
        {s : Calls}
        → 0 < s.waiting
        → admits s.health ≡ true
        → Advance s (record s { waiting = s.waiting - 1; admitted = s.admitted + 1 })
    acquire :
        {s : Calls}
        → 0 < s.admitted
        → held s < per_relay_concurrency
        → Advance s (record s { admitted = s.admitted - 1; holding = s.holding + 1 })
    enter :
        {s : Calls}
        → 0 < s.holding
        → Advance s (record s {
          health = incr_in_use float s.health relay;
          holding = s.holding - 1;
          fetching = s.fetching + 1;
        })
    leave :
        {s : Calls}
        → 0 < s.fetching
        → Advance s (record s {
          health = decr_in_use float s.health relay;
          fetching = s.fetching - 1;
          closing = s.closing + 1;
        })
    release : {s : Calls} → 0 < s.closing → Advance s (record s { closing = s.closing - 1 })

  -- A step of the system. A call may be dropped where it waits; dropped in the fetch it leaves as at
  -- its end. Other calls take and return slots of other relays.
  pub data Step : Calls → Calls → Type 0 where
    call : {s : Calls} → Step s (record s { waiting = s.waiting + 1 })
    advance : {s t : Calls} → Advance s t → Step s t
    drop_waiting : {s : Calls} → 0 < s.waiting → Step s (record s { waiting = s.waiting - 1 })
    drop_admitted : {s : Calls} → 0 < s.admitted → Step s (record s { admitted = s.admitted - 1 })
    observe :
        {s : Calls}
        → (j : String) (sample : F) → Step s (record s { health = update float s.health j sample })
    probe :
        {s : Calls}
        → (j : String) (now : ℕ) → Step s (record s { health = mark_attempt float s.health j now })
    enter_other :
        {s : Calls}
        → (j : String) → string_eq.beq j relay ≡ false
        → Step s (record s { health = incr_in_use float s.health j })
    leave_other :
        {s : Calls}
        → (j : String) → string_eq.beq j relay ≡ false
        → Step s (record s { health = decr_in_use float s.health j })

  abbrev pub idle : RelayHealthRegistry float → Calls
  idle h = record { health = h; waiting = 0; admitted = 0; holding = 0; fetching = 0; closing = 0 }

  -- The states that a run from a registry with no slot in use can reach.
  pub data Reachable : Calls → Type 0 where
    start : {h : RelayHealthRegistry float} → in_use_of float h relay ≡ 0 → Reachable (idle h)
    step : {s t : Calls} → Reachable s → Step s t → Reachable t

  -- The count of slots is that of the calls in the fetch, and the semaphore is not overdrawn.
  pub record IsCounted (s : Calls) : Type 0 where
    pub counted : in_use_of float s.health relay ≡ s.fetching
    pub bounded : held s ≤ per_relay_concurrency

  -- What is left to do.
  abbrev pub work : Calls → ℕ
  work s = 5 * s.waiting + 4 * s.admitted + 3 * s.holding + 2 * s.fetching + s.closing
