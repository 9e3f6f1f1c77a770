-- ===== src/Ingest/Gate.antt =====
-- src/ingest/mod.rs: `ingest_events` and the values that it emits. The map of authors is an
-- association list in the order of first arrival; the order in which the source walks its hash map
-- is not specified, and nothing below depends on it but the order of the result.
use wotcrawler.Prelude.{
  ℕ, List, [], ◌∷◌, ◌++◌, Option, none, some, ◌==◌, if◌then◌else◌, contains, filter_map, ℤ,
}
use wotcrawler.External.{External}
use wotcrawler.Ingest.Verify.{accept, timestamp_to_datetime}
use wotcrawler.Ingest.Replaceable.{pick_winner}
use wotcrawler.Ingest.FollowList.{followee_pubkeys}

pub record ValidatedFollowList : Type 0 where
  pub follower_pubkey : ℕ
  pub event_id : ℕ
  pub created_at : ℤ
  pub followee_pubkeys : List ℕ

-- `by_author.entry(author).or_default().push(event)`.
unfoldable pub push_event {ℓ} : {E : Type ℓ} → ℕ → E → List (ℕ × List E) → List (ℕ × List E)
push_event author event [] = (author, event ∷ []) ∷ []
push_event author event ((a, group) ∷ groups) =
    let rest = push_event author event groups in
    if a == author then (a, group ++ event ∷ []) ∷ groups else (a, group) ∷ rest

-- The two collections that the loop fills.
pub record GateState (E : Type 0) : Type 0 where
  pub seen : List ℕ
  pub by_author : List (ℕ × List E)

abbrev pub empty_gate : {E : Type 0} → GateState E
empty_gate = record { seen = []; by_author = [] }

module _ (ext : External) where
  open ext use {Event, id, pubkey, created_at}

  unfoldable pub from_event : Event → List ℕ → ValidatedFollowList
  from_event event followees = record {
    follower_pubkey = pubkey event;
    event_id = id event;
    created_at = timestamp_to_datetime ext (created_at event);
    followee_pubkeys = followees;
  }

  module _ (want_kind : ℕ) (requested : List ℕ) where
    -- One round of the first loop: verify, then dedup, then group.
    unfoldable pub gate_step : GateState Event → Event → GateState Event
    unfolding push_event
    gate_step g event =
        if accept ext event want_kind requested
        then (if contains g.seen (id event) then g else record {
          seen = id event ∷ g.seen;
          by_author = push_event (pubkey event) event g.by_author;
        })
        else g

    unfoldable pub gate : GateState Event → List Event → GateState Event
    unfolding gate_step
    gate g [] = g
    gate g (event ∷ events) = gate (gate_step g event) events

  -- One round of the second loop: the winner of a group, and its followees.
  unfoldable pub resolve_group : ℕ → ℕ → ℕ → ℕ × List Event → Option ValidatedFollowList
  unfolding from_event
  resolve_group now future_clamp_secs follow_cap (_, group) =
      elim (pick_winner ext group now future_clamp_secs) [
        | none ↦ none
        | some winner ↦ elim (followee_pubkeys ext winner follow_cap) [
          | none ↦ none
          | some followees ↦ some (from_event winner followees)
        ]
      ]

  unfoldable pub ingest_events : List Event → ℕ → List ℕ → ℕ → ℕ → ℕ → List ValidatedFollowList
  unfolding gate resolve_group
  ingest_events events want_kind requested now future_clamp_secs follow_cap =
      filter_map (resolve_group now future_clamp_secs follow_cap)
        (gate want_kind requested empty_gate events).by_author
