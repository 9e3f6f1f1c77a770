-- ===== src/Ingest/RelayList.antt =====
-- src/ingest/relay_list.rs: relay lists (kind 10002) of a single author.
use Prim.Native.String.{String}
use wotcrawler.Prelude.{ℕ, List, [], ◌∷◌, ◌++◌, Option, none, some, if◌then◌else◌, contains, map, ℤ}
use wotcrawler.External.{External, RelayMetadata}
use wotcrawler.Ingest.Verify.{accept, timestamp_to_datetime}
use wotcrawler.Ingest.Replaceable.{pick_winner}

-- The text in `pubkey_relays.marker`; a check constraint of the table allows these three.
pub data Marker : Type 0 where
  read write both : Marker

pub record ValidatedRelayList : Type 0 where
  pub pubkey : ℕ
  pub event_id : ℕ
  pub created_at : ℤ
  pub relays : List (String × Marker)

unfoldable pub marker_of : Option RelayMetadata → Marker
marker_of (some RelayMetadata.read) = Marker.read
marker_of (some RelayMetadata.write) = Marker.write
marker_of none = Marker.both

-- `Kind::RelayList`.
abbrev pub relay_list_kind : ℕ
relay_list_kind = 10002

module _ (ext : External) where
  open ext use {Event, id, pubkey, created_at, extract_relay_list}

  unfoldable pub extract_relay_pairs : Event → List (String × Marker)
  unfolding marker_of
  extract_relay_pairs event = map (λ r. (r.0, marker_of r.1)) (extract_relay_list event)

  unfoldable pub relay_list_from_event : Event → ValidatedRelayList
  unfolding extract_relay_pairs
  relay_list_from_event event = record {
    pubkey = pubkey event;
    event_id = id event;
    created_at = timestamp_to_datetime ext (created_at event);
    relays = extract_relay_pairs event;
  }

  -- The loop: verify, then dedup; the seen ids and the candidates.
  unfoldable pub candidate_step : ℕ → List ℕ × List Event → Event → List ℕ × List Event
  candidate_step author (seen, candidates) event =
      if accept ext event relay_list_kind (author ∷ [])
      then (if contains seen (id event)
          then (seen, candidates)
          else (id event ∷ seen, candidates ++ event ∷ []))
      else (seen, candidates)

  unfoldable pub candidates_from : ℕ → List ℕ × List Event → List Event → List ℕ × List Event
  unfolding candidate_step
  candidates_from author s [] = s
  candidates_from author s (event ∷ events) =
      candidates_from author (candidate_step author s event) events

  unfoldable pub resolve_relay_list : List Event → ℕ → ℕ → ℕ → Option ValidatedRelayList
  unfolding candidates_from relay_list_from_event
  resolve_relay_list events author now future_clamp_secs =
      elim (pick_winner ext (candidates_from author ([], []) events).1 now future_clamp_secs) [
        | none ↦ none
        | some winner ↦ some (relay_list_from_event winner)
      ]
