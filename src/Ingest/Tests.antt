-- ===== src/Ingest/Tests.antt =====
-- Runs of the gate, and the theorems on it at concrete inputs.
use Prim.Native.String.{String}
use wotcrawler.Prelude.{
  ℕ, ◌≡◌, inl, refl, Bool, true, false, List, [], ◌∷◌, Option, none, some, length, Member, pos,
  arith, if◌then◌else◌, ◌+◌, ◌*◌, ltb, ◌==◌, ◌&&◌,
}
use wotcrawler.External.{External, BindsId, RelayMetadata}
use wotcrawler.Ingest.Verify.{accept, timestamp_to_datetime}
use wotcrawler.Ingest.Replaceable.{cutoff, pick_winner}
use wotcrawler.Ingest.FollowList.{followee_pubkeys}
use wotcrawler.Ingest.Gate.{ValidatedFollowList, from_event, ingest_events}
use wotcrawler.Ingest.RelayList.{
  ValidatedRelayList, Marker, relay_list_from_event, resolve_relay_list, relay_list_kind,
}
use wotcrawler.Ingest.Winner.{pick_winner_unordered}
use wotcrawler.Ingest.Followees.{IsFolloweeSet, followee_pubkeys-IsFolloweeSet}
use wotcrawler.Ingest.Latest.{IsLatest}
use wotcrawler.Ingest.Lists.{IsMadeFrom, ingest_events-IsLatest, ingest_events_complete}
use wotcrawler.Ingest.Forgery.{ingest_events_rejected}
use wotcrawler.Ingest.Outbox.{resolve_relay_list-IsLatest}

record Note : Type 0 where
  id : ℕ
  pubkey : ℕ
  created_at : ℕ
  kind : ℕ
  genuine : Bool
  follows : List ℕ
  relays : List (String × Option RelayMetadata)

-- Events as records. An id is the author's number and the time, written side by side; an event
-- verifies only if its id is that and it is marked as genuine.
abbrev ext : External
ext = record {
  Event = Note;
  id = λ e. e.id;
  pubkey = λ e. e.pubkey;
  created_at = λ e. e.created_at;
  kind = λ e. e.kind;
  verify = λ e. e.genuine && e.id == 1000 * e.pubkey + e.created_at && ltb e.created_at 1000;
  public_keys = λ e. e.follows;
  extract_relay_list = λ e. e.relays;
  from_slice = λ b. none;
  to_bytes = λ k. [];
  in_range = λ t. true;
}

ext-BindsId : BindsId ext
ext-BindsId = record {
  binds_time = λ a b ha hb same. ground arith;
  binds_author = λ a b ha hb same. ground arith;
}

abbrev note : ℕ → ℕ → ℕ → List ℕ → Note
note author time kind follows = record {
  id = 1000 * author + time;
  pubkey = author;
  created_at = time;
  kind = kind;
  genuine = true;
  follows = follows;
  relays = [];
}

-- Two lists of author 1, one of author 2, and a forgery that claims the id of the newer list.
abbrev old : Note
old = note 1 100 3 (2 ∷ [])

abbrev new : Note
new = note 1 200 3 (2 ∷ 3 ∷ 2 ∷ 1 ∷ [])

abbrev late : Note
late = note 1 900 3 (9 ∷ [])

abbrev other : Note
other = note 2 150 3 (1 ∷ [])

abbrev forged : Note
forged = record new { genuine = false; follows = 7 ∷ [] }

abbrev arrivals : List Note
arrivals = old ∷ new ∷ other ∷ late ∷ []

abbrev new_list : ValidatedFollowList
new_list = record {
  follower_pubkey = 1;
  event_id = 1200;
  created_at = pos 200;
  followee_pubkeys = 2 ∷ 3 ∷ [];
}

abbrev other_list : ValidatedFollowList
other_list = record {
  follower_pubkey = 2;
  event_id = 2150;
  created_at = pos 150;
  followee_pubkeys = 1 ∷ [];
}

program : Unit {0}
unfolding accept ingest_events pick_winner followee_pubkeys timestamp_to_datetime cutoff
program = tt

ingest-arrivals :
    ingest_events ext (forged ∷ arrivals) 3 (1 ∷ 2 ∷ []) 300 60 10 ≡ new_list ∷ other_list ∷ []
unfolding program
ingest-arrivals = refl

-- A list over the cap drops its author.
ingest_oversized : ingest_events ext arrivals 3 (1 ∷ 2 ∷ []) 300 60 1 ≡ other_list ∷ []
unfolding program
ingest_oversized = refl

pick_winner_unordered_example :
    pick_winner ext (old ∷ new ∷ old ∷ []) 300 60 ≡ pick_winner ext (new ∷ old ∷ []) 300 60
pick_winner_unordered_example =
    pick_winner_unordered ext (old ∷ new ∷ old ∷ []) (new ∷ old ∷ []) 300 60 (λ a m. ground arith)
      (λ a m. ground arith) (λ a b p q e. ground arith)

followee_pubkeys-IsFolloweeSet_example :
    (fs : List ℕ) × IsFolloweeSet 1 (2 ∷ 3 ∷ 2 ∷ 1 ∷ []) fs
    × (followee_pubkeys ext new 1 ≡ (if ltb 1 (length fs) then none else some fs))
followee_pubkeys-IsFolloweeSet_example = followee_pubkeys-IsFolloweeSet ext new 1

ingest_events-IsLatest_example :
    (w : Note) × IsLatest ext arrivals 3 (1 ∷ 2 ∷ []) 300 60 w × IsMadeFrom ext 10 new_list w
unfolding program
ingest_events-IsLatest_example =
    ingest_events-IsLatest ext ext-BindsId arrivals 3 (1 ∷ 2 ∷ []) 300 60 10 new_list (inl refl)

ingest_events_complete_example :
    (w : Note) × IsLatest ext arrivals 3 (1 ∷ 2 ∷ []) 300 60 w
    × (w.pubkey ≡ old.pubkey)
    × ((fs : List ℕ)
        → followee_pubkeys ext w 10 ≡ some fs
        → Member (from_event ext w fs) (ingest_events ext arrivals 3 (1 ∷ 2 ∷ []) 300 60 10))
unfolding program
ingest_events_complete_example =
    ingest_events_complete ext ext-BindsId arrivals 3 (1 ∷ 2 ∷ []) 300 60 10 old (inl refl) refl
      (omega arith)

ingest_events_rejected_example :
    ingest_events ext (old ∷ forged ∷ new ∷ []) 3 (1 ∷ []) 300 60 10
    ≡ ingest_events ext (old ∷ new ∷ []) 3 (1 ∷ []) 300 60 10
unfolding accept
ingest_events_rejected_example =
    ingest_events_rejected ext 3 (1 ∷ []) 300 60 10 (old ∷ []) (new ∷ []) forged refl

abbrev relay_note : Note
relay_note = record (note 1 200 10002 []) {
  relays = ("wss://a", none) ∷ ("wss://b", some RelayMetadata.read) ∷ [];
}

abbrev relay_list : ValidatedRelayList
relay_list = record {
  pubkey = 1;
  event_id = 1200;
  created_at = pos 200;
  relays = ("wss://a", Marker.both) ∷ ("wss://b", Marker.read) ∷ [];
}

relay_program : Unit {0}
unfolding accept resolve_relay_list pick_winner timestamp_to_datetime cutoff
relay_program = tt

resolve-relay_note : resolve_relay_list ext (new ∷ relay_note ∷ []) 1 300 60 ≡ some relay_list
unfolding relay_program
resolve-relay_note = refl

resolve_relay_list-IsLatest_example :
    (w : Note) × IsLatest ext (new ∷ relay_note ∷ []) relay_list_kind (1 ∷ []) 300 60 w
    × (w.pubkey ≡ 1)
    × (relay_list ≡ relay_list_from_event ext w)
resolve_relay_list-IsLatest_example =
    resolve_relay_list-IsLatest ext 1 ext-BindsId (new ∷ relay_note ∷ []) 300 60 relay_list
      resolve-relay_note
